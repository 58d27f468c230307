-- ===== src/Stream.antt =====
-- stream.go: the queue between the engine and a stream of owned events. Each operation runs under
-- the queue's lock, so it is a function on the state. The map `pending` is a list of entries, read
-- and written by key only; `notify`, a channel of one place, is whether a token lies in it.
pub mod Merge
pub mod Keys
pub mod Fifo
use omnidiscover.Prelude.{
  ℕ, ◌+◌, ◌*◌, ◌%◌, ◌^◌, Bool, true, false, ◌&&◌, List, [], ◌∷◌, ◌++◌, Option, none, some, ltb, leb,
  if◌then◌else◌, length, drop, bit_or,
}
use omnidiscover.Model.{
  TextField, DiscoveredDevice, DiscoveredLink, LinkKey, no_link_key, EventKind, no_event_kind,
  event_added, event_changed, EventView, Event,
}
use omnidiscover.Model.Clone.{clone_event_into}
use omnidiscover.Model.Keys.{link_key_eq}

abbrev pub Pending : Type 0
Pending = List (LinkKey × Event)

pub record OwnedStreamQueue : Type 0 where
  pub max : ℕ
  pub pending : Pending
  pub order : List LinkKey
  pub head : ℕ
  pub notify : Bool
  pub closed : Bool
  pub dropped : ℕ

-- `newOwnedStreamQueue`, over the counter's value
unfoldable pub new_owned_stream_queue : ℕ → ℕ → OwnedStreamQueue
new_owned_stream_queue max dropped = record {
  max = max;
  pending = [];
  order = [];
  head = 0;
  notify = false;
  closed = false;
  dropped = dropped;
}

-- `q.pending[key]`
unfoldable pub find : LinkKey → Pending → Option Event
find key [] = none
find key ((k, e) ∷ p) = if link_key_eq k key then some e else find key p

-- `q.pending[key] = e`
unfoldable pub put : LinkKey → Event → Pending → Pending
put key e [] = (key, e) ∷ []
put key e ((k, e') ∷ p) = if link_key_eq k key then (key, e) ∷ p else (k, e') ∷ put key e p

-- `delete(q.pending, key)`
unfoldable pub delete : LinkKey → Pending → Pending
delete key [] = []
delete key ((k, e) ∷ p) = if link_key_eq k key then p else (k, e) ∷ delete key p

-- `oldKind == EventAdded && view.Kind == EventChanged`
pub is_still_added : EventKind → EventKind → Bool
is_still_added event_added event_changed = true
is_still_added _ _ = false

-- An event that is waiting takes in a later one of its link.
unfoldable pub coalesce : Event → EventView → Event
unfolding is_still_added
coalesce existing view =
    let fresh : Event = clone_event_into existing view in
    let kept : Event =
      (if is_still_added existing.kind view.kind
        then record fresh { kind = event_added }
        else fresh) in
    record kept { changed = bit_or kept.changed existing.changed }

-- A new entry, unless the queue is full.
enqueue_new : OwnedStreamQueue → LinkKey → Event → OwnedStreamQueue
enqueue_new q key e =
    if leb q.max (length q.pending)
    then record q { dropped = (q.dropped + 1) % 2 ^ 64 }
    else record q { pending = put key e q.pending; order = q.order ++ key ∷ []; notify = true }

enqueue_key : OwnedStreamQueue → Event → LinkKey → EventView → Option Event → OwnedStreamQueue
unfolding enqueue_new
enqueue_key q empty key view (some existing) = record q {
  pending = put key (coalesce existing view) q.pending;
}
enqueue_key q empty key view none = enqueue_new q key (clone_event_into empty view)

-- `enqueue`, where `empty` is `Event{}`
unfoldable pub enqueue : Event → OwnedStreamQueue → EventView → OwnedStreamQueue
unfolding enqueue_key
enqueue empty q view = elim view.link [
  | none ↦ q
  | some l ↦ if q.closed then q else enqueue_key q empty l.key view (find l.key q.pending)
]

-- `compact`
unfoldable pub compact : OwnedStreamQueue → OwnedStreamQueue
compact q =
    if ltb 1024 q.head && leb (length q.order) (q.head * 2)
    then record q { order = drop q.head q.order; head = 0 }
    else q

-- The loop of `pop`, over the keys from `head` on.
pop_loop : List LinkKey → OwnedStreamQueue → Option Event × OwnedStreamQueue
pop_loop [] q = (none, compact q)
pop_loop (key ∷ keys) q =
    let q' : OwnedStreamQueue = record q { head = q.head + 1 } in
    elim (find key q.pending) [
      | some e ↦ (some e, compact (record q' { pending = delete key q.pending }))
      | none ↦ pop_loop keys q'
    ]

-- `pop`
unfoldable pub pop : OwnedStreamQueue → Option Event × OwnedStreamQueue
unfolding pop_loop
pop q = pop_loop (drop q.head q.order) q

-- `close`
unfoldable pub close : OwnedStreamQueue → OwnedStreamQueue
close q = record q { closed = true }
