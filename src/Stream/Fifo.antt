-- ===== src/Stream/Fifo.antt =====
-- The queue of stream.go is a FIFO of links, one event per link.
use mathlib.Core.Path.{fun_ext, subst}
use omnidiscover.Prelude.{
  ℕ, suc, ◌+◌, ◌*◌, ◌≤◌, ◌≡◌, refl, sym, ◌∙◌, ap, Bool, true, false, ◌&&◌, List, [], ◌∷◌, ◌++◌,
  Option, none, some, ltb, leb, if◌then◌else◌, split_if, split_le, length, length-append, drop,
  arith,
}
use omnidiscover.Model.{DiscoveredLink, LinkKey, EventView, Event}
use omnidiscover.Model.Clone.{clone_event_into}
use omnidiscover.Stream.Merge.{taken, merged, clone_event_into-taken, coalesce-merged}
use omnidiscover.Stream.{
  Pending, OwnedStreamQueue, find, put, delete, coalesce, enqueue_new, enqueue_key, enqueue,
  compact, pop_loop, pop,
}
use omnidiscover.Stream.Keys.{
  keys, Distinct, eq_refl, find-waits, put-new, length-keys, keys-append, keys-put, Distinct-append,
  drop-append, drop-suc,
}

-- The keys from `head` on are the keys of the map, each once, and there are no more than the limit.
pub record Inv (q : OwnedStreamQueue) : Type 0 where
  pub head : q.head ≤ length q.order
  pub order : drop q.head q.order ≡ keys q.pending
  pub distinct : Distinct (keys q.pending)
  pub bound : length q.pending ≤ q.max

drop-next :
    {A : Type 0} (n : ℕ) (xs ys : List A) (x : A)
    → drop n xs ≡ x ∷ ys
    → (drop (n + 1) xs ≡ ys) × (n + 1 ≤ length xs)
drop-next n xs ys x h = let plus : n + 1 ≡ suc n = omega arith in rw plus (drop-suc n xs ys x h)

Distinct-moves : (p r : Pending) → p ≡ r → Distinct (keys p) → Distinct (keys r)
Distinct-moves p r e d = rw (sym e) d

compact-Inv : (q : OwnedStreamQueue) → Inv q → Inv (compact q) × ((compact q).pending ≡ q.pending)
unfolding compact
compact-Inv q i =
    split_if (ltb 1024 q.head && leb (length q.order) (q.head * 2))
      (λ t. rw t (
        record { head = omega arith; order = i.order; distinct = i.distinct; bound = i.bound },
        refl,
      ))
      λ t. rw t (i, refl)

-- What `pop` returns and leaves waiting.
abbrev pub popped : Pending → Option Event × Pending
popped [] = (none, [])
popped ((k, e) ∷ p) = (some e, p)

pop_loop-found :
    (q : OwnedStreamQueue) (key : LinkKey) (ks : List LinkKey) (e : Event)
    → find key q.pending ≡ some e
    → pop_loop (key ∷ ks) q
      ≡ (some e, compact (record q { head = q.head + 1; pending = delete key q.pending }))
unfolding pop_loop
pop_loop-found q key ks e h = rw (h, pop_loop) refl

find-first : (k : LinkKey) (x : Event) (p : Pending) → find k ((k, x) ∷ p) ≡ some x
unfolding find
find-first k x p = rw (eq_refl k) refl

delete-first : (k : LinkKey) (x : Event) (p : Pending) → delete k ((k, x) ∷ p) ≡ p
unfolding delete
delete-first k x p = rw (eq_refl k) refl

-- What `pop` leaves of the entries, with the invariant.
abbrev pub Popped : Pending → Option Event × OwnedStreamQueue → Type 0
Popped p r = (r.0 ≡ (popped p).0) × (r.1.pending ≡ (popped p).1) × Inv r.1

pop_loop-Popped :
    (q : OwnedStreamQueue) (p : Pending) → q.pending ≡ p → Inv q → Popped p (pop_loop (keys p) q)
unfolding pop_loop
pop_loop-Popped q [] e i = let (c, same) = compact-Inv q i in (refl, same ∙ e, c)
pop_loop-Popped q ((k, x) ∷ p) e i =
    let found : find k q.pending ≡ some x = rw e (find-first k x p) in
    let left : delete k q.pending ≡ p = rw e (delete-first k x p) in
    let (order, le) = drop-next q.head q.order (keys p) k (i.order ∙ ap keys e) in
    let distinct : Distinct (k ∷ keys p) = Distinct-moves q.pending ((k, x) ∷ p) e i.distinct in
    let bound : length q.pending ≡ suc (length p) = ap length e in
    let (c, same) =
      compact-Inv (record q { head = q.head + 1; pending = p })
        (record {
          head = le;
          order = order;
          distinct = distinct.1;
          bound = omega (arith, i.bound);
        }) in
    rw (pop_loop-found q k (keys p) x found, left) (refl, same, c)

-- On a queue that keeps the invariant `pop` returns the event that has waited longest and takes its
-- entry out, or returns nothing if none waits; the invariant is kept, whether or not the order is
-- compacted.
pub pop-Popped : (q : OwnedStreamQueue) → Inv q → Popped q.pending (pop q)
unfolding pop
pop-Popped q i = rw (i.order) (pop_loop-Popped q q.pending refl i)

-- What `enqueue` leaves waiting: an event of a link that waits is merged in its place, another is put
-- last unless the queue is full, and nothing is taken in without a link or behind `close`.
abbrev pub enqueued : Event → OwnedStreamQueue → EventView → Option DiscoveredLink → Pending
enqueued empty q view none = q.pending
enqueued empty q view (some l) = if q.closed then q.pending else elim (find l.key q.pending) [
  | some e ↦ put l.key (merged e view l) q.pending
  | none ↦
      if leb q.max (length q.pending)
      then q.pending
      else q.pending ++ (l.key, taken empty view l) ∷ []
]

abbrev pub Enqueued : Pending → OwnedStreamQueue → Type 0
Enqueued p q = (q.pending ≡ p) × Inv q

enqueue_new-Enqueued :
    (q : OwnedStreamQueue) (key : LinkKey) (e : Event)
    → Inv q
    → find key q.pending ≡ none
    → Enqueued
        (if leb q.max (length q.pending) then q.pending else q.pending ++ (key, e) ∷ [])
        (enqueue_new q key e)
unfolding enqueue_new
enqueue_new-Enqueued q key e i h =
    split_le q.max (length q.pending)
      (λ t _.
        rw t
          (refl, record { head = i.head; order = i.order; distinct = i.distinct; bound = i.bound }))
      λ t room.
        rw (t, put-new key e q.pending h)
          (
            refl,
            record {
              head = omega (arith, i.head, length-append q.order (key ∷ []));
              order =
                  rw
                    (
                      drop-append q.head q.order (key ∷ []) i.head,
                      i.order,
                      keys-append q.pending key e,
                    )
                    refl;
              distinct =
                  rw (keys-append q.pending key e)
                    (Distinct-append key (keys q.pending) i.distinct (find-waits key q.pending h));
              bound = omega (arith, length-append q.pending ((key, e) ∷ []));
            },
          )

-- What waits once an event of the link is there, or is not
abbrev placed : OwnedStreamQueue → LinkKey → (Event → Event) → Event → Option Event → Pending
placed q key merge new o = elim o [
  | some e ↦ put key (merge e) q.pending
  | none ↦ if leb q.max (length q.pending) then q.pending else q.pending ++ (key, new) ∷ []
]

enqueue_key-Enqueued :
    (q : OwnedStreamQueue) (empty : Event) (l : DiscoveredLink) (view : EventView)
    (o : Option Event)
    → Inv q
    → find l.key q.pending ≡ o
    → Enqueued
        (elim o [
          | some e ↦ put l.key (coalesce e view) q.pending
          | none ↦
              if leb q.max (length q.pending)
              then q.pending
              else q.pending ++ (l.key, clone_event_into empty view) ∷ []
        ])
        (enqueue_key q empty l.key view o)
unfolding enqueue_key
enqueue_key-Enqueued q empty l view none i h =
    enqueue_new-Enqueued q l.key (clone_event_into empty view) i h
enqueue_key-Enqueued q empty l view (some e) i h =
    let same = keys-put l.key (coalesce e view) e q.pending h in
    (
      refl,
      record {
        head = i.head;
        order = i.order ∙ sym same;
        distinct = rw same i.distinct;
        bound = omega (
          arith,
          length-keys (put l.key (coalesce e view) q.pending),
          length-keys q.pending,
          ap length same,
          i.bound,
        );
      },
    )

Enqueued-if :
    (c : Bool) (p p' : Pending) (q q' : OwnedStreamQueue)
    → Enqueued p q
    → Enqueued p' q'
    → Enqueued (if c then p else p') (if c then q else q')
Enqueued-if true p p' q q' f g = f
Enqueued-if false p p' q q' f g = g

enqueue-link :
    (empty : Event) (q : OwnedStreamQueue) (view : EventView) (o : Option DiscoveredLink)
    → view.link ≡ o
    → Inv q
    → Enqueued (enqueued empty q view o) (enqueue empty q view)
unfolding enqueue
enqueue-link empty q view none h i = rw (h, enqueue) (refl, i)
enqueue-link empty q view (some l) h i =
    let merges = fun_ext (λ e. coalesce-merged e view l h) in
    let takes = clone_event_into-taken empty view l h in
    rw (h, enqueue)
      (Enqueued-if q.closed q.pending _ q _ (refl, i)
        (subst
          (λ (f : Event → Event).
            Enqueued (placed q l.key f (taken empty view l) (find l.key q.pending))
              (enqueue_key q empty l.key view (find l.key q.pending)))
          merges
          (subst
            (λ (e : Event).
              Enqueued (placed q l.key (λ d. coalesce d view) e (find l.key q.pending))
                (enqueue_key q empty l.key view (find l.key q.pending)))
            takes (enqueue_key-Enqueued q empty l view (find l.key q.pending) i refl))))

-- On a queue that keeps the invariant `enqueue` merges an event of a link that waits in its place: the
-- later kind, device and link, but an added event that changes stays an added one, and the changes of
-- both. It puts another event last unless the queue is full, and takes in nothing without a link or
-- behind `close`; the invariant is kept, so no link waits twice and the limit holds.
pub enqueue-Enqueued :
    (empty : Event) (q : OwnedStreamQueue) (view : EventView)
    → Inv q
    → Enqueued (enqueued empty q view view.link) (enqueue empty q view)
enqueue-Enqueued empty q view i = enqueue-link empty q view view.link refl i
