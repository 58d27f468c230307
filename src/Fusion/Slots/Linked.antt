-- ===== src/Fusion/Slots/Linked.antt =====
-- Behind `unscheduleLink` and `scheduleLink` the table stands for the lists of the slots as before, but
-- for the entry that they move.
use mathlib.Core.Path.{fun_ext, subst}
use native.Mathlib.Nat.{mod-lt}
use omnidiscover.Prelude.{
  ℕ, ◌+◌, ◌-◌, ◌/◌, ◌%◌, ◌<◌, ◌≡◌, ◌≢◌, refl, ap, ◌∙◌, false, List, Option, none, some, ==_refl,
  split_eq, length, arith,
}
use omnidiscover.Go.{ret, ◌>>=◌, index}
use omnidiscover.Go.Ensures.{index-ret}
use omnidiscover.Fusion.Slots.{Cell, Slots, unlink_from, unschedule, schedule_entry}
use omnidiscover.Fusion.Slots.Around.{has, first_of, remove, remove-none, has-remove}
use omnidiscover.Fusion.Slots.Unlink.{Placed, IsSlots, unlink-Unlinked, unlink-IsSlots, changed}
use omnidiscover.Fusion.Slots.Push.{round_at, bind_round, pushed, push-Pushed}

-- What unscheduling leaves: the lists without the entry, and the entry without a slot.
pub record Unscheduled (w w' : Slots) (lists : ℕ → List ℕ) (i : ℕ) : Type 0 where
  pub slots : IsSlots w' (λ t. remove i (lists t))
  pub entry : Cell
  pub self : (index w'.cells i ≡ ret entry) × (entry.wheel_slot ≡ none)
  pub rounds : (j : ℕ) → round_at w' j ≡ round_at w j
  pub same_cells : length w'.cells ≡ length w.cells
  pub same_heads : length w'.heads ≡ length w.heads

module _ (w : Slots) (lists : ℕ → List ℕ) (v : IsSlots w lists) (i : ℕ) (c : Cell)
    (found : index w.cells i ≡ ret c) where
  unlink_from-Unscheduled :
      (o : Option ℕ)
      → c.wheel_slot ≡ o
      → (w' : Slots) × (unlink_from w i o ≡ ret w') × Unscheduled w w' lists i
  unfolding round_at
  unlink_from-Unscheduled none h =
      let absent : (t : ℕ) → has (lists t) i ≡ false = rw h at (v.cells i c found) in
      (
        w,
        refl,
        record {
          slots = rw (fun_ext (λ t. remove-none i (lists t) (absent t))) v;
          entry = c;
          self = (found, h);
          rounds = λ j. refl;
          same_cells = refl;
          same_heads = refl;
        },
      )
  unlink_from-Unscheduled (some s) h =
      let placed = subst (λ o. Placed lists i c o) h (v.cells i c found) in
      let (w', e, r) = unlink-Unlinked w lists v i c s found placed in
      (
        w',
        e,
        record {
          slots = unlink-IsSlots w lists v i c s found placed w' r;
          entry = record c { wheel_slot = none; wheel_prev = none; wheel_next = none };
          self = (r.self, refl);
          rounds = λ j.
              split_eq i j (λ _ same. rw (← same, r.self, found))
                λ _ apart.
                  ap (λ m. m >>= λ (x : Cell). ret x.wheel_round) (r.others j apart)
                  ∙ bind_round (index w.cells j) (changed w lists v i c s found placed j)
                      (λ x. ground arith);
          same_cells = r.same_cells;
          same_heads = r.same_heads;
        },
      )

-- On a table that stands for lists unscheduleLink returns for every entry; the table stands for the
-- lists without that entry.
pub unschedule-Unscheduled :
    (w : Slots) (lists : ℕ → List ℕ) (i : ℕ)
    → IsSlots w lists
    → i < length w.cells
    → (w' : Slots) × (unschedule w i ≡ ret w') × Unscheduled w w' lists i
unfolding unschedule
unschedule-Unscheduled w lists i v h =
    let (c, found) = index-ret w.cells i h in
    rw found (unlink_from-Unscheduled w lists v i c found c.wheel_slot refl)

-- What scheduling leaves: the entry is in front of the list of its slot, with its round, and in no
-- other list; the other entries keep their places and rounds.
pub record Scheduled (w w' : Slots) (lists : ℕ → List ℕ) (i slot round : ℕ) : Type 0 where
  pub slots : IsSlots w' (pushed (λ t. remove i (lists t)) i slot)
  pub entry : Cell
  pub self : index w'.cells i ≡ ret entry
  pub in_slot : entry.wheel_slot ≡ some slot
  pub in_round : entry.wheel_round ≡ round
  pub rounds : (j : ℕ) → i ≢ j → round_at w' j ≡ round_at w j
  pub same_cells : length w'.cells ≡ length w.cells
  pub same_heads : length w'.heads ≡ length w.heads

-- On a table that stands for the lists of at least one slot, scheduleLink returns for every entry and
-- number of ticks. The entry is then first in the list of the slot that the cursor reaches behind so
-- many ticks, with the round that is due then, and in no other list; all other entries keep the order
-- of their lists and their rounds. The links of the table fit these lists again.
pub schedule_entry-Scheduled :
    (w : Slots) (lists : ℕ → List ℕ) (cursor i ticks : ℕ)
    → IsSlots w lists
    → i < length w.cells
    → 0 < length w.heads
    → (w' : Slots) × (schedule_entry w cursor i ticks ≡ ret w')
      × Scheduled w w' lists i ((cursor + ticks) % length w.heads) ((ticks - 1) / length w.heads)
unfolding schedule_entry
schedule_entry-Scheduled w lists cursor i ticks v h pos =
    let (w1, e, u) = unschedule-Unscheduled w lists i v h in
    let slot = (cursor + ticks) % length w.heads in
    let round = (ticks - 1) / length w.heads in
    let inside : slot < length w1.heads =
      omega (arith, u.same_heads, mod-lt (cursor + ticks) pos) in
    let absent = λ (t : ℕ). has-remove i i (lists t) ∙ rw (==_refl i) in
    let (w', e', p) =
      push-Pushed w1 (λ t. remove i (lists t)) u.slots i slot absent inside u.entry u.self.0
        round in
    (
      w',
      rw (e, u.same_heads) e',
      record {
        slots = p.slots;
        entry = record u.entry {
          wheel_slot = some slot;
          wheel_round = round;
          wheel_prev = none;
          wheel_next = first_of (remove i (lists slot));
        };
        self = p.self;
        in_slot = refl;
        in_round = refl;
        rounds = λ j apart. p.rounds j apart ∙ u.rounds j;
        same_cells = p.same_cells ∙ u.same_cells;
        same_heads = p.same_heads ∙ u.same_heads;
      },
    )
