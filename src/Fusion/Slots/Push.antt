-- ===== src/Fusion/Slots/Push.antt =====
-- Putting an entry of the timing wheel in front of the list of a slot.
use omnidiscover.Prelude.{
  ℕ, ◌<◌, ◌≡◌, ◌≢◌, refl, sym, ap, ◌∙◌, true, false, List, [], ◌∷◌, Option, none, some, ◌==◌,
  ==_refl, ==_iff, if◌then◌else◌, split_if, split_eq, length, set, length-set, arith,
}
use omnidiscover.Go.{Go, ret, panic, hang, ◌>>=◌, index}
use omnidiscover.Go.Ensures.{index-lt, write-set, index-set}
use omnidiscover.Fusion.Slots.{Cell, Slots, push_entry}
use omnidiscover.Fusion.Slots.Around.{
  is_at, has, first_of, behind, in_front, in_front-cons, is_at-first_of,
}
use omnidiscover.Fusion.Slots.Unlink.{InSlot, Placed, IsSlots, bind_inv}
use omnidiscover.Fusion.Slots.Writes.{Written, with_prev, set_prev-Written, reach}

-- The round of an entry, which only the entry's own scheduling changes
unfoldable pub round_at : Slots → ℕ → Go ℕ
round_at w j = index w.cells j >>= λ c. ret c.wheel_round

pub bind_round :
    (m : Go Cell) (f : Cell → Cell)
    → ((x : Cell) → (f x).wheel_round ≡ x.wheel_round)
    → ((m >>= λ x. ret (f x)) >>= λ c. ret c.wheel_round) ≡ (m >>= λ c. ret c.wheel_round)
bind_round (ret x) f h = ap ret (h x)
bind_round panic f h = refl
bind_round hang f h = refl

first_has : (xs : List ℕ) (p : ℕ) → is_at (first_of xs) p ≡ true → has xs p ≡ true
unfolding has
first_has [] p h = cc
first_has (x ∷ xs) p h = ground arith

-- The entry in front of the list of a slot
abbrev pub pushed : (ℕ → List ℕ) → ℕ → ℕ → ℕ → List ℕ
pushed lists i slot t = if slot == t then i ∷ lists t else lists t

module _ (w : Slots) (lists : ℕ → List ℕ) (v : IsSlots w lists) (i : ℕ) (slot : ℕ)
    (fresh : (t : ℕ) → has (lists t) i ≡ false) (inside : slot < length w.heads) (l : Cell)
    (found : index w.cells i ≡ ret l) (round : ℕ) where
  abbrev placed_cell : Cell
  placed_cell = record l {
    wheel_slot = some slot;
    wheel_round = round;
    wheel_prev = none;
    wheel_next = first_of (lists slot);
  }

  has-pushed : (t j : ℕ) → i ≢ j → has (pushed lists i slot t) j ≡ has (lists t) j
  unfolding has
  has-pushed t j apart =
      let other : (i == j) ≡ false = ground arith in
      split_if (slot == t) (λ e. rw (e, other)) λ e. rw e

  has-pushed_self : (t : ℕ) → has (pushed lists i slot t) i ≡ (slot == t)
  unfolding has
  has-pushed_self t = split_if (slot == t) (λ e. rw (e, ==_refl i)) λ e. rw e (fresh t)

  self_InSlot : InSlot (pushed lists i slot) i placed_cell slot
  unfolding in_front behind
  self_InSlot = record {
    here = has-pushed_self slot ∙ ==_refl slot;
    elsewhere = λ t away. has-pushed_self t ∙ ground arith;
    prev = rw (==_refl slot, ==_refl i);
    next = rw (==_refl slot, ==_refl i);
  }

  abbrev beside : ℕ → Cell → Cell
  beside = with_prev (first_of (lists slot)) (some i)

  beside-slot : (j : ℕ) (x : Cell) → (beside j x).wheel_slot ≡ x.wheel_slot
  beside-slot j x = ground arith

  beside-round : (j : ℕ) (x : Cell) → (beside j x).wheel_round ≡ x.wheel_round
  beside-round j x = ground arith

  beside-next : (j : ℕ) (x : Cell) → (beside j x).wheel_next ≡ x.wheel_next
  beside-next j x = ground arith

  beside-prev :
      (j : ℕ) (x : Cell)
      → (beside j x).wheel_prev ≡ (if is_at (first_of (lists slot)) j then some i else x.wheel_prev)
  beside-prev j x = ground arith

  other_prev :
      (j : ℕ) (x : Cell) (u : ℕ)
      → i ≢ j
      → InSlot lists j x u
      → (beside j x).wheel_prev ≡ in_front (pushed lists i slot u) j
  other_prev j x u apart p =
      beside-prev j x
      ∙ split_eq slot u
          (λ e same. rw (e, p.prev, same) (sym (in_front-cons i j (lists u) apart p.here)))
          λ e away. rw (e, is_at-first_of (lists slot) j (p.elsewhere slot away), p.prev)

  other_next :
      (j : ℕ) (x : Cell) (u : ℕ)
      → i ≢ j
      → InSlot lists j x u
      → (beside j x).wheel_next ≡ behind (pushed lists i slot u) j
  unfolding behind
  other_next j x u apart p =
      let other : (i == j) ≡ false = ground arith in
      beside-next j x ∙ split_eq slot u (λ e same. rw (e, other, p.next)) λ e away. rw (e, p.next)

  other_Placed :
      (j : ℕ) (x : Cell) (o : Option ℕ)
      → i ≢ j
      → Placed lists j x o
      → Placed (pushed lists i slot) j (beside j x) o
  other_Placed j x none apart p = λ t. has-pushed t j apart ∙ p t
  other_Placed j x (some u) apart p = record {
    here = has-pushed u j apart ∙ p.here;
    elsewhere = λ t away. has-pushed t j apart ∙ p.elsewhere t away;
    prev = other_prev j x u apart p;
    next = other_next j x u apart p;
  }

  -- What putting the entry in front leaves
  pub record Pushed (w' : Slots) : Type 0 where
    pub slots : IsSlots w' (pushed lists i slot)
    pub self : index w'.cells i ≡ ret placed_cell
    pub rounds : (j : ℕ) → i ≢ j → round_at w' j ≡ round_at w j
    pub same_cells : length w'.cells ≡ length w.cells
    pub same_heads : length w'.heads ≡ length w.heads

  abbrev with_cell : Slots
  with_cell = record w { cells = set w.cells i placed_cell }

  pushed_heads :
      (t : ℕ)
      → t < length w.heads
      → (if slot == t then ret (some i) else index w.heads t)
        ≡ ret (first_of (pushed lists i slot t))
  pushed_heads t h = split_eq slot t (λ e same. rw e) λ e away. rw (e, v.heads t h)

  self_of :
      (w' : Slots) → Written with_cell w' beside 0 false none → index w'.cells i ≡ ret placed_cell
  self_of w' r =
      r.cells i
      ∙ rw (
        index-set w.cells i i placed_cell (index-lt w.cells i found),
        ==_refl i,
        is_at-first_of (lists slot) i (fresh slot),
      )

  pushed-IsSlots :
      (w' : Slots)
      → Written with_cell w' beside 0 false none
      → IsSlots (record w' { heads = set w'.heads slot (some i) }) (pushed lists i slot)
  pushed-IsSlots w' r = record {
    heads = λ t h.
        index-set w'.heads slot t (some i) (omega (arith, r.same_heads))
        ∙ rw (r.heads t)
            (pushed_heads t (omega (arith, r.same_heads, length-set w'.heads slot (some i))));
    cells = cells_of;
    inside = inside_of;
    distinct =
        λ t. split_if (slot == t) (λ e. rw e (fresh t, v.distinct t)) λ e. rw e (v.distinct t);
  }
    where
      size : length w'.cells ≡ length w.cells
      size = r.same_cells ∙ length-set w.cells i placed_cell

      heads_size : length (set w'.heads slot (some i)) ≡ length w.heads
      heads_size = length-set w'.heads slot (some i) ∙ r.same_heads

      here : i < length w.cells
      here = index-lt w.cells i found

      inside_of :
          (j t : ℕ)
          → has (pushed lists i slot t) j ≡ true
          → (j < length w'.cells) × (t < length (set w'.heads slot (some i)))
      inside_of j t h =
          split_eq i j
            (λ e same.
              let place : slot ≡ t =
                (==_iff slot t).0 (sym (has-pushed_self t) ∙ rw (← same) at h) in
              (omega (arith, size, here, same), omega (arith, heads_size, inside, place)))
            λ e apart.
              let old = v.inside j t (sym (has-pushed t j apart) ∙ h) in
              (omega (arith, size, old.0), omega (arith, heads_size, old.1))

      cells_of :
          (j : ℕ) (c' : Cell)
          → index w'.cells j ≡ ret c'
          → Placed (pushed lists i slot) j c' c'.wheel_slot
      cells_of j c' h =
          let before = sym (r.cells j) ∙ h in
          let (x, was, now) = bind_inv (index (set w.cells i placed_cell) j) (beside j) before in
          let read = sym (index-set w.cells i j placed_cell here) ∙ was in
          split_eq i j
            (λ _ same.
              let placed : c' ≡ placed_cell = cc (self_of w' r, rw (← same) at h) in
              rw (← same, placed) self_InSlot)
            λ e apart.
              let old : index w.cells j ≡ ret x = rw e at read in
              rw (← now, beside-slot j x) (other_Placed j x x.wheel_slot apart (v.cells j x old))

  others_of :
      (w' : Slots) (j : ℕ)
      → Written with_cell w' beside 0 false none
      → i ≢ j
      → round_at w' j ≡ round_at w j
  unfolding round_at
  others_of w' j r apart =
      let other : (i == j) ≡ false = ground arith in
      let read = index-set w.cells i j placed_cell (index-lt w.cells i found) ∙ rw other in
      rw (r.cells j, read) (bind_round (index w.cells j) (beside j) (beside-round j))

  -- The writes of `scheduleLink` behind its reads
  pub push-Pushed : (w' : Slots) × (push_entry w i slot round ≡ ret w') × Pushed w'
  unfolding push_entry round_at
  push-Pushed =
      let reaches =
        reach (first_of (lists slot)) (length w.cells)
          (λ p h. (v.inside p slot (first_has (lists slot) p h)).0) in
      let (w2, e, r) =
        set_prev-Written (record w { cells = set w.cells i placed_cell }) (first_of (lists slot))
          (some i) (rw (length-set w.cells i placed_cell) reaches) in
      let room : slot < length w2.heads = omega (arith, r.same_heads, inside) in
      (
        record w2 { heads = set w2.heads slot (some i) },
        rw
            (
              found,
              v.heads slot inside,
              write-set w.cells i placed_cell (index-lt w.cells i found),
              e,
              write-set w2.heads slot (some i) room,
            )
            refl,
        record {
          slots = pushed-IsSlots w2 r;
          self = self_of w2 r;
          rounds = λ j apart. others_of w2 j r apart;
          same_cells = r.same_cells ∙ length-set w.cells i placed_cell;
          same_heads = length-set w2.heads slot (some i) ∙ r.same_heads;
        },
      )
