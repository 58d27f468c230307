-- ===== src/Fusion/Slots/Unlink.antt =====
-- Taking an entry of the timing wheel out of its list, as a change of the lists.
use omnidiscover.Prelude.{
  ℕ, ◌<◌, ◌≡◌, ◌≢◌, refl, sym, ap, ◌∙◌, Bool, true, false, ◌&&◌, List, Option, none, some, ◌==◌,
  ==_refl, if◌then◌else◌, split_if, split_eq, length, set, length-set, arith,
}
use omnidiscover.Go.{Go, ret, panic, hang, ◌>>=◌, index}
use omnidiscover.Go.Ensures.{index-lt, write-set, index-set}
use omnidiscover.Fusion.Slots.{Cell, Slots, unlink}
use omnidiscover.Fusion.Slots.Around.{
  is_at, is_none, has, Distinct, first_of, behind, in_front, remove, remove-none, has-remove,
  Distinct-remove, behind-has, first_of-remove, behind-remove, in_front-remove, in_front-behind,
  in_front-first, behind_self,
}
use omnidiscover.Fusion.Slots.Writes.{
  with_next, with_prev, set_next-Written, set_prev-Written, reach,
}

-- What an entry of slot s has beside it
pub record InSlot (lists : ℕ → List ℕ) (i : ℕ) (c : Cell) (s : ℕ) : Type 0 where
  pub here : has (lists s) i ≡ true
  pub elsewhere : (t : ℕ) → t ≢ s → has (lists t) i ≡ false
  pub prev : c.wheel_prev ≡ in_front (lists s) i
  pub next : c.wheel_next ≡ behind (lists s) i

-- An entry without a slot is in no list.
abbrev pub Placed : (ℕ → List ℕ) → ℕ → Cell → Option ℕ → Type 0
Placed lists i c none = (t : ℕ) → has (lists t) i ≡ false
Placed lists i c (some s) = InSlot lists i c s

-- The table stands for these lists of the slots.
pub record IsSlots (w : Slots) (lists : ℕ → List ℕ) : Type 0 where
  pub heads : (s : ℕ) → s < length w.heads → index w.heads s ≡ ret (first_of (lists s))
  pub cells : (i : ℕ) (c : Cell) → index w.cells i ≡ ret c → Placed lists i c c.wheel_slot
  pub inside : (i s : ℕ) → has (lists s) i ≡ true → (i < length w.cells) × (s < length w.heads)
  pub distinct : (s : ℕ) → Distinct (lists s)

-- What `unlink` leaves of an entry c at i, in slot s
pub record Unlinked (w w' : Slots) (i : ℕ) (c : Cell) (s : ℕ) : Type 0 where
  pub others :
      (j : ℕ)
      → i ≢ j
      → index w'.cells j ≡ (
          index w.cells j >>= λ x.
          ret (with_prev c.wheel_next c.wheel_prev j (with_next c.wheel_prev c.wheel_next j x)))
  pub self :
      index w'.cells i ≡ ret (record c { wheel_slot = none; wheel_prev = none; wheel_next = none })
  pub heads :
      (t : ℕ)
      → index w'.heads t
        ≡ (if is_none c.wheel_prev && s == t then ret c.wheel_next else index w.heads t)
  pub same_cells : length w'.cells ≡ length w.cells
  pub same_heads : length w'.heads ≡ length w.heads

if_ret :
    (b : Bool) (x y : Option ℕ) → (if b && true then ret x else ret y) ≡ ret (if b then x else y)
if_ret true x y = refl
if_ret false x y = refl

pub bind_inv :
    (m : Go Cell) (f : Cell → Cell) {c : Cell}
    → (m >>= λ x. ret (f x)) ≡ ret c
    → (x : Cell) × (m ≡ ret x) × (f x ≡ c)
bind_inv (ret x) f h = (x, refl, cc)
bind_inv panic f h = cc
bind_inv hang f h = cc

bind_ret :
    (m : Go Cell) (f g : Cell → Cell)
    → (m >>= λ x. ret (g (f x))) ≡ ((m >>= λ x. ret (f x)) >>= λ x. ret (g x))
bind_ret (ret x) f g = refl
bind_ret panic f g = refl
bind_ret hang f g = refl

module _ (w : Slots) (lists : ℕ → List ℕ) (v : IsSlots w lists) (i : ℕ) (c : Cell) (s : ℕ)
    (found : index w.cells i ≡ ret c) (placed : InSlot lists i c s) where
  not_in_front : is_at c.wheel_prev i ≡ false
  not_in_front =
      ap (λ o. is_at o i) placed.prev
      ∙ in_front-behind (lists s) i i (v.distinct s) placed.here
      ∙ ground (arith, behind_self (lists s) i (v.distinct s))

  not_behind : is_at c.wheel_next i ≡ false
  not_behind = ap (λ o. is_at o i) placed.next ∙ behind_self (lists s) i (v.distinct s)

  prev_here : (p : ℕ) → is_at c.wheel_prev p ≡ true → has (lists s) p ≡ true
  prev_here p h = ground (
    arith,
    ap (λ o. is_at o p) placed.prev,
    in_front-behind (lists s) i p (v.distinct s) placed.here,
  )

  next_here : (p : ℕ) → is_at c.wheel_next p ≡ true → has (lists s) p ≡ true
  next_here p h =
      split_if (has (lists s) p) (λ e. e)
        λ e. ground (arith, ap (λ o. is_at o p) placed.next, behind-has (lists s) i p e)

  pub unlink-Unlinked : (w' : Slots) × (unlink w i s ≡ ret w') × Unlinked w w' i c s
  unfolding unlink
  unlink-Unlinked =
      let prev_reaches =
        reach c.wheel_prev (length w.cells) (λ p h. (v.inside p s (prev_here p h)).0) in
      let next_reaches =
        reach c.wheel_next (length w.cells) (λ p h. (v.inside p s (next_here p h)).0) in
      let (w1, e1, r1) =
        set_next-Written w s c.wheel_prev c.wheel_next prev_reaches (v.inside i s placed.here).1 in
      let l1 : index w1.cells i ≡ ret c = r1.cells i ∙ rw (found, not_in_front) refl in
      let (w2, e2, r2) =
        set_prev-Written w1 c.wheel_next c.wheel_prev (rw (r1.same_cells) next_reaches) in
      let l2 : index w2.cells i ≡ ret c = r2.cells i ∙ rw (l1, not_behind) refl in
      let gone = record c { wheel_slot = none; wheel_prev = none; wheel_next = none } in
      let inside = index-lt w2.cells i l2 in
      (
        record w2 { cells = set w2.cells i gone },
        rw (found, e1, l1, e2, l2, write-set w2.cells i gone inside) refl,
        record {
          others = λ j other.
              index-set w2.cells i j gone inside
              ∙ split_eq i j (λ _ same. absurd (other same))
                  (λ e _. rw e (
                    r2.cells j
                    ∙ rw (r1.cells j) (
                        sym (
                          bind_ret (index w.cells j) (with_next c.wheel_prev c.wheel_next j)
                            (with_prev c.wheel_next c.wheel_prev j)))));
          self = index-set w2.cells i i gone inside ∙ rw (==_refl i);
          heads = λ t. r2.heads t ∙ r1.heads t;
          same_cells = length-set w2.cells i gone ∙ r2.same_cells ∙ r1.same_cells;
          same_heads = r2.same_heads ∙ r1.same_heads;
        },
      )

  abbrev without : ℕ → List ℕ
  without t = remove i (lists t)

  abbrev pub changed : ℕ → Cell → Cell
  changed j x = with_prev c.wheel_next c.wheel_prev j (with_next c.wheel_prev c.wheel_next j x)

  changed-prev :
      (j : ℕ) (x : Cell)
      → (changed j x).wheel_prev ≡ (if is_at c.wheel_next j then c.wheel_prev else x.wheel_prev)
  changed-prev j x = ground arith

  changed-next :
      (j : ℕ) (x : Cell)
      → (changed j x).wheel_next ≡ (if is_at c.wheel_prev j then c.wheel_next else x.wheel_next)
  changed-next j x = ground arith

  changed-slot : (j : ℕ) (x : Cell) → (changed j x).wheel_slot ≡ x.wheel_slot
  changed-slot j x = ground arith

  module _ (j : ℕ) (apart : i ≢ j) where
    other_prev :
        (x : Cell) (u : ℕ) → InSlot lists j x u → (changed j x).wheel_prev ≡ in_front (without u) j
    other_prev x u p =
        changed-prev j x
        ∙ split_eq u s
            (λ _ same.
              let there : has (lists s) j ≡ true = rw same at (p.here) in
              let beside : is_at c.wheel_next j ≡ is_at (in_front (lists s) j) i =
                ap (λ o. is_at o j) placed.next
                ∙ sym (in_front-behind (lists s) j i (v.distinct s) there ∙ rw placed.here) in
              rw (beside, placed.prev, p.prev, same)
                (sym (in_front-remove i j (lists s) (v.distinct s) apart)))
            λ _ away.
              let absent = p.elsewhere s (λ e. away (sym e)) in
              let beside : is_at c.wheel_next j ≡ false =
                ap (λ o. is_at o j) placed.next ∙ behind-has (lists s) i j absent in
              rw (beside, p.prev, remove-none i (lists u) (placed.elsewhere u away))

    other_next :
        (x : Cell) (u : ℕ) → InSlot lists j x u → (changed j x).wheel_next ≡ behind (without u) j
    other_next x u p =
        changed-next j x
        ∙ split_eq u s
            (λ _ same.
              let there : has (lists s) j ≡ true = rw same at (p.here) in
              let beside : is_at c.wheel_prev j ≡ is_at (behind (lists s) j) i =
                ap (λ o. is_at o j) placed.prev
                ∙ in_front-behind (lists s) i j (v.distinct s) placed.here
                ∙ rw there in
              rw (beside, placed.next, p.next, same)
                (sym (behind-remove i j (lists s) (v.distinct s) apart)))
            λ _ away.
              let absent = p.elsewhere s (λ e. away (sym e)) in
              let beside : is_at c.wheel_prev j ≡ false =
                ap (λ o. is_at o j) placed.prev
                ∙ in_front-behind (lists s) i j (v.distinct s) placed.here
                ∙ rw absent in
              rw (beside, p.next, remove-none i (lists u) (placed.elsewhere u away))

    other_Placed : (x : Cell) (o : Option ℕ) → Placed lists j x o → Placed without j (changed j x) o
    other_Placed x none p = λ t. has-remove i j (lists t) ∙ rw (p t) (ground arith)
    other_Placed x (some u) p = record {
      here = has-remove i j (lists u) ∙ rw p.here (ground arith);
      elsewhere = λ t away. has-remove i j (lists t) ∙ rw (p.elsewhere t away) (ground arith);
      prev = other_prev x u p;
      next = other_next x u p;
    }

  -- Taking the entry out leaves the lists without it.
  pub unlink-IsSlots : (w' : Slots) → Unlinked w w' i c s → IsSlots w' without
  unlink-IsSlots w' r = record {
    heads = heads_of;
    cells = cells_of;
    inside = λ j t h.
        let old = v.inside j t (ground (arith, has-remove i j (lists t))) in
        (omega (arith, r.same_cells, old.0), omega (arith, r.same_heads, old.1));
    distinct = λ t. Distinct-remove i (lists t) (v.distinct t);
  }
    where
      heads_of : (t : ℕ) → t < length w'.heads → index w'.heads t ≡ ret (first_of (without t))
      heads_of t h =
          r.heads t
          ∙ rw (v.heads t (omega (arith, r.same_heads))) (
              split_eq s t
                (λ e same.
                  let beside : is_none c.wheel_prev ≡ is_at (first_of (lists s)) i =
                    ap is_none placed.prev ∙ in_front-first (lists s) i placed.here in
                  rw (e, ← same, beside, placed.next, first_of-remove i (lists s) (v.distinct s))
                    (if_ret (is_at (first_of (lists s)) i) (behind (lists s) i)
                      (first_of (lists s))))
                λ e away.
                  rw (e, remove-none i (lists t) (placed.elsewhere t (λ q. away (sym q))))
                    (ground arith))

      cells_of : (j : ℕ) (c' : Cell) → index w'.cells j ≡ ret c' → Placed without j c' c'.wheel_slot
      cells_of j c' h =
          split_eq i j
            (λ e same.
              let gone : c' ≡ record c { wheel_slot = none; wheel_prev = none; wheel_next = none } =
                cc (r.self) in
              rw gone (λ t. has-remove i j (lists t) ∙ rw e))
            λ e apart.
              let (x, was, now) =
                bind_inv (index w.cells j) (changed j) (sym (r.others j apart) ∙ h) in
              rw (← now, changed-slot j x) (other_Placed j apart x x.wheel_slot (v.cells j x was))
