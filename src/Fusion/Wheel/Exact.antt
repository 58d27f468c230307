-- ===== src/Fusion/Wheel/Exact.antt =====
-- An entry of the timing wheel of fusion.go fires at its tick and at no other.
use native.Mathlib.Nat.{
  mod-lt, mod-eq_of_lt, mod-eq-sub-mod, mod-add-mod, add-mod-mod, zero-div, div-eq_of_lt,
  mul-add-div_right, div-add-mod',
}
use omnidiscover.Prelude.{
  ℕ, zero, suc, ◌+◌, ◌-◌, ◌*◌, ◌/◌, ◌%◌, ◌^◌, ◌≤◌, ◌<◌, ◌≡◌, ◌≢◌, refl, sym, ap, ◌∙◌, true, false,
  ltb, leb, ◌==◌, split_if, split_lt, split_eq, arith,
}
use omnidiscover.Model.{second}
use omnidiscover.Fusion.Wheel.{
  schedule_ticks, Entry, schedule, Fate, waits, fires, advance, visit, ticks_of,
}

-- After t more ticks the entry's time has come.
record Due (n cursor : ℕ) (e : Entry) (t : ℕ) : Type 0 where
  slot : e.wheel_slot ≡ (cursor + t) % n
  round : e.wheel_round ≡ (t - 1) / n

-- Fewer than n slots further is another slot.
apart : (n c r : ℕ) → c ≤ n → 0 < r → r < n → (c + r) % n ≢ c % n
apart n c r le pos lt e =
    split_lt c n
      (λ _ inside.
        let stays : c % n ≡ c = mod-eq_of_lt inside in
        split_lt (c + r) n
          (λ _ near.
            let near' : (c + r) % n ≡ c + r = mod-eq_of_lt near in
            omega (arith, e, stays, near', pos))
          λ _ far.
            let around : (c + r) % n ≡ (c + r - n) % n = mod-eq-sub-mod far in
            let inside' : (c + r - n) % n ≡ c + r - n = mod-eq_of_lt (omega arith) in
            omega (arith, e, stays, around, inside', lt))
      λ _ at_end.
        let around : (c + r) % n ≡ (c + r - n) % n = mod-eq-sub-mod (omega arith) in
        let there : (c + r - n) % n ≡ c + r - n = mod-eq_of_lt (omega arith) in
        let self : c % n ≡ (c - n) % n = mod-eq-sub-mod at_end in
        let first : (c - n) % n ≡ c - n = mod-eq_of_lt (omega arith) in
        omega (arith, e, around, there, self, first, pos)

one_less : (p r u : ℕ) → p + r ≡ u → 0 < r → u - 1 ≡ p + (r - 1)
one_less p r u h pos = omega arith

within_round : (n q r u : ℕ) → 0 < n → q * n + r ≡ u → 0 < r → r ≤ n → (u - 1) / n ≡ q
within_round n q r u pos parts some_left le =
    ap (λ x. x / n) (one_less (q * n) r u parts some_left)
    ∙ mul-add-div_right pos q (r - 1)
    ∙ (let rest : (r - 1) / n ≡ 0 = div-eq_of_lt (omega arith) in omega arith)

-- One tick earlier is the same round, unless the round has just ended.
same_round : (n u : ℕ) → 0 < n → u % n ≢ 0 → (u - 1) / n ≡ u / n
same_round n u pos h =
    within_round n (u / n) (u % n) u pos (div-add-mod' u n) (omega (arith, h))
      (omega (arith, mod-lt u pos))

round_ended : (n q u : ℕ) → 0 < n → 0 < u → q * n + 0 ≡ u → (0 < q) × ((u - 1) / n ≡ q - 1)
round_ended n zero u pos some_ticks parts = absurd (omega arith)
round_ended n (suc q) u pos some_ticks parts =
    (omega arith, within_round n q n u pos (omega arith) pos (omega arith) ∙ omega arith)

module _ (n : ℕ) (pos : 0 < n) where
  visit-last : (cursor : ℕ) (e : Entry) → Due n cursor e 1 → visit (advance n cursor) e ≡ fires
  unfolding visit
  visit-last cursor e d =
      let here : e.wheel_slot == (cursor + 1) % n ≡ true = ground (arith, d.slot) in
      let none_left : 0 / n ≡ 0 = zero-div n in
      let last_round : ltb 0 e.wheel_round ≡ false = ground (arith, d.round) in
      rw (here, last_round) refl

  visit-early :
      (cursor u : ℕ) (e : Entry)
      → cursor < n
      → 0 < u
      → Due n cursor e (suc u)
      → (e' : Entry) × (visit (advance n cursor) e ≡ waits e') × Due n (advance n cursor) e' u
  unfolding visit
  visit-early cursor u e inside some_ticks d =
      let shifted : (cursor + suc u) % n ≡ (advance n cursor + u) % n =
        ap (λ x. x % n) (omega arith) ∙ sym (mod-add-mod (cursor + 1) n u) in
      let parts : (cursor + 1 + u % n) % n ≡ (cursor + suc u) % n =
        add-mod-mod (cursor + 1) u n ∙ ap (λ x. x % n) (omega arith) in
      let round : e.wheel_round ≡ u / n = d.round ∙ ap (λ x. x / n) (omega arith) in
      split_eq e.wheel_slot ((cursor + 1) % n)
        (λ t here.
          let ended : u % n ≡ 0 =
            split_eq (u % n) 0 (λ _ z. z)
              λ _ nz. absurd (
                apart n (cursor + 1) (u % n) (omega arith) (omega (arith, nz)) (mod-lt u pos)
                  (parts ∙ sym d.slot ∙ here)) in
          let (more, before) =
            round_ended n (u / n) u pos some_ticks
              (ap (λ x. u / n * n + x) (sym ended) ∙ div-add-mod' u n) in
          let again : ltb 0 e.wheel_round ≡ true = ground (arith, round) in
          (
            record e { wheel_round = e.wheel_round - 1 },
            rw (t, again) refl,
            record { slot = d.slot ∙ shifted; round = ap (λ x. x - 1) round ∙ sym before },
          ))
        λ t other.
          let inside_round : u % n ≢ 0 =
            λ z. other (d.slot ∙ sym parts ∙ ap (λ x. x % n) (omega (arith, z))) in
          (
            e,
            rw t refl,
            record {
              slot = d.slot ∙ shifted;
              round = round ∙ sym (same_round n u pos inside_round);
            },
          )

  step :
      (k cursor : ℕ) (e e' : Entry)
      → visit (advance n cursor) e ≡ waits e'
      → ticks_of (suc k) n cursor e ≡ ticks_of k n (advance n cursor) e'
  unfolding ticks_of
  step k cursor e e' seen =
      ap (λ (f : Fate). elim f [ waits e'' ↦ ticks_of k n (advance n cursor) e'' | fires ↦ fires ])
        seen

  -- Run from any tick that is due later.
  ticks_of-Due :
      (k cursor t : ℕ) (e : Entry)
      → cursor < n
      → Due n cursor e t
      → k < t
      → (e' : Entry) × (ticks_of k n cursor e ≡ waits e')
  unfolding ticks_of
  ticks_of-Due zero cursor t e inside d lt = (e, refl)
  ticks_of-Due (suc k) cursor zero e inside d lt = absurd (omega arith)
  ticks_of-Due (suc k) cursor (suc t) e inside d lt =
      let (e', seen, d') = visit-early cursor t e inside (omega arith) d in
      let (last, later) =
        ticks_of-Due k (advance n cursor) t e' (mod-lt (cursor + 1) pos) d' (omega arith) in
      (last, step k cursor e e' seen ∙ later)

  ticks_of-fires :
      (cursor t : ℕ) (e : Entry)
      → cursor < n
      → Due n cursor e (suc t)
      → ticks_of (suc t) n cursor e ≡ fires
  unfolding ticks_of
  ticks_of-fires cursor zero e inside d =
      ap (λ (f : Fate). elim f [ waits e'' ↦ ticks_of 0 n (advance n cursor) e'' | fires ↦ fires ])
        (visit-last cursor e d)
  ticks_of-fires cursor (suc t) e inside d =
      let (e', seen, d') = visit-early cursor (suc t) e inside (omega arith) d in
      step (suc t) cursor e e' seen
      ∙ ticks_of-fires (advance n cursor) t e' (mod-lt (cursor + 1) pos) d'

schedule_ticks-bounds :
    (d : ℕ)
    → 0 < d
    → d ≤ 2 ^ 62
    → (0 < schedule_ticks d)
      × ((schedule_ticks d - 1) * second < d)
      × (d ≤ schedule_ticks d * second)
unfolding schedule_ticks
schedule_ticks-bounds d some_time small =
    split_if (d == 0) (λ t. absurd (ground arith))
      λ t. rw t (
        split_if (leb (2 ^ 63) (d + second - 1)) (λ y. absurd (ground arith))
          λ y. rw y (omega arith, omega arith, omega arith))

pos_suc : (t : ℕ) → 0 < t → suc (t - 1) ≡ t
pos_suc t h = omega arith

-- On a wheel of any number of slots, a link or record whose time is positive and at most 2^62
-- nanoseconds away waits at every tick before its own and fires at its own: the first that is, in
-- whole seconds from now, not before its time.
pub schedule-exact :
    (n cursor d k : ℕ)
    → cursor < n
    → 0 < d
    → d ≤ 2 ^ 62
    → (k < schedule_ticks d
        → (e : Entry) × (ticks_of k n cursor (schedule n cursor (schedule_ticks d)) ≡ waits e))
      × (ticks_of (schedule_ticks d) n cursor (schedule n cursor (schedule_ticks d)) ≡ fires)
      × ((schedule_ticks d - 1) * second < d)
      × (d ≤ schedule_ticks d * second)
unfolding schedule
schedule-exact n cursor d k inside some_time small =
    let (some_ticks, before, after) = schedule_ticks-bounds d some_time small in
    let t : ℕ = schedule_ticks d in
    let pos : 0 < n = omega arith in
    let whole : suc (t - 1) ≡ t = pos_suc t some_ticks in
    let due : Due n cursor (schedule n cursor t) t = record { slot = refl; round = refl } in
    let last : ticks_of (suc (t - 1)) n cursor (schedule n cursor t) ≡ fires =
      ticks_of-fires n pos cursor (t - 1) (schedule n cursor t) inside (rw whole due) in
    (
      λ lt. ticks_of-Due n pos k cursor t (schedule n cursor t) inside due lt,
      ap (λ x. ticks_of x n cursor (schedule n cursor t)) (sym whole) ∙ last,
      before,
      after,
    )
