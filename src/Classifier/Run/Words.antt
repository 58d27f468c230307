-- ===== src/Classifier/Run/Words.antt =====
-- The loops of `Classify` over the words of a mask go through the rules in order.
use omnidiscover.Prelude.{
  ℕ, zero, suc, ◌+◌, ◌-◌, ◌*◌, ◌/◌, ◌%◌, ◌^◌, ◌≤◌, ◌<◌, ◌≡◌, refl, sym, ap, ◌∙◌, ◌⊎◌, inl, inr,
  Bool, true, false, ◌&&◌, List, [], ◌∷◌, Option, none, some, leb, ◌==◌, if◌then◌else◌, split_if,
  split_le, length, drop, drop-all, All, bit_and, arith,
}
use omnidiscover.Prelude.Digits.{
  clear_lowest-odd, clear_lowest-even, bit_and-le, power_step, power-le,
}
use omnidiscover.Go.{Go, ret, ◌>>=◌, index}
use omnidiscover.Go.Ensures.{All-index, index-drop}
use omnidiscover.Model.{DiscoveredDevice}
use omnidiscover.Classifier.Rule.{Regexp, CompiledRule}
use omnidiscover.Classifier.Run.{trailing_zeros, trailing_zeros64, rule_matches, word_loop}

trailing_zeros-double : (n k : ℕ) → trailing_zeros (suc n) (2 * k) ≡ suc (trailing_zeros n k)
unfolding trailing_zeros
trailing_zeros-double n k = let half : 2 * k / 2 ≡ k = omega arith in rw half (ground arith)

-- One more round sees the same if the lowest digit that is set lies below.
trailing_zeros-more : (n k : ℕ) → 0 < k → k < 2 ^ n → trailing_zeros (suc n) k ≡ trailing_zeros n k
unfolding trailing_zeros
trailing_zeros-more zero k pos lt = absurd (omega arith)
trailing_zeros-more (suc n) k pos lt =
    split_if (k % 2 == 1) (λ e. rw e)
      λ e. rw e (ap suc (trailing_zeros-more n (k / 2) (ground arith) (omega arith)))

trailing_zeros64-double :
    (k : ℕ) → 0 < k → k < 2 ^ 63 → trailing_zeros64 (2 * k) ≡ suc (trailing_zeros64 k)
unfolding trailing_zeros64
trailing_zeros64-double k pos lt =
    trailing_zeros-double 63 k ∙ ap suc (sym (trailing_zeros-more 63 k pos lt))

trailing_zeros64-odd : (k : ℕ) → trailing_zeros64 (2 * k + 1) ≡ 0
unfolding trailing_zeros64 trailing_zeros
trailing_zeros64-odd k = ground arith

parity : (c : ℕ) → (c ≡ 2 * (c / 2)) ⊎ (c ≡ 2 * (c / 2) + 1)
parity c = split_if (c % 2 == 1) (λ e. inr (ground arith)) (λ e. inl (ground arith))

module _ {ℓ} {A : Type ℓ} (m : A → Bool) where
  -- The first of a list that has the property
  unfoldable pub first : List A → Option A
  first [] = none
  first (x ∷ xs) = if m x then some x else first xs

  -- The first that has the property and whose digit is set
  unfoldable pub scan : ℕ → List A → Option A
  scan c [] = none
  scan c (x ∷ xs) = if c % 2 == 1 && m x then some x else scan (c / 2) xs

  scan-zero : (xs : List A) → scan 0 xs ≡ none
  unfolding scan
  scan-zero [] = refl
  scan-zero (x ∷ xs) = scan-zero xs

  scan-odd :
      (k : ℕ) (x : A) (xs : List A)
      → scan (2 * k + 1) (x ∷ xs) ≡ (if m x then some x else scan k xs)
  unfolding scan
  scan-odd k x xs =
      let half : (2 * k + 1) / 2 ≡ k = omega arith in
      let odd : ((2 * k + 1) % 2 == 1) ≡ true = ground arith in rw (half, odd)

  scan-even : (k : ℕ) (x : A) (xs : List A) → scan (2 * k) (x ∷ xs) ≡ scan k xs
  unfolding scan
  scan-even k x xs =
      let half : 2 * k / 2 ≡ k = omega arith in
      let even : (2 * k % 2 == 1) ≡ false = ground arith in rw (half, even)

module _ (rx : Regexp) (d : DiscoveredDevice) (available : ℕ) (rules : List CompiledRule)
    (m : CompiledRule → Bool)
    (known : All (λ r. rule_matches rx d available r ≡ ret (m r)) rules) where
  abbrev loop_from : ℕ → ℕ → ℕ → Go (Option CompiledRule)
  loop_from rounds base c = word_loop rx d rounds available rules base c

  -- A round at rule i, and what it goes on with
  abbrev round : ℕ → Go (Option CompiledRule) → Go (Option CompiledRule)
  round i rest = if leb (length rules) i then ret none else do
    r ← index rules i
    matched ← rule_matches rx d available r
    if matched then ret (some r) else rest

  loop_from-zero : (rounds base : ℕ) → loop_from (suc rounds) base 0 ≡ ret none
  unfolding word_loop
  loop_from-zero rounds base = refl

  loop_from-step :
      (rounds base c : ℕ)
      → 0 < c
      → loop_from (suc rounds) base c
        ≡ round (base + trailing_zeros64 c) (loop_from rounds base (bit_and c (c - 1)))
  unfolding word_loop
  loop_from-step rounds base c pos = let some_left : (c == 0) ≡ false = ground arith in rw some_left

  loop_from-double :
      (rounds base k : ℕ)
      → k < 2 ^ 63
      → loop_from rounds base (2 * k) ≡ loop_from rounds (suc base) k
  loop_from-double zero base k lt = unfold word_loop in refl
  loop_from-double (suc rounds) base zero lt =
      loop_from-zero rounds base ∙ sym (loop_from-zero rounds (suc base))
  loop_from-double (suc rounds) base (suc k) lt =
      let cleared = clear_lowest-even (suc k) (omega arith) in
      let place : base + trailing_zeros64 (2 * suc k) ≡ suc base + trailing_zeros64 (suc k) =
        omega (arith, trailing_zeros64-double (suc k) (omega arith) lt) in
      let less : bit_and (suc k) (suc k - 1) < 2 ^ 63 =
        omega (arith, bit_and-le (suc k) (suc k - 1)) in
      loop_from-step rounds base (2 * suc k) (omega arith)
      ∙ rw (place, cleared, loop_from-double rounds base (bit_and (suc k) (suc k - 1)) less)
          (sym (loop_from-step rounds (suc base) (suc k) (omega arith)))

  scan-drop_even :
      (xs : List CompiledRule) (base k : ℕ)
      → scan m k (drop (suc base) xs) ≡ scan m (2 * k) (drop base xs)
  scan-drop_even [] zero k = unfold scan in refl
  scan-drop_even [] (suc base) k = unfold scan in refl
  scan-drop_even (x ∷ xs) zero k = sym (scan-even m k x xs)
  scan-drop_even (x ∷ xs) (suc base) k = scan-drop_even xs base k

  round-scan :
      (base k : ℕ)
      → round base (ret (scan m k (drop (suc base) rules)))
        ≡ ret (scan m (2 * k + 1) (drop base rules))
  round-scan base k =
      split_le (length rules) base (λ e out. rw (e, drop-all rules base out) (unfold scan in refl))
        λ e inside.
          let (r, found, parts) = index-drop rules base inside in
          rw
            (
              e,
              found,
              All-index (λ r'. rule_matches rx d available r' ≡ ret (m r')) rules base known found,
              parts,
              scan-odd m k r (drop (suc base) rules),
            )
            (ground arith)

  -- With rounds for its digits the loop returns the first rule, from `base` on, that the word has.
  pub word_loop-scan :
      (n rounds base c : ℕ)
      → n ≤ 64
      → n < rounds
      → c < 2 ^ n
      → loop_from rounds base c ≡ ret (scan m c (drop base rules))
  word_loop-scan n zero base c narrow enough lt = absurd (omega arith)
  word_loop-scan zero (suc rounds) base c narrow enough lt =
      let none_left : c ≡ 0 = omega arith in
      rw none_left (loop_from-zero rounds base ∙ ap ret (sym (scan-zero m (drop base rules))))
  word_loop-scan (suc n) (suc rounds) base c narrow enough lt =
      let k_lt : c / 2 < 2 ^ n = omega (arith, power_step n) in
      let k_small : c / 2 < 2 ^ 63 = omega (arith, power-le n 63 (omega arith)) in
      elim (parity c) [
        | inl even ↦
            let ih =
              word_loop-scan n (suc rounds) (suc base) (c / 2) (omega arith) (omega arith) k_lt in
            ap (loop_from (suc rounds) base) even
            ∙ loop_from-double (suc rounds) base (c / 2) k_small
            ∙ ih
            ∙ ap ret (
                scan-drop_even rules base (c / 2) ∙ ap (λ x. scan m x (drop base rules)) (sym even))
        | inr odd ↦
            let ih = word_loop-scan n rounds (suc base) (c / 2) (omega arith) (omega arith) k_lt in
            let less : 2 * (c / 2) + 1 - 1 ≡ 2 * (c / 2) = omega arith in
            ap (loop_from (suc rounds) base) odd
            ∙ loop_from-step rounds base (2 * (c / 2) + 1) (omega arith)
            ∙ rw
                (
                  less,
                  clear_lowest-odd (c / 2),
                  trailing_zeros64-odd (c / 2),
                  loop_from-double rounds base (c / 2) k_small,
                  ih,
                )
                (ap (λ i. round i (ret (scan m (c / 2) (drop (suc base) rules)))) (omega arith)
                  ∙ round-scan base (c / 2)
                  ∙ ap (λ x. ret (scan m x (drop base rules))) (sym odd))
      ]
