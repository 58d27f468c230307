-- ===== src/Cdp/Checksum/Sum.antt =====
-- What the checksum of cdp.go says of the sum of the words.
use omnidiscover.Prelude.{
  ℕ, ◌+◌, ◌*◌, ◌/◌, ◌%◌, ◌^◌, ◌≤◌, ◌<◌, ◌≡◌, ◌↔◌, [], ◌∷◌, arith, split_eq, length, Bytes, All,
  IsByte,
}
use omnidiscover.Go.{loop}
use omnidiscover.Go.Ensures.{Ensures, ensures, Ensures-bind}
use omnidiscover.Cdp.Checksum.{sum_words, fold_carries, checksum16}

-- The sum of the words, which wraps nowhere.
abbrev pub total : Bytes → ℕ
total [] = 0
total (x ∷ []) = x * 256
total (x ∷ y ∷ b) = x * 256 + y + total b

-- A packet has no more than 65535 bytes, so the `uint32` does not wrap.
total-le : (b : Bytes) → All IsByte b → total b ≤ 65535 * (length b + 1)
total-le [] a = omega arith
total-le (x ∷ []) a = omega arith
total-le (x ∷ y ∷ b) a = omega (arith, total-le b a.1.1)

sum_words-total :
    (b : Bytes) (sum : ℕ)
    → All IsByte b
    → sum + 65535 * (length b + 1) < 2 ^ 32
    → sum_words sum b ≡ sum + total b
unfolding sum_words
sum_words-total [] sum a h = omega arith
sum_words-total (x ∷ []) sum a h = omega arith
sum_words-total (x ∷ y ∷ b) sum a h =
    omega (arith, sum_words-total b ((sum + (x * 256 + y)) % 2 ^ 32) a.1.1 (omega arith))

-- A folded sum.
abbrev Folds : ℕ → ℕ → Type 0
Folds s c = (c < 65536) × (c % 65535 ≡ s % 65535) × ((c ≡ 0) ↔ (s ≡ 0))

fold_carries-Folds : (s : ℕ) → s < 2 ^ 32 → Ensures (Folds s) (fold_carries s)
unfolding fold_carries loop
fold_carries-Folds s h =
    split_eq (s / 65536) 0 (λ e z. rw e (ensures (omega arith)))
      λ e _. rw e (
        let s1 = s % 65536 + s / 65536 in
        split_eq (s1 / 65536) 0 (λ e1 z. rw e1 (ensures (omega arith)))
          λ e1 _. rw e1 (
            let s2 = s1 % 65536 + s1 / 65536 in
            split_eq (s2 / 65536) 0 (λ e2 z. rw e2 (ensures (omega arith)))
              λ e2 big. absurd (omega arith)))

-- On a packet of at most 65535 bytes `checksum16` returns. Its result is the sum of the words
-- modulo 65535, as a number below 65536 that is 0 exactly if every word is.
pub checksum16-total :
    (b : Bytes)
    → All IsByte b
    → length b ≤ 65535
    → Ensures
        (λ (c : ℕ). (c < 65536) × (c % 65535 ≡ total b % 65535) × ((c ≡ 0) ↔ (total b ≡ 0)))
        (checksum16 b)
unfolding checksum16
checksum16-total b a h =
    let e = sum_words-total b 0 a (omega arith) in
    Ensures-bind (fold_carries-Folds (sum_words 0 b) (omega (arith, total-le b a)))
      λ c f. ensures (omega arith)
