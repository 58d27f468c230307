-- ===== src/Prelude/Digits.antt =====
-- The binary digits of a word, and what the operations of Go on bits do to each of them.
use Prim.Native.Nat.{
  ℕ, zero, suc, ◌+◌, ◌-◌, ◌*◌, ◌/◌, ◌%◌, ◌^◌, ◌≤◌, ◌<◌, min, max, digits, bit_and, bit_or,
  bit_and-bitwise, bit_or-bitwise,
}
use mathlib.Core.Path.{◌≡◌, refl, sym, ap, ◌∙◌}
use mathlib.Core.Bool.{Bool, false, ◌&&◌, ◌||◌}
use native.Mathlib.Omega.{arith}
use omnidiscover.Prelude.Tests.{◌==◌}

-- Whether digit j of a word is set.
unfoldable pub test_bit : ℕ → ℕ → Bool
test_bit zero a = a % 2 == 1
test_bit (suc j) a = test_bit j (a / 2)

pub test_bit-zero : (j : ℕ) → test_bit j 0 ≡ false
unfolding test_bit
test_bit-zero zero = refl
test_bit-zero (suc j) = test_bit-zero j

pub test_bit-suc : (j a : ℕ) → test_bit (suc j) a ≡ test_bit j (a / 2)
unfolding test_bit
test_bit-suc j a = refl

-- A digit below another number, and the digits above it.
lowest : (x d : ℕ) → d < 2 → (test_bit 0 (x * 2 + d) ≡ (d == 1))
unfolding test_bit
lowest x d h = ground arith

above : (j x d : ℕ) → d < 2 → test_bit (suc j) (x * 2 + d) ≡ test_bit j x
unfolding test_bit
above j x d h = ap (test_bit j) (omega arith)

min_digit : (a b : ℕ) → min (a % 2) (b % 2) < 2
min_digit a b = omega arith

max_digit : (a b : ℕ) → max (a % 2) (b % 2) < 2
max_digit a b = omega arith

and_lowest : (a b : ℕ) → (min (a % 2) (b % 2) == 1) ≡ (test_bit 0 a && test_bit 0 b)
unfolding test_bit
and_lowest a b = ground arith

or_lowest : (a b : ℕ) → (max (a % 2) (b % 2) == 1) ≡ (test_bit 0 a || test_bit 0 b)
unfolding test_bit
or_lowest a b = ground arith

and_digits :
    (n j a b : ℕ)
    → a ≤ n
    → test_bit j (digits (λ _. zero) min n a b) ≡ (test_bit j a && test_bit j b)
and_digits zero j zero b h = rw (test_bit-zero j)
and_digits zero j (suc a) b h = absurd (omega arith)
and_digits (suc n) j zero b h = rw (test_bit-zero j)
and_digits (suc n) zero (suc a) b h = lowest _ _ (min_digit (suc a) b) ∙ and_lowest (suc a) b
and_digits (suc n) (suc j) (suc a) b h =
    above j _ _ (min_digit (suc a) b)
    ∙ rw (test_bit-suc j (suc a), test_bit-suc j b)
        (and_digits n j (suc a / 2) (b / 2) (omega arith))

or_digits :
    (n j a b : ℕ) → a ≤ n → test_bit j (digits (λ b. b) max n a b) ≡ (test_bit j a || test_bit j b)
or_digits zero j zero b h = rw (test_bit-zero j)
or_digits zero j (suc a) b h = absurd (omega arith)
or_digits (suc n) j zero b h = rw (test_bit-zero j)
or_digits (suc n) zero (suc a) b h = lowest _ _ (max_digit (suc a) b) ∙ or_lowest (suc a) b
or_digits (suc n) (suc j) (suc a) b h =
    above j _ _ (max_digit (suc a) b)
    ∙ rw (test_bit-suc j (suc a), test_bit-suc j b)
        (or_digits n j (suc a / 2) (b / 2) (omega arith))

pub test_bit-and : (j a b : ℕ) → test_bit j (bit_and a b) ≡ (test_bit j a && test_bit j b)
test_bit-and j a b = ap (test_bit j) (bit_and-bitwise a b) ∙ and_digits a j a b (omega arith)

pub test_bit-or : (j a b : ℕ) → test_bit j (bit_or a b) ≡ (test_bit j a || test_bit j b)
test_bit-or j a b = ap (test_bit j) (bit_or-bitwise a b) ∙ or_digits a j a b (omega arith)

pub power_step : (k : ℕ) → 2 ^ suc k ≡ 2 ^ k * 2
power_step k = omega arith

pub test_bit-power : (j k : ℕ) → test_bit j (2 ^ k) ≡ (j == k)
unfolding test_bit
test_bit-power zero zero = refl
test_bit-power (suc j) zero = test_bit-zero j ∙ ground arith
test_bit-power zero (suc k) = rw (power_step k) (ground arith)
test_bit-power (suc j) (suc k) =
    let half : 2 ^ suc k / 2 ≡ 2 ^ k = omega (arith, power_step k) in
    ap (test_bit j) half ∙ test_bit-power j k ∙ ground arith

-- Words with the same digits are the same.
pub eq_of_bits : (n a b : ℕ) → a ≤ n → b ≤ n → ((j : ℕ) → test_bit j a ≡ test_bit j b) → a ≡ b
unfolding test_bit
eq_of_bits zero a b p q h = omega arith
eq_of_bits (suc n) a b p q h =
    let low : a % 2 ≡ b % 2 = ground (arith, h 0) in
    omega (arith, eq_of_bits n (a / 2) (b / 2) (omega arith) (omega arith) (λ j. h (suc j)))

and_digits-le : (n a b : ℕ) → a ≤ n → digits (λ _. zero) min n a b ≤ a
and_digits-le zero a b h = omega arith
and_digits-le (suc n) zero b h = omega arith
and_digits-le (suc n) (suc a) b h = omega (arith, and_digits-le n (suc a / 2) (b / 2) (omega arith))

pub bit_and-le : (a b : ℕ) → bit_and a b ≤ a
bit_and-le a b = omega (arith, bit_and-bitwise a b, and_digits-le a a b (omega arith))

double_bit : (j a : ℕ) → test_bit (suc j) (2 * a) ≡ test_bit j a
double_bit j a = test_bit-suc j (2 * a) ∙ ap (test_bit j) (omega arith)

even_low : (k : ℕ) → test_bit 0 (2 * k) ≡ false
unfolding test_bit
even_low k = ground arith

even_left : (k : ℕ) (b : Bool) → (test_bit 0 (2 * k) && b) ≡ false
even_left k b = rw (even_low k)

even_bit : (b : Bool) (k : ℕ) → (b && test_bit 0 (2 * k)) ≡ test_bit 0 (2 * k)
even_bit b k = rw (even_low k) (ground arith)

and_self : (b : Bool) → (b && b) ≡ b
and_self b = ground arith

-- `c & (c-1)` clears the lowest digit that is set.
pub clear_lowest-odd : (k : ℕ) → bit_and (2 * k + 1) (2 * k) ≡ 2 * k
clear_lowest-odd k = eq_of_bits (2 * k + 1) _ _ (bit_and-le (2 * k + 1) (2 * k)) (omega arith) same
  where
    half : (2 * k + 1) / 2 ≡ k
    half = omega arith

    same : (j : ℕ) → test_bit j (bit_and (2 * k + 1) (2 * k)) ≡ test_bit j (2 * k)
    same zero = test_bit-and 0 (2 * k + 1) (2 * k) ∙ even_bit (test_bit 0 (2 * k + 1)) k
    same (suc j) =
        test_bit-and (suc j) (2 * k + 1) (2 * k)
        ∙ rw (double_bit j k, test_bit-suc j (2 * k + 1), half) (and_self (test_bit j k))

pub clear_lowest-even : (k : ℕ) → 0 < k → bit_and (2 * k) (2 * k - 1) ≡ 2 * bit_and k (k - 1)
clear_lowest-even k pos =
    eq_of_bits (2 * k) _ _ (bit_and-le (2 * k) (2 * k - 1)) (omega (arith, bit_and-le k (k - 1)))
      same
  where
    half : (2 * k - 1) / 2 ≡ k - 1
    half = omega arith

    same : (j : ℕ) → test_bit j (bit_and (2 * k) (2 * k - 1)) ≡ test_bit j (2 * bit_and k (k - 1))
    same zero =
        test_bit-and 0 (2 * k) (2 * k - 1)
        ∙ even_left k (test_bit 0 (2 * k - 1))
        ∙ sym (even_low (bit_and k (k - 1)))
    same (suc j) =
        test_bit-and (suc j) (2 * k) (2 * k - 1)
        ∙ rw (double_bit j k, test_bit-suc j (2 * k - 1), half, double_bit j (bit_and k (k - 1)))
            (sym (test_bit-and j k (k - 1)))

-- Without digits from n on a word is below 2^n.
pub lt_of_bits : (n a : ℕ) → ((j : ℕ) → n ≤ j → test_bit j a ≡ false) → a < 2 ^ n
lt_of_bits zero a h = omega (
  arith,
  eq_of_bits a a 0 (omega arith) (omega arith) (λ j. h j (omega arith) ∙ sym (test_bit-zero j)),
)
lt_of_bits (suc n) a h = omega (
  arith,
  power_step n,
  lt_of_bits n (a / 2) (λ j le. sym (test_bit-suc j a) ∙ h (suc j) (omega arith)),
)

pub power-le : (n m : ℕ) → n ≤ m → 2 ^ n ≤ 2 ^ m
power-le zero zero h = omega arith
power-le zero (suc m) h = omega (arith, power_step m, power-le zero m (omega arith))
power-le (suc n) zero h = elim h [ ]
power-le (suc n) (suc m) h = omega (arith, power_step n, power_step m, power-le n m (omega arith))

and_digits-le_right : (n a b : ℕ) → digits (λ _. zero) min n a b ≤ b
and_digits-le_right zero a b = omega arith
and_digits-le_right (suc n) zero b = omega arith
and_digits-le_right (suc n) (suc a) b = omega (arith, and_digits-le_right n (suc a / 2) (b / 2))

pub bit_and-le_right : (a b : ℕ) → bit_and a b ≤ b
bit_and-le_right a b = omega (arith, bit_and-bitwise a b, and_digits-le_right a a b)
