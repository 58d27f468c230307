-- ===== src/Prelude/Tests.antt =====
-- Boolean tests on the native numbers, the conditional, and case lemmas.
use Prim.Native.Nat.{ℕ, ◌≤◌, ◌<◌, compare, Ordering}
use mathlib.Core.Path.{◌≡◌, refl}
use mathlib.Core.Logic.{◌↔◌, ◌≢◌, ◌⊎◌, inl, inr}
use mathlib.Core.Bool.{Bool, true, false}
use mathlib.Core.Option.{Option, none, some}
use native.Mathlib.Omega.{arith}

abbrev pub ltb : ℕ → ℕ → Bool
ltb a b = elim (compare a b) [ Ordering.lt ↦ true | _ ↦ false ]

abbrev pub leb : ℕ → ℕ → Bool
leb a b = elim (compare a b) [ Ordering.gt ↦ false | _ ↦ true ]

infix 50 ◌==◌
abbrev pub ◌==◌ : ℕ → ℕ → Bool
a == b = elim (compare a b) [ Ordering.eq ↦ true | _ ↦ false ]

infix 1 if◌then◌else◌
abbrev pub if◌then◌else◌ {ℓ} : {A : Type ℓ} → Bool → A → A → A
if true then x else y = x
if false then x else y = y

pub ltb→lt : (a b : ℕ) → ltb a b ≡ true → a < b
ltb→lt a b h = ground arith

pub lt→ltb : (a b : ℕ) → a < b → ltb a b ≡ true
lt→ltb a b h = ground arith

pub leb→le : (a b : ℕ) → leb a b ≡ true → a ≤ b
leb→le a b h = ground arith

pub le→leb : (a b : ℕ) → a ≤ b → leb a b ≡ true
le→leb a b h = ground arith

pub leb→lt : (a b : ℕ) → leb a b ≡ false → b < a
leb→lt a b h = ground arith

pub ltb→le : (a b : ℕ) → ltb a b ≡ false → b ≤ a
ltb→le a b h = ground arith

pub ==_iff : (a b : ℕ) → ((a == b) ≡ true) ↔ (a ≡ b)
==_iff a b = ground arith

pub ==_refl : (a : ℕ) → (a == a) ≡ true
==_refl a = ground arith

pub Bool-cases : (b : Bool) → (b ≡ true) ⊎ (b ≡ false)
Bool-cases true = inl refl
Bool-cases false = inr refl

pub Option-cases {ℓ} : {A : Type ℓ} (o : Option A) → (o ≡ none) ⊎ ((a : A) × (o ≡ some a))
Option-cases none = inl refl
Option-cases (some a) = inr (a, refl)

-- Splits on a test, which hand each branch the equation to rewrite by and what it says.
module _ {ℓ} {C : Type ℓ} where
  pub split_if : (t : Bool) → (t ≡ true → C) → (t ≡ false → C) → C
  split_if true p q = p refl
  split_if false p q = q refl

  pub split_lt : (a b : ℕ) → (ltb a b ≡ true → a < b → C) → (ltb a b ≡ false → b ≤ a → C) → C
  split_lt a b p q = split_if (ltb a b) (λ e. p e (ltb→lt a b e)) (λ e. q e (ltb→le a b e))

  pub split_le : (a b : ℕ) → (leb a b ≡ true → a ≤ b → C) → (leb a b ≡ false → b < a → C) → C
  split_le a b p q = split_if (leb a b) (λ e. p e (leb→le a b e)) (λ e. q e (leb→lt a b e))

  pub split_eq : (a b : ℕ) → ((a == b) ≡ true → a ≡ b → C) → ((a == b) ≡ false → a ≢ b → C) → C
  split_eq a b p q =
      split_if (a == b) (λ e. p e ((==_iff a b).0 e)) (λ e. q e (λ h. cc ((==_iff a b).1 h)))
