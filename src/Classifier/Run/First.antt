-- ===== src/Classifier/Run/First.antt =====
-- The first element of a list that has a property: of a list in order, none that has it is before.
use omnidiscover.Prelude.{
  ◌≡◌, ◌⊎◌, inl, inr, Bool, true, false, List, [], ◌∷◌, none, some, split_if, All, All-mono,
}
use omnidiscover.Go.Sort.{InOrder}
use omnidiscover.Classifier.Run.Words.{first}

module _ {ℓ} {A : Type ℓ} (m : A → Bool) where
  pub first-none : (xs : List A) → first m xs ≡ none → All (λ x. m x ≡ false) xs
  unfolding first
  first-none [] h = tt
  first-none (x ∷ xs) h =
      split_if (m x) (λ e. let bad = rw e at h in cc) λ e. (e, first-none xs (rw e at h))

  pub first-All {κ} : (P : A → Type κ) (xs : List A) {x : A} → All P xs → first m xs ≡ some x → P x
  unfolding first
  first-All P [] a h = cc
  first-All P (y ∷ ys) {x} a h =
      split_if (m y) (λ e. let here = rw e at h in let same : y ≡ x = cc in rw same at (a.0))
        λ e. first-All P ys a.1 (rw e at h)

  pub first-true : (xs : List A) {x : A} → first m xs ≡ some x → m x ≡ true
  unfolding first
  first-true [] h = cc
  first-true (y ∷ ys) {x} h =
      split_if (m y) (λ e. let here = rw e at h in let same : y ≡ x = cc in rw same at e)
        λ e. first-true ys (rw e at h)

  -- In a list in order, none that has the property is before the first.
  pub first-InOrder :
      (less : A → A → Bool) (xs : List A) {x : A}
      → InOrder less xs
      → first m xs ≡ some x
      → All (λ y. m y ≡ true → (y ≡ x) ⊎ (less y x ≡ false)) xs
  unfolding first
  first-InOrder less [] o h = tt
  first-InOrder less (y ∷ ys) {x} o h =
      split_if (m y)
        (λ e.
          let here = rw e at h in
          let same : y ≡ x = cc in
          (
            λ _. inl same,
            All-mono (λ z. less z y ≡ false) (λ z. m z ≡ true → (z ≡ x) ⊎ (less z x ≡ false))
                (λ z l _. inr (rw same at l)) ys o.0,
          ))
        λ e. (λ t. cc, first-InOrder less ys o.1 (rw e at h))
