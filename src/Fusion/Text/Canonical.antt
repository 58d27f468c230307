-- ===== src/Fusion/Text/Canonical.antt =====
-- `selectCanonical` of fusion.go.
use omnidiscover.Prelude.{
  ℕ, zero, suc, ◌+◌, ◌%◌, ◌≤◌, ◌<◌, ◌≡◌, ◌⊎◌, inl, inr, refl, ◌∙◌, List, ◌==◌, split_if, split_lt,
  split_le, split_eq, length, arith,
}
use omnidiscover.Model.{TextValue, TextField}
use omnidiscover.Fusion.Text.{rank_at, select_best, select_canonical}

-- An index in range whose value no other outranks.
pub record Best (values : List TextValue) (i : ℕ) : Type 0 where
  pub inside : i < length values
  pub highest : (j : ℕ) → j < length values → rank_at values j ≤ rank_at values i

-- The winner stays unless another outranks it.
abbrev pub Stable : List TextValue → ℕ → ℕ → Type 0
Stable values old i = (i ≡ old) ⊎ (rank_at values old < rank_at values i)

Stable-trans :
    (values : List TextValue) (a b c : ℕ)
    → rank_at values a ≤ rank_at values b
    → (b ≡ a) ⊎ (rank_at values a < rank_at values b)
    → Stable values b c
    → Stable values a c
Stable-trans values a b c le (inl e) (inl e') = inl (e' ∙ e)
Stable-trans values a b c le (inl e) (inr lt) = inr (omega arith)
Stable-trans values a b c le (inr lt) (inl e) = inr (rw e lt)
Stable-trans values a b c le (inr lt) (inr lt') = inr (omega arith)

below_next : (P : ℕ → Type 0) (i : ℕ) → ((j : ℕ) → j < i → P j) → P i → (j : ℕ) → j < i + 1 → P j
below_next P i f p j lt = split_eq j i (λ _ e. rw e p) λ _ other. f j (omega arith)

module _ (values : List TextValue) where
  select_best-Best :
      (left i best : ℕ)
      → i + left ≡ length values
      → best < length values
      → ((j : ℕ) → j < i → rank_at values j ≤ rank_at values best)
      → Best values (select_best values left i best)
        × Stable values best (select_best values left i best)
  unfolding select_best
  select_best-Best zero i best e inside high =
      (record { inside = inside; highest = λ j lt. high j (omega arith) }, inl refl)
  select_best-Best (suc left) i best e inside high =
      split_lt (rank_at values best) (rank_at values i)
        (λ t less. rw t (
          let (b, s) = select_best-Best left (i + 1) i (omega arith) (omega arith) (
            below_next (λ j. rank_at values j ≤ rank_at values i) i
              (λ j lt. omega (arith, less, high j lt)) (omega arith)) in
          (b, Stable-trans values best i _ (omega arith) (inr less) s)))
        λ t more. rw t (
          select_best-Best left (i + 1) best (omega arith) inside
            (below_next (λ j. rank_at values j ≤ rank_at values best) i high more))

-- What `selectCanonical` leaves: the values as they were, the highest rank in front, and the old
-- winner unless another outranks it.
pub record Selected (old : ℕ) (values : List TextValue) (f : TextField) : Type 0 where
  pub same : f.values ≡ values
  pub best : Best values f.canonical
  pub stable : old < length values → Stable values old f.canonical

pub select_canonical-Selected :
    (f : TextField)
    → 0 < length f.values
    → length f.values ≤ 256
    → Selected f.canonical f.values (select_canonical f)
unfolding select_canonical
select_canonical-Selected f some_values few =
    split_if (length f.values == 0) (λ t. absurd (ground arith))
      λ t. rw t (
        split_le (length f.values) f.canonical
          (λ e h. rw e (
            let (b, s) =
              select_best-Best f.values (length f.values) 0 0 (omega arith) some_values
                (λ j lt. absurd (omega arith)) in
            let small : select_best f.values (length f.values) 0 0 % 256
                ≡ select_best f.values (length f.values) 0 0 =
              omega (arith, b.inside) in
            rw small (record { same = refl; best = b; stable = λ lt. absurd (omega arith) })))
          λ e h. rw e (
            let (b, s) =
              select_best-Best f.values (length f.values) 0 f.canonical (omega arith) h
                (λ j lt. absurd (omega arith)) in
            let small : select_best f.values (length f.values) 0 f.canonical % 256
                ≡ select_best f.values (length f.values) 0 f.canonical =
              omega (arith, b.inside) in
            rw small (record { same = refl; best = b; stable = λ _. s })))
