-- ===== src/Fusion/Times/Expiry.antt =====
-- What `earliestExpiry` and `latestExpiry` of fusion.go find.
use omnidiscover.Prelude.{
  ℕ, ◌≤◌, ◌≡◌, ◌⊎◌, inl, inr, refl, true, false, not, ◌&&◌, ◌||◌, List, [], ◌∷◌, ltb, ◌==◌,
  split_if, split_lt, All, arith,
}
use omnidiscover.Model.{Time}
use omnidiscover.Fusion.Times.{earliest_from, earliest_expiry, latest_from, latest_expiry}

-- A time of the list.
abbrev pub Among : Time → List Time → Type 0
Among t [] = ⊥
Among t (v ∷ vs) = (t ≡ v) ⊎ Among t vs

-- Zero where every time is zero; else the least of those that are not.
pub record Earliest (vs : List Time) (t : Time) : Type 0 where
  pub least : All (λ v. (v ≡ 0) ⊎ (t ≤ v)) vs
  pub present : (t ≡ 0) ⊎ Among t vs
  pub absent : t ≡ 0 → All (λ v. v ≡ 0) vs

-- The greatest, or zero.
pub record Latest (vs : List Time) (t : Time) : Type 0 where
  pub greatest : All (λ v. v ≤ t) vs
  pub present : (t ≡ 0) ⊎ Among t vs

record From (out : Time) (vs : List Time) (t : Time) : Type 0 where
  least : All (λ v. (v ≡ 0) ⊎ (t ≤ v)) vs
  before : (out ≡ 0) ⊎ (t ≤ out)
  present : (t ≡ out) ⊎ Among t vs
  absent : t ≡ 0 → (out ≡ 0) × All (λ v. v ≡ 0) vs

taken :
    (v out r : ℕ)
    → (not (v == 0) && (out == 0 || ltb v out)) ≡ true
    → (v ≡ 0) ⊎ (r ≤ v)
    → (out ≡ 0) ⊎ (r ≤ out)
taken v out r t h = ground arith

passed :
    (v out r : ℕ)
    → (not (v == 0) && (out == 0 || ltb v out)) ≡ false
    → (out ≡ 0) ⊎ (r ≤ out)
    → (v ≡ 0) ⊎ (r ≤ v)
passed v out r t h = ground arith

passed_zero : (v out : ℕ) → (not (v == 0) && (out == 0 || ltb v out)) ≡ false → out ≡ 0 → v ≡ 0
passed_zero v out t h = ground arith

earliest_from-From : (out : Time) (vs : List Time) → From out vs (earliest_from out vs)
unfolding earliest_from
earliest_from-From out [] = record {
  least = tt;
  before = inr (omega arith);
  present = inl refl;
  absent = λ z. (z, tt);
}
earliest_from-From out (v ∷ vs) =
    split_if (not (v == 0) && (out == 0 || ltb v out))
      (λ t. rw t (
        let f = earliest_from-From v vs in
        record {
          least = (f.before, f.least);
          before = taken v out _ t f.before;
          present = inr f.present;
          absent = λ z. let (zero_v, rest) = f.absent z in absurd (ground arith);
        }))
      λ t. rw t (
        let f = earliest_from-From out vs in
        record {
          least = (passed v out _ t f.before, f.least);
          before = f.before;
          present = elim f.present [ inl e ↦ inl e | inr m ↦ inr (inr m) ];
          absent = λ z.
              let (zero_out, rest) = f.absent z in (zero_out, (passed_zero v out t zero_out, rest));
        })

record Top (out : Time) (vs : List Time) (t : Time) : Type 0 where
  above : out ≤ t
  greatest : All (λ v. v ≤ t) vs
  present : (t ≡ out) ⊎ Among t vs

latest_from-Top : (out : Time) (vs : List Time) → Top out vs (latest_from out vs)
unfolding latest_from
latest_from-Top out [] = record { above = omega arith; greatest = tt; present = inl refl }
latest_from-Top out (v ∷ vs) =
    split_lt out v
      (λ t less. rw t (
        let f = latest_from-Top v vs in
        record {
          above = omega (arith, less, f.above);
          greatest = (f.above, f.greatest);
          present = inr f.present;
        }))
      λ t more. rw t (
        let f = latest_from-Top out vs in
        record {
          above = f.above;
          greatest = (omega (arith, more, f.above), f.greatest);
          present = elim f.present [ inl e ↦ inl e | inr m ↦ inr (inr m) ];
        })

-- Of the five expiries of a link, the first left out, `earliestExpiry` finds the least that
-- is set, and zero exactly if none is; `latestExpiry` finds the greatest.
pub expiry-Earliest-Latest :
    (unknown a b c d : Time)
    → Earliest (a ∷ b ∷ c ∷ d ∷ []) (earliest_expiry (unknown ∷ a ∷ b ∷ c ∷ d ∷ []))
      × Latest (a ∷ b ∷ c ∷ d ∷ []) (latest_expiry (unknown ∷ a ∷ b ∷ c ∷ d ∷ []))
unfolding earliest_expiry latest_expiry
expiry-Earliest-Latest unknown a b c d =
    let f = earliest_from-From 0 (a ∷ b ∷ c ∷ d ∷ []) in
    let g = latest_from-Top 0 (a ∷ b ∷ c ∷ d ∷ []) in
    (
      record { least = f.least; present = f.present; absent = λ z. (f.absent z).1 },
      record { greatest = g.greatest; present = g.present },
    )
