-- ===== src/Fusion/Text/Distinct.antt =====
-- Lists of texts without repetitions, under the changes that `mergeText` makes.
use omnidiscover.Prelude.{
  ℕ, zero, suc, ◌+◌, ◌<◌, ◌≡◌, ◌≢◌, ◌⊎◌, inl, inr, refl, sym, ap, Bool, true, false, ◌||◌, List, [],
  ◌∷◌, ◌++◌, Option, none, some, split_if, length, get_or, set, arith, Bytes, equal, equal_iff,
  if◌then◌else◌,
}
use omnidiscover.Model.{TextValue, no_value}
use omnidiscover.Fusion.Text.{find_text}

abbrev pub texts : List TextValue → List Bytes
texts [] = []
texts (v ∷ vs) = v.value ∷ texts vs

unfoldable pub has : List Bytes → Bytes → Bool
has [] x = false
has (y ∷ ys) x = equal y x || has ys x

abbrev pub Distinct : List Bytes → Type 0
Distinct [] = Unit
Distinct (y ∷ ys) = (has ys y ≡ false) × Distinct ys

module _ {ℓ} {A : Type ℓ} where
  pub get_or-set : (xs : List A) (i : ℕ) (v d : A) → i < length xs → get_or (set xs i v) i d ≡ v
  get_or-set [] i v d h = absurd (omega arith)
  get_or-set (x ∷ xs) zero v d h = refl
  get_or-set (x ∷ xs) (suc i) v d h = get_or-set xs i v d (omega arith)

  pub get_or-set_other :
      (xs : List A) (i j : ℕ) (v d : A) → j ≢ i → get_or (set xs i v) j d ≡ get_or xs j d
  get_or-set_other [] i j v d h = refl
  get_or-set_other (x ∷ xs) zero zero v d h = absurd (h refl)
  get_or-set_other (x ∷ xs) zero (suc j) v d h = refl
  get_or-set_other (x ∷ xs) (suc i) zero v d h = refl
  get_or-set_other (x ∷ xs) (suc i) (suc j) v d h = get_or-set_other xs i j v d (λ e. h (ap suc e))

  pub get_or-append :
      (xs ys : List A) (j : ℕ) (d : A) → j < length xs → get_or (xs ++ ys) j d ≡ get_or xs j d
  get_or-append [] ys j d h = absurd (omega arith)
  get_or-append (x ∷ xs) ys zero d h = refl
  get_or-append (x ∷ xs) ys (suc j) d h = get_or-append xs ys j d (omega arith)

pub texts-append :
    (vs : List TextValue) (v : TextValue) → texts (vs ++ v ∷ []) ≡ texts vs ++ v.value ∷ []
texts-append [] v = refl
texts-append (w ∷ vs) v = ap (λ t. w.value ∷ t) (texts-append vs v)

pub texts-set :
    (vs : List TextValue) (i : ℕ) (v : TextValue) → texts (set vs i v) ≡ set (texts vs) i v.value
texts-set [] i v = refl
texts-set (w ∷ vs) zero v = refl
texts-set (w ∷ vs) (suc i) v = ap (λ t. w.value ∷ t) (texts-set vs i v)

pub set-same :
    (vs : List TextValue) (i : ℕ) → set (texts vs) i (get_or vs i no_value).value ≡ texts vs
set-same [] i = refl
set-same (w ∷ vs) zero = refl
set-same (w ∷ vs) (suc i) = ap (λ t. w.value ∷ t) (set-same vs i)

has-append : (ys : List Bytes) (y x : Bytes) → has (ys ++ y ∷ []) x ≡ (has ys x || equal y x)
unfolding has
has-append [] y x = ground arith
has-append (z ∷ ys) y x = ground (arith, has-append ys y x)

equal_apart : (x y : Bytes) → equal x y ≡ false → equal y x ≡ false
equal_apart x y h =
    split_if (equal y x)
      (λ t. let back : equal x y ≡ true = (equal_iff x y).1 (sym ((equal_iff y x).0 t)) in cc)
      λ t. t

or_false : (p q : Bool) → (p || q) ≡ false → (p ≡ false) × (q ≡ false)
or_false p q h = ground arith

pub Distinct-append :
    (ys : List Bytes) (x : Bytes) → Distinct ys → has ys x ≡ false → Distinct (ys ++ x ∷ [])
unfolding has
Distinct-append [] x d h = (refl, tt)
Distinct-append (y ∷ ys) x (absent, d) h =
    let (apart, h') = or_false (equal y x) (has ys x) h in
    (rw (has-append ys x y, absent) (equal_apart y x apart), Distinct-append ys x d h')

-- Nothing comes in by a write but the text that is written.
has-set :
    (ys : List Bytes) (i : ℕ) (x y : Bytes)
    → has ys y ≡ false
    → equal x y ≡ false
    → has (set ys i x) y ≡ false
unfolding has
has-set [] i x y h apart = refl
has-set (z ∷ ys) zero x y h apart = let (_, h') = or_false (equal z y) (has ys y) h in rw (apart) h'
has-set (z ∷ ys) (suc i) x y h apart =
    let (other, h') = or_false (equal z y) (has ys y) h in rw other (has-set ys i x y h' apart)

pub Distinct-set :
    (ys : List Bytes) (i : ℕ) (x : Bytes) → Distinct ys → has ys x ≡ false → Distinct (set ys i x)
unfolding has
Distinct-set [] i x d h = tt
Distinct-set (y ∷ ys) zero x (absent, d) h =
    let (apart, h') = or_false (equal y x) (has ys x) h in (h', d)
Distinct-set (y ∷ ys) (suc i) x (absent, d) h =
    let (apart, h') = or_false (equal y x) (has ys x) h in
    (has-set ys i x y absent (equal_apart y x apart), Distinct-set ys i x d h')

pub find_text-none :
    (vs : List TextValue) (x : Bytes) → find_text vs x ≡ none → has (texts vs) x ≡ false
unfolding find_text has
find_text-none [] x h = refl
find_text-none (v ∷ vs) x h = ground (arith, find_text-none vs x)

found_first :
    (c : Bool) (o : Option ℕ) (i : ℕ)
    → (if c then some 0 else elim o [ some j ↦ some (j + 1) | none ↦ none ]) ≡ some i
    → ((c ≡ true) × (i ≡ 0)) ⊎ ((j : ℕ) × (o ≡ some j) × (i ≡ j + 1))
found_first true o i h = inl (refl, cc)
found_first false (some j) i h = inr (j, refl, cc)
found_first false none i h = cc

pub find_text-some :
    (vs : List TextValue) (x : Bytes) (i : ℕ)
    → find_text vs x ≡ some i
    → (i < length vs) × ((get_or vs i no_value).value ≡ x)
unfolding find_text
find_text-some [] x i h = cc
find_text-some (v ∷ vs) x i h = elim (found_first (equal v.value x) (find_text vs x) i h) [
  | inl (t, e) ↦ rw e (omega arith, (equal_iff v.value x).0 t)
  | inr (j, e, next) ↦
      let (lt, same) = find_text-some vs x j e in
      let place : i ≡ suc j = omega (arith, next) in rw place (omega arith, same)
]
