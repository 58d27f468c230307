-- ===== src/Go/Sort.antt =====
-- `sort.SliceStable`: an insertion sort, which has the one result that the package promises. `less`
-- is the function that the caller hands over.
use omnidiscover.Prelude.{
  suc, ◌+◌, length, ◌≡◌, refl, Bool, true, false, ◌&&◌, ◌||◌, List, [], ◌∷◌, arith, if◌then◌else◌,
  split_if, all, any, All,
}

module _ {ℓ} {A : Type ℓ} (less : A → A → Bool) where
  insert : A → List A → List A
  insert x [] = x ∷ []
  insert x (y ∷ ys) = if less x y then x ∷ y ∷ ys else y ∷ insert x ys

  insert_all : List A → List A → List A
  insert_all [] out = out
  insert_all (x ∷ xs) out = insert_all xs (insert x out)

  unfoldable pub stable_sort : List A → List A
  unfolding insert insert_all
  stable_sort xs = insert_all xs []

  any-insert : (p : A → Bool) (x : A) (l : List A) → any p (insert x l) ≡ (p x || any p l)
  unfolding insert
  any-insert p x [] = refl
  any-insert p x (y ∷ ys) = ground (arith, any-insert p x ys)

  any-insert_all :
      (p : A → Bool) (xs out : List A) → any p (insert_all xs out) ≡ (any p xs || any p out)
  unfolding insert_all
  any-insert_all p [] out = refl
  any-insert_all p (x ∷ xs) out =
      ground (arith, any-insert_all p xs (insert x out), any-insert p x out)

  -- Sorting keeps what there is.
  pub any-stable_sort : (p : A → Bool) (xs : List A) → any p (stable_sort xs) ≡ any p xs
  unfolding stable_sort
  any-stable_sort p xs = ground (arith, any-insert_all p xs [])

  all-insert : (p : A → Bool) (x : A) (l : List A) → all p (insert x l) ≡ (p x && all p l)
  unfolding insert
  all-insert p x [] = refl
  all-insert p x (y ∷ ys) = ground (arith, all-insert p x ys)

  all-insert_all :
      (p : A → Bool) (xs out : List A) → all p (insert_all xs out) ≡ (all p xs && all p out)
  unfolding insert_all
  all-insert_all p [] out = refl
  all-insert_all p (x ∷ xs) out =
      ground (arith, all-insert_all p xs (insert x out), all-insert p x out)

  pub all-stable_sort : (p : A → Bool) (xs : List A) → all p (stable_sort xs) ≡ all p xs
  unfolding stable_sort
  all-stable_sort p xs = ground (arith, all-insert_all p xs [])

  length-insert : (x : A) (l : List A) → length (insert x l) ≡ suc (length l)
  unfolding insert
  length-insert x [] = refl
  length-insert x (y ∷ ys) = ground (arith, length-insert x ys)

  length-insert_all : (xs out : List A) → length (insert_all xs out) ≡ length xs + length out
  unfolding insert_all
  length-insert_all [] out = omega arith
  length-insert_all (x ∷ xs) out =
      omega (arith, length-insert_all xs (insert x out), length-insert x out)

  pub length-stable_sort : (xs : List A) → length (stable_sort xs) ≡ length xs
  unfolding stable_sort
  length-stable_sort xs = omega (arith, length-insert_all xs [])

  module _ {κ} (P : A → Type κ) where
    All-insert : (x : A) (l : List A) → P x → All P l → All P (insert x l)
    unfolding insert
    All-insert x [] h rest = (h, tt)
    All-insert x (y ∷ ys) h rest =
        split_if (less x y) (λ e. rw e (h, rest)) λ e. rw e (rest.0, All-insert x ys h rest.1)

    All-insert_all : (xs out : List A) → All P xs → All P out → All P (insert_all xs out)
    unfolding insert_all
    All-insert_all [] out h rest = rest
    All-insert_all (x ∷ xs) out h rest =
        All-insert_all xs (insert x out) h.1 (All-insert x out h.0 rest)

    pub All-stable_sort : (xs : List A) → All P xs → All P (stable_sort xs)
    unfolding stable_sort
    All-stable_sort xs h = All-insert_all xs [] h tt

    of_insert : (x : A) (l : List A) → All P (insert x l) → P x × All P l
    unfolding insert
    of_insert x [] h = h
    of_insert x (y ∷ ys) h =
        split_if (less x y) (λ e. rw e at h)
          λ e. let h' = rw e at h in let rest = of_insert x ys h'.1 in (rest.0, (h'.0, rest.1))

    of_insert_all : (xs out : List A) → All P (insert_all xs out) → All P xs × All P out
    unfolding insert_all
    of_insert_all [] out h = (tt, h)
    of_insert_all (x ∷ xs) out h =
        let parts = of_insert_all xs (insert x out) h in
        let last = of_insert x out parts.1 in ((last.0, parts.0), last.1)

    pub of_stable_sort : (xs : List A) → All P (stable_sort xs) → All P xs
    unfolding stable_sort
    of_stable_sort xs h = (of_insert_all xs [] h).0

  -- No element is before one that stands in front of it.
  abbrev pub InOrder : List A → Type ℓ
  InOrder [] = Unit
  InOrder (x ∷ xs) = All (λ y. less y x ≡ false) xs × InOrder xs

  -- What the package asks of `less`.
  pub record IsWeakOrder : Type ℓ where
    pub asymmetric : (a b : A) → less a b ≡ true → less b a ≡ false
    pub transitive : (a b c : A) → less b a ≡ false → less c b ≡ false → less c a ≡ false

  module _ (w : IsWeakOrder) where
    behind :
        (x y : A) (ys : List A)
        → less y x ≡ false
        → All (λ z. less z y ≡ false) ys
        → All (λ z. less z x ≡ false) ys
    behind x y [] h a = tt
    behind x y (z ∷ zs) h a = (w.transitive x y z h a.0, behind x y zs h a.1)

    InOrder-insert : (x : A) (l : List A) → InOrder l → InOrder (insert x l)
    unfolding insert
    InOrder-insert x [] o = (tt, tt)
    InOrder-insert x (y ∷ ys) o =
        split_if (less x y)
          (λ e. let first = w.asymmetric x y e in rw e ((first, behind x y ys first o.0), o))
          λ e. rw e (All-insert (λ z. less z y ≡ false) x ys e o.0, InOrder-insert x ys o.1)

    InOrder-insert_all : (xs out : List A) → InOrder out → InOrder (insert_all xs out)
    unfolding insert_all
    InOrder-insert_all [] out o = o
    InOrder-insert_all (x ∷ xs) out o =
        InOrder-insert_all xs (insert x out) (InOrder-insert x out o)

    pub InOrder-stable_sort : (xs : List A) → InOrder (stable_sort xs)
    unfolding stable_sort
    InOrder-stable_sort xs = InOrder-insert_all xs [] tt
