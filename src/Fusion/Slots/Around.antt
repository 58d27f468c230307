-- ===== src/Fusion/Slots/Around.antt =====
-- What stands around an element of a list without repetitions, and how that changes when an element
-- is taken out or put in front.
use omnidiscover.Prelude.{
  ℕ, ◌≡◌, ◌≢◌, refl, Bool, true, false, not, ◌&&◌, ◌||◌, List, [], ◌∷◌, Option, none, some, ◌==◌,
  ==_refl, if◌then◌else◌, split_if, split_eq, arith,
}

-- Whether an index that may be -1 is this one
abbrev pub is_at : Option ℕ → ℕ → Bool
is_at none i = false
is_at (some j) i = j == i

unfoldable pub has : List ℕ → ℕ → Bool
has [] i = false
has (x ∷ xs) i = x == i || has xs i

abbrev pub Distinct : List ℕ → Type 0
Distinct [] = Unit
Distinct (x ∷ xs) = (has xs x ≡ false) × Distinct xs

abbrev pub first_of : List ℕ → Option ℕ
first_of [] = none
first_of (x ∷ xs) = some x

-- What stands behind i, and what stands in front of it
unfoldable pub behind : List ℕ → ℕ → Option ℕ
behind [] i = none
behind (x ∷ xs) i = if x == i then first_of xs else behind xs i

pub before_from : Option ℕ → List ℕ → ℕ → Option ℕ
before_from p [] i = none
before_from p (x ∷ xs) i = if x == i then p else before_from (some x) xs i

unfoldable pub in_front : List ℕ → ℕ → Option ℕ
unfolding before_from
in_front xs i = before_from none xs i

unfoldable pub remove : ℕ → List ℕ → List ℕ
remove i [] = []
remove i (x ∷ xs) = if x == i then remove i xs else x ∷ remove i xs

pub remove-none : (i : ℕ) (xs : List ℕ) → has xs i ≡ false → remove i xs ≡ xs
unfolding has remove
remove-none i [] h = refl
remove-none i (x ∷ xs) h = ground (arith, remove-none i xs)

pub has-remove : (i j : ℕ) (xs : List ℕ) → has (remove i xs) j ≡ (not (i == j) && has xs j)
unfolding has remove
has-remove i j [] = ground arith
has-remove i j (x ∷ xs) = ground (arith, has-remove i j xs)

pub Distinct-remove : (i : ℕ) (xs : List ℕ) → Distinct xs → Distinct (remove i xs)
unfolding remove
Distinct-remove i [] d = tt
Distinct-remove i (x ∷ xs) d =
    split_if (x == i) (λ e. rw e (Distinct-remove i xs d.1))
      λ e. rw e (ground (arith, has-remove i x xs), Distinct-remove i xs d.1)

pub is_at-first_of : (xs : List ℕ) (i : ℕ) → has xs i ≡ false → is_at (first_of xs) i ≡ false
unfolding has
is_at-first_of [] i h = refl
is_at-first_of (x ∷ xs) i h = ground arith

pub behind-has : (xs : List ℕ) (i j : ℕ) → has xs j ≡ false → is_at (behind xs i) j ≡ false
unfolding has behind
behind-has [] i j h = refl
behind-has (x ∷ xs) i j h = ground (arith, behind-has xs i j, is_at-first_of xs j)

before_from-has :
    (p : Option ℕ) (xs : List ℕ) (i j : ℕ)
    → has xs j ≡ false
    → is_at p j ≡ false
    → is_at (before_from p xs i) j ≡ false
unfolding has before_from
before_from-has p [] i j h k = refl
before_from-has p (x ∷ xs) i j h k = ground (arith, before_from-has (some x) xs i j)

-- First of a list without i
pub first_of-remove :
    (i : ℕ) (xs : List ℕ)
    → Distinct xs
    → first_of (remove i xs) ≡ (if is_at (first_of xs) i then behind xs i else first_of xs)
unfolding remove behind
first_of-remove i [] d = refl
first_of-remove i (x ∷ xs) d =
    split_eq x i (λ e same. rw (e, remove-none i xs (rw same at (d.0)))) λ e other. rw e

pub behind-remove :
    (i j : ℕ) (xs : List ℕ)
    → Distinct xs
    → i ≢ j
    → behind (remove i xs) j ≡ (if is_at (behind xs j) i then behind xs i else behind xs j)
unfolding remove behind has
behind-remove i j [] d n = refl
behind-remove i j (x ∷ xs) d n = ground (
  arith,
  remove-none i xs,
  behind-has xs j i,
  first_of-remove i xs d.1,
  behind-remove i j xs d.1 n,
)

swap_front :
    (i j : ℕ) (p : Option ℕ) (xs : List ℕ)
    → has xs i ≡ false
    → before_from p xs j
      ≡ (if is_at (before_from (some i) xs j) i then p else before_from (some i) xs j)
unfolding before_from has
swap_front i j p [] h = refl
swap_front i j p (y ∷ ys) h =
    split_eq y j (λ e same. rw (e, ==_refl i))
      λ e other. rw (e, before_from-has (some y) ys j i (ground arith) (ground arith))

front_first :
    (i j : ℕ) (xs : List ℕ)
    → has xs j ≡ false
    → is_at (before_from (some j) xs i) j ≡ is_at (first_of xs) i
unfolding before_from has
front_first i j [] h = refl
front_first i j (y ∷ ys) h =
    split_eq y i (λ e same. rw (e, ==_refl j))
      λ e other. rw (e, before_from-has (some y) ys i j (ground arith) (ground arith))

-- In front of j stands what stood there, or what stood in front of i if that was i.
before_from-remove :
    (i j : ℕ) (p : Option ℕ) (xs : List ℕ)
    → Distinct xs
    → i ≢ j
    → is_at p i ≡ false
    → before_from p (remove i xs) j
      ≡ (if is_at (before_from p xs j) i then before_from p xs i else before_from p xs j)
unfolding remove before_from has
before_from-remove i j p [] d n h = refl
before_from-remove i j p (x ∷ xs) d n h =
    split_eq x i
      (λ e same.
        let fresh : has xs i ≡ false = rw same at (d.0) in
        let apart : (x == j) ≡ false = ground arith in
        rw (e, remove-none i xs fresh, apart, same) (swap_front i j p xs fresh))
      λ e other.
        split_eq x j (λ e' same. rw (e, e', h))
          λ e' other'. rw (e, e') (before_from-remove i j (some x) xs d.1 n e)

pub in_front-remove :
    (i j : ℕ) (xs : List ℕ)
    → Distinct xs
    → i ≢ j
    → in_front (remove i xs) j ≡ (if is_at (in_front xs j) i then in_front xs i else in_front xs j)
unfolding in_front
in_front-remove i j xs d n = before_from-remove i j none xs d n refl

-- One stands behind the other exactly if the other stands in front of the one.
before_from-behind :
    (p : Option ℕ) (xs : List ℕ) (i j : ℕ)
    → Distinct xs
    → has xs i ≡ true
    → is_at p j ≡ false
    → is_at (before_from p xs i) j ≡ (has xs j && is_at (behind xs j) i)
unfolding has before_from behind
before_from-behind p [] i j d h k = cc
before_from-behind p (x ∷ xs) i j d h k =
    split_eq x i
      (λ e same.
        let fresh : has xs i ≡ false = rw same at (d.0) in
        rw (e, k) (ground (arith, is_at-first_of xs i fresh, behind-has xs j i fresh)))
      λ e other.
        split_eq x j
          (λ e' same.
            let fresh : has xs j ≡ false = rw same at (d.0) in
            rw (e, e', same) (front_first i j xs fresh))
          λ e' other'. rw (e, e') (before_from-behind (some x) xs i j d.1 (ground arith) e')

pub in_front-behind :
    (xs : List ℕ) (i j : ℕ)
    → Distinct xs
    → has xs i ≡ true
    → is_at (in_front xs i) j ≡ (has xs j && is_at (behind xs j) i)
unfolding in_front
in_front-behind xs i j d h = before_from-behind none xs i j d h refl

-- Nothing stands in front of the first, and only of that.
before_from-first :
    (p : ℕ) (xs : List ℕ) (i : ℕ) → has xs i ≡ true → (q : ℕ) × (before_from (some p) xs i ≡ some q)
unfolding before_from has
before_from-first p [] i h = cc
before_from-first p (x ∷ xs) i h =
    split_eq x i (λ e same. (p, rw e)) λ e other. rw e (before_from-first x xs i (ground arith))

abbrev pub is_none : Option ℕ → Bool
is_none none = true
is_none (some i) = false

pub in_front-first :
    (xs : List ℕ) (i : ℕ) → has xs i ≡ true → is_none (in_front xs i) ≡ is_at (first_of xs) i
unfolding in_front before_from has
in_front-first [] i h = cc
in_front-first (x ∷ xs) i h =
    split_eq x i (λ e same. rw e)
      λ e other. let (q, found) = before_from-first x xs i (ground arith) in rw (e, found)

pub behind_self : (xs : List ℕ) (i : ℕ) → Distinct xs → is_at (behind xs i) i ≡ false
unfolding behind has
behind_self [] i d = refl
behind_self (x ∷ xs) i d =
    split_eq x i (λ e same. rw e (is_at-first_of xs i (rw same at (d.0))))
      λ e other. rw e (behind_self xs i d.1)

-- With i in front of the list, the first has i in front of it.
pub in_front-cons :
    (i j : ℕ) (xs : List ℕ)
    → i ≢ j
    → has xs j ≡ true
    → in_front (i ∷ xs) j ≡ (if is_at (first_of xs) j then some i else in_front xs j)
unfolding in_front before_from has
in_front-cons i j [] n h = cc
in_front-cons i j (x ∷ xs) n h =
    let apart : (i == j) ≡ false = ground arith in
    rw apart (split_eq x j (λ e same. rw e) λ e other. rw e)
