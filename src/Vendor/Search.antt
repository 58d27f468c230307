-- ===== src/Vendor/Search.antt =====
-- The binary search of vendor.go.
use omnidiscover.Prelude.{
  ℕ, zero, suc, ◌+◌, ◌-◌, ◌/◌, ◌≤◌, ◌<◌, ◌≡◌, ◌≢◌, refl, List, [], ◌∷◌, Option, none, some,
  split_lt, split_le, split_eq, length, get_or, arith,
}
use omnidiscover.Go.{ret, index}
use omnidiscover.Go.Ensures.{Ensures, ensures, Ensures-bind, Ensures-loop, Progress}
use omnidiscover.Vendor.{Bounds, found_at, halve, search}

-- `values[i]`, at any i in range.
abbrev pub at : List ℕ → ℕ → ℕ
at values i = get_or values i 0

abbrev pub Sorted : List ℕ → Type 0
Sorted values = (i j : ℕ) → i ≤ j → j < length values → at values i ≤ at values j

pub index-at : (values : List ℕ) (i : ℕ) → i < length values → index values i ≡ ret (at values i)
unfolding index
index-at [] i h = absurd (omega arith)
index-at (x ∷ xs) zero h = refl
index-at (x ∷ xs) (suc i) h = index-at xs i (omega arith)

-- An index that is found holds the target, and if none is found, the target is nowhere between.
abbrev pub Finds : List ℕ → (target lo hi : ℕ) → Option ℕ → Type 0
Finds values target lo hi none = (i : ℕ) → lo ≤ i → i < hi → at values i ≢ target
Finds values target lo hi (some i) = (i < length values) × (at values i ≡ target)

module _ (values : List ℕ) (target lo hi : ℕ) (sorted : Sorted values) (order : lo ≤ hi)
    (inside : hi ≤ length values) where
  record Inv (b : Bounds) : Type 0 where
    low : lo ≤ b.lo
    mid : b.lo ≤ b.hi
    high : b.hi ≤ hi
    below : (i : ℕ) → lo ≤ i → i < b.lo → at values i < target
    above : (i : ℕ) → b.hi ≤ i → i < hi → target ≤ at values i

  record Split (m : ℕ) : Type 0 where
    low : lo ≤ m
    high : m ≤ hi
    below : (i : ℕ) → lo ≤ i → i < m → at values i < target
    above : (i : ℕ) → m ≤ i → i < hi → target ≤ at values i

  width : Bounds → ℕ
  width b = b.hi - b.lo

  halve-Inv :
      (b : Bounds) → Inv b → Ensures (Progress Inv width Split (width b)) (halve values target b)
  unfolding halve width
  halve-Inv b i =
      split_le b.hi b.lo
        (λ e h. rw e (
          ensures (record {
            low = i.low;
            high = omega (arith, i.mid, i.high);
            below = i.below;
            above = λ j le lt. i.above j (omega arith) lt;
          })))
        λ e h.
          let m : ℕ = (b.lo + b.hi) / 2 in
          let found : index values m ≡ ret (at values m) =
            index-at values m (omega (arith, i.high)) in
          rw (e, found)
            (split_lt (at values m) target
              (λ t less. rw t (
                ensures (
                  record {
                    low = omega (arith, i.low);
                    mid = omega arith;
                    high = i.high;
                    below =
                        λ j le lt. omega (arith, sorted j m (omega arith) (omega (arith, i.high)));
                    above = i.above;
                  },
                  omega arith,
                )))
              λ t more. rw t (
                ensures (
                  record {
                    low = i.low;
                    mid = omega arith;
                    high = omega (arith, i.high);
                    below = i.below;
                    above = λ j le lt. omega (arith, more, sorted m j le (omega arith));
                  },
                  omega arith,
                )))

  absent :
      (m : ℕ) → Split m → m < length values → at values m ≢ target → Finds values target lo hi none
  absent m s h other i le lt eq =
      split_lt i m (λ _ before. absurd (omega (arith, eq, s.below i le before)))
        λ _ behind. other (
          omega (arith, eq, sorted m i behind (omega arith), s.above m (omega arith) (omega arith)))

  found_at-Finds :
      (m : ℕ) → Split m → Ensures (Finds values target lo hi) (found_at values target m)
  unfolding found_at
  found_at-Finds m s =
      split_lt m (length values)
        (λ e h.
          rw (e, index-at values m h)
            (split_eq (at values m) target (λ t same. rw t (ensures (h, same)))
              λ t other. rw t (ensures (absent m s h other))))
        λ e h. rw e (ensures (λ i le lt eq. absurd (omega (arith, eq, s.below i le (omega arith)))))

-- On a sorted table, between bounds inside of it, the search returns. An index that it finds holds
-- the target, and if it finds none, the target is nowhere between the bounds.
pub search-Finds :
    (values : List ℕ) (target lo hi : ℕ)
    → Sorted values
    → lo ≤ hi
    → hi ≤ length values
    → Ensures (Finds values target lo hi) (search values target lo hi)
unfolding search width
search-Finds values target lo hi sorted order inside =
    Ensures-bind
      (Ensures-loop (Inv values target lo hi sorted order inside)
        (width values target lo hi sorted order inside) (halve values target)
        (halve-Inv values target lo hi sorted order inside) (hi - lo + 1)
        (record { lo = lo; hi = hi }) (omega arith)
        (record {
          low = omega arith;
          mid = order;
          high = omega arith;
          below = λ i le lt. absurd (omega arith);
          above = λ i le lt. absurd (omega arith);
        }))
      λ m s. found_at-Finds values target lo hi sorted order inside m s
