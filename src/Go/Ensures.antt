-- ===== src/Go/Ensures.antt =====
-- Total correctness of a run, and what the reads return inside their bounds.
use omnidiscover.Prelude.{
  ℕ, zero, suc, ◌+◌, ◌-◌, ◌*◌, ◌^◌, ◌≤◌, ◌<◌, ◌≡◌, refl, List, [], ◌∷◌, arith, le→leb, length, take,
  drop, set, ◌==◌, if◌then◌else◌, All, IsByte, Bytes, length-take, length-drop, All-take, All-drop,
}
use omnidiscover.Go.{
  Go, ret, Round, next, done, loop, ◌>>=◌, index, slice, write, be16, be32, le32, be16_at, be32_at,
}

-- The run returns, without a panic and within its rounds, a value with the property.
pub data Ensures {ℓ κ} {A : Type ℓ} (P : A → Type κ) : Go A → Type (ℓ ⊔ κ) where
  ensures : {a : A} → P a → Ensures P (ret a)

module _ {ℓ κ} {A : Type ℓ} {P : A → Type κ} where
  pub Ensures-get : {m : Go A} → Ensures P m → (a : A) × (m ≡ ret a) × P a
  Ensures-get (ensures {a} p) = (a, refl, p)

  pub Ensures-bind {ℓ' κ'} :
      {B : Type ℓ'} {Q : B → Type κ'} {m : Go A} {f : A → Go B}
      → Ensures P m
      → ((a : A) → P a → Ensures Q (f a))
      → Ensures Q (m >>= f)
  Ensures-bind (ensures {a} p) k = k a p

  pub Ensures-both {κ'} :
      {Q : A → Type κ'} {m : Go A} → Ensures P m → Ensures Q m → Ensures (λ (a : A). P a × Q a) m
  Ensures-both (ensures p) (ensures q) = ensures (p, q)

  pub Ensures-mono {κ'} :
      {Q : A → Type κ'} {m : Go A} → Ensures P m → ((a : A) → P a → Q a) → Ensures Q m
  Ensures-mono (ensures {a} p) k = ensures (k a p)

module _ {ℓ} {A : Type ℓ} where
  pub index-ret : (xs : List A) (i : ℕ) → i < length xs → (x : A) × (index xs i ≡ ret x)
  unfolding index
  index-ret [] i h = elim h [ ]
  index-ret (x ∷ xs) zero h = (x, refl)
  index-ret (x ∷ xs) (suc i) h = index-ret xs i (omega arith)

  pub index-All {κ} :
      (P : A → Type κ) (xs : List A) (i : ℕ)
      → i < length xs
      → All P xs
      → (x : A) × (index xs i ≡ ret x) × P x
  unfolding index
  index-All P [] i h a = elim h [ ]
  index-All P (x ∷ xs) zero h a = (x, refl, a.0)
  index-All P (x ∷ xs) (suc i) h a = index-All P xs i (omega arith) a.1

  pub All-index {κ} :
      (P : A → Type κ) (xs : List A) (i : ℕ) {x : A} → All P xs → index xs i ≡ ret x → P x
  unfolding index
  All-index P [] i a e = cc
  All-index P (y ∷ ys) zero {x} a e = let same : y ≡ x = cc in rw same at (a.0)
  All-index P (y ∷ ys) (suc i) a e = All-index P ys i a.1 e

  pub index-lt : (xs : List A) (i : ℕ) {x : A} → index xs i ≡ ret x → i < length xs
  unfolding index
  index-lt [] i h = cc
  index-lt (y ∷ ys) zero h = omega arith
  index-lt (y ∷ ys) (suc i) h = omega (arith, index-lt ys i h)

  pub write-set : (xs : List A) (i : ℕ) (v : A) → i < length xs → write xs i v ≡ ret (set xs i v)
  unfolding write
  write-set [] i v h = elim h [ ]
  write-set (x ∷ xs) zero v h = refl
  write-set (x ∷ xs) (suc i) v h = rw (write-set xs i v (omega arith))

  -- A read behind a write
  pub index-set :
      (xs : List A) (i j : ℕ) (v : A)
      → i < length xs
      → index (set xs i v) j ≡ (if i == j then ret v else index xs j)
  unfolding index
  index-set [] i j v h = elim h [ ]
  index-set (x ∷ xs) zero zero v h = refl
  index-set (x ∷ xs) zero (suc j) v h = ground arith
  index-set (x ∷ xs) (suc i) zero v h = ground arith
  index-set (x ∷ xs) (suc i) (suc j) v h = ground (arith, index-set xs i j v (omega arith))

  -- A read is the first of what lies behind.
  pub index-drop :
      (xs : List A) (i : ℕ)
      → i < length xs
      → (x : A) × (index xs i ≡ ret x) × (drop i xs ≡ x ∷ drop (suc i) xs)
  unfolding index
  index-drop [] i h = elim h [ ]
  index-drop (x ∷ xs) zero h = (x, refl, refl)
  index-drop (x ∷ xs) (suc i) h = index-drop xs i (omega arith)

  pub slice_lem :
      (xs : List A) (lo hi : ℕ)
      → lo ≤ hi
      → hi ≤ length xs
      → slice xs lo hi ≡ ret (take (hi - lo) (drop lo xs))
  unfolding slice
  slice_lem xs lo hi h k = rw (le→leb lo hi h, le→leb hi (length xs) k)

  pub length-slice :
      (xs : List A) (lo hi : ℕ)
      → lo ≤ hi
      → hi ≤ length xs
      → length (take (hi - lo) (drop lo xs)) ≡ hi - lo
  length-slice xs lo hi h k = omega (arith, length-take (hi - lo) (drop lo xs), length-drop lo xs)

  pub slice-All {κ} :
      (P : A → Type κ) (xs : List A) (lo hi : ℕ)
      → lo ≤ hi
      → hi ≤ length xs
      → All P xs
      → (ys : List A) × (slice xs lo hi ≡ ret ys) × (length ys ≡ hi - lo) × All P ys
  slice-All P xs lo hi h k a = (
    take (hi - lo) (drop lo xs),
    slice_lem xs lo hi h k,
    length-slice xs lo hi h k,
    All-take P (hi - lo) (drop lo xs) (All-drop P lo xs a),
  )

  pub write-ret :
      (xs : List A) (i : ℕ) (v : A)
      → i < length xs
      → (ys : List A) × (write xs i v ≡ ret ys) × (length ys ≡ length xs)
  unfolding write
  write-ret [] i v h = elim h [ ]
  write-ret (x ∷ xs) zero v h = (v ∷ xs, refl, refl)
  write-ret (x ∷ xs) (suc i) v h =
      let (ys, e, n) = write-ret xs i v (omega arith) in (x ∷ ys, rw e, omega arith)

pub index-IsByte :
    (xs : Bytes) (i : ℕ)
    → i < length xs
    → All IsByte xs
    → (x : ℕ) × (index xs i ≡ ret x) × (x < 256)
index-IsByte xs i = index-All IsByte xs i

pub slice-IsByte :
    (xs : Bytes) (lo hi : ℕ)
    → lo ≤ hi
    → hi ≤ length xs
    → All IsByte xs
    → (ys : Bytes) × (slice xs lo hi ≡ ret ys) × (length ys ≡ hi - lo) × All IsByte ys
slice-IsByte = slice-All IsByte

pub be16-ret : (b : Bytes) → 2 ≤ length b → All IsByte b → (w : ℕ) × (be16 b ≡ ret w) × (w < 65536)
unfolding be16
be16-ret [] h a = absurd (omega arith)
be16-ret (x ∷ []) h a = absurd (omega arith)
be16-ret (x ∷ y ∷ r) h a = (x * 256 + y, refl, omega arith)

pub be32-ret : (b : Bytes) → 4 ≤ length b → All IsByte b → (w : ℕ) × (be32 b ≡ ret w) × (w < 2 ^ 32)
unfolding be32
be32-ret [] h a = absurd (omega arith)
be32-ret (x ∷ []) h a = absurd (omega arith)
be32-ret (x ∷ y ∷ []) h a = absurd (omega arith)
be32-ret (x ∷ y ∷ z ∷ []) h a = absurd (omega arith)
be32-ret (x ∷ y ∷ z ∷ w ∷ r) h a = (x * 2 ^ 24 + y * 2 ^ 16 + z * 256 + w, refl, omega arith)

pub le32-ret : (b : Bytes) → 4 ≤ length b → All IsByte b → (w : ℕ) × (le32 b ≡ ret w) × (w < 2 ^ 32)
unfolding le32
le32-ret [] h a = absurd (omega arith)
le32-ret (x ∷ []) h a = absurd (omega arith)
le32-ret (x ∷ y ∷ []) h a = absurd (omega arith)
le32-ret (x ∷ y ∷ z ∷ []) h a = absurd (omega arith)
le32-ret (x ∷ y ∷ z ∷ w ∷ r) h a = (x + y * 256 + z * 2 ^ 16 + w * 2 ^ 24, refl, omega arith)

pub be16_at-ret :
    (xs : Bytes) (off : ℕ)
    → off + 2 ≤ length xs
    → All IsByte xs
    → (w : ℕ) × (be16_at xs off ≡ ret w) × (w < 65536)
be16_at-ret xs off h a =
    let (ys, e, n, b) = slice-IsByte xs off (off + 2) (omega arith) h a in
    rw e (be16-ret ys (omega arith) b)

pub be32_at-ret :
    (xs : Bytes) (off : ℕ)
    → off + 4 ≤ length xs
    → All IsByte xs
    → (w : ℕ) × (be32_at xs off ≡ ret w) × (w < 2 ^ 32)
be32_at-ret xs off h a =
    let (ys, e, n, b) = slice-IsByte xs off (off + 4) (omega arith) h a in
    rw e (be32-ret ys (omega arith) b)

pub slice-Ensures :
    (xs : Bytes) (lo hi : ℕ)
    → lo ≤ hi
    → hi ≤ length xs
    → All IsByte xs
    → Ensures (λ (ys : Bytes). (length ys ≡ hi - lo) × All IsByte ys) (slice xs lo hi)
slice-Ensures xs lo hi h h' a =
    let (ys, e, size, b) = slice-IsByte xs lo hi h h' a in rw e (ensures (size, b))

-- One rule for each way that a decoder goes on.
module _ {ℓ κ} {A : Type ℓ} {P : A → Type κ} where
  pub Ensures-index :
      (xs : Bytes) (i : ℕ) (f : ℕ → Go A)
      → i < length xs
      → All IsByte xs
      → ((x : ℕ) → x < 256 → Ensures P (f x))
      → Ensures P (index xs i >>= f)
  Ensures-index xs i f h a k = let (x, e, lt) = index-IsByte xs i h a in rw e (k x lt)

  pub Ensures-slice :
      (xs : Bytes) (lo hi : ℕ) (f : Bytes → Go A)
      → lo ≤ hi
      → hi ≤ length xs
      → All IsByte xs
      → ((ys : Bytes) → length ys ≡ hi - lo → All IsByte ys → Ensures P (f ys))
      → Ensures P (slice xs lo hi >>= f)
  Ensures-slice xs lo hi f h h' a k =
      let (ys, e, size, b) = slice-IsByte xs lo hi h h' a in rw e (k ys size b)

  pub Ensures-be16_at :
      (xs : Bytes) (off : ℕ) (f : ℕ → Go A)
      → off + 2 ≤ length xs
      → All IsByte xs
      → ((w : ℕ) → w < 65536 → Ensures P (f w))
      → Ensures P (be16_at xs off >>= f)
  Ensures-be16_at xs off f h a k = let (w, e, lt) = be16_at-ret xs off h a in rw e (k w lt)

  pub Ensures-be32_at :
      (xs : Bytes) (off : ℕ) (f : ℕ → Go A)
      → off + 4 ≤ length xs
      → All IsByte xs
      → ((w : ℕ) → w < 2 ^ 32 → Ensures P (f w))
      → Ensures P (be32_at xs off >>= f)
  Ensures-be32_at xs off f h a k = let (w, e, lt) = be32_at-ret xs off h a in rw e (k w lt)

  pub Ensures-be16 :
      (b : Bytes) (f : ℕ → Go A)
      → 2 ≤ length b
      → All IsByte b
      → ((w : ℕ) → w < 65536 → Ensures P (f w))
      → Ensures P (be16 b >>= f)
  Ensures-be16 b f h a k = let (w, e, lt) = be16-ret b h a in rw e (k w lt)

  pub Ensures-be32 :
      (b : Bytes) (f : ℕ → Go A)
      → 4 ≤ length b
      → All IsByte b
      → ((w : ℕ) → w < 2 ^ 32 → Ensures P (f w))
      → Ensures P (be32 b >>= f)
  Ensures-be32 b f h a k = let (w, e, lt) = be32-ret b h a in rw e (k w lt)

  pub Ensures-write {ℓ'} :
      {B : Type ℓ'} (xs : List B) (i : ℕ) (v : B) (f : List B → Go A)
      → i < length xs
      → ((ys : List B) → length ys ≡ length xs → Ensures P (f ys))
      → Ensures P (write xs i v >>= f)
  Ensures-write xs i v f h k = let (ys, e, size) = write-ret xs i v h in rw e (k ys size)

-- A round keeps the invariant and comes nearer to the end, or returns what is wanted.
abbrev pub Progress {ℓ} :
    {S R : Type ℓ} → (S → Type ℓ) → (S → ℕ) → (R → Type ℓ) → ℕ → Round S R → Type ℓ
Progress P measure Q m (next s) = P s × (measure s < m)
Progress P measure Q m (done r) = Q r

module _ {ℓ} {S R : Type ℓ} (P : S → Type ℓ) (measure : S → ℕ) {Q : R → Type ℓ} where
  Ensures-resume :
      (m : ℕ) (again : S → Go R) (r : Round S R)
      → Progress P measure Q m r
      → ((s : S) → P s → measure s < m → Ensures Q (again s))
      → Ensures Q (elim r [ next s ↦ again s | done x ↦ ret x ])
  Ensures-resume m again (next s) (p, lt) k = k s p lt
  Ensures-resume m again (done x) q k = ensures q

  -- With more rounds than the measure the loop returns.
  pub Ensures-loop :
      (body : S → Go (Round S R))
      → ((s : S) → P s → Ensures (Progress P measure Q (measure s)) (body s))
      → (rounds : ℕ) (s : S) → measure s < rounds
      → P s
      → Ensures Q (loop rounds body s)
  unfolding loop
  Ensures-loop body keep zero s m p = absurd (omega arith)
  Ensures-loop body keep (suc rounds) s m p = Ensures-bind (keep s p) λ r g.
      Ensures-resume (measure s) (loop rounds body) r g
        λ s' p' lt. Ensures-loop body keep rounds s' (omega arith) p'
