-- ===== src/Go.antt =====
-- Go's run time, as far as the program meets it: a slice is a list, and a read outside of it
-- panics. `hang` is a loop that ran out of the rounds that the model gives it, which is no Go
-- behaviour, or a send that waits at a full channel.
-- Of the standard library, the reads of `encoding/binary` are here.
pub mod Ensures
pub mod Sort
use omnidiscover.Prelude.{
  ℕ, zero, suc, ◌+◌, ◌-◌, ◌*◌, ◌^◌, List, [], ◌∷◌, ◌&&◌, leb, if◌then◌else◌, length, take, drop,
  Bytes,
}

pub data Go {ℓ} (A : Type ℓ) : Type ℓ where
  ret : A → Go A
  panic : Go A
  hang : Go A

infixl 5 ◌>>=◌
abbrev pub ◌>>=◌ {ℓ κ} : {A : Type ℓ} {B : Type κ} → Go A → (A → Go B) → Go B
ret a >>= f = f a
panic >>= f = panic
hang >>= f = hang

module _ {ℓ} {A : Type ℓ} where
  -- `xs[i]`
  unfoldable pub index : List A → ℕ → Go A
  index [] i = panic
  index (x ∷ xs) zero = ret x
  index (x ∷ xs) (suc i) = index xs i

  -- `xs[lo:hi]`
  unfoldable pub slice : List A → ℕ → ℕ → Go (List A)
  slice xs lo hi =
      if leb lo hi && leb hi (length xs) then ret (take (hi - lo) (drop lo xs)) else panic

  -- `xs[i] = v`
  unfoldable pub write : List A → ℕ → A → Go (List A)
  write [] i v = panic
  write (x ∷ xs) zero v = ret (v ∷ xs)
  write (x ∷ xs) (suc i) v = write xs i v >>= λ ys. ret (x ∷ ys)

-- `binary.BigEndian.Uint16`, which panics on fewer than two bytes
unfoldable pub be16 : Bytes → Go ℕ
unfolding index
be16 b = do x ← index b 0; y ← index b 1; ret (x * 256 + y)

-- `binary.BigEndian.Uint32`
unfoldable pub be32 : Bytes → Go ℕ
unfolding index
be32 b = do
  x ← index b 0
  y ← index b 1
  z ← index b 2
  w ← index b 3
  ret (x * 2 ^ 24 + y * 2 ^ 16 + z * 256 + w)

-- `binary.LittleEndian.Uint32`
unfoldable pub le32 : Bytes → Go ℕ
unfolding index
le32 b = do
  x ← index b 0
  y ← index b 1
  z ← index b 2
  w ← index b 3
  ret (x + y * 256 + z * 2 ^ 16 + w * 2 ^ 24)

-- `binary.BigEndian.Uint16(xs[off : off+2])`
abbrev pub be16_at : Bytes → ℕ → Go ℕ
be16_at xs off = slice xs off (off + 2) >>= be16

-- `binary.BigEndian.Uint32(xs[off : off+4])`
abbrev pub be32_at : Bytes → ℕ → Go ℕ
be32_at xs off = slice xs off (off + 4) >>= be32

-- What one round of a loop leaves: the variables of the next round, or the function's result.
pub data Round {ℓ κ} (S : Type ℓ) (R : Type κ) : Type (ℓ ⊔ κ) where
  next : S → Round S R
  done : R → Round S R

-- A `for` loop whose body says itself when it ends, in at most so many rounds.
unfoldable pub loop {ℓ κ} : {S : Type ℓ} {R : Type κ} → ℕ → (S → Go (Round S R)) → S → Go R
loop zero body s = hang
loop (suc rounds) body s = body s >>= elim [ next s' ↦ loop rounds body s' | done r ↦ ret r ]
