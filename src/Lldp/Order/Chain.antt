-- ===== src/Lldp/Order/Chain.antt =====
-- A PDU of lldp.go as a chain of TLVs, and the counting of those that must come first.
use omnidiscover.Prelude.{
  ℕ, zero, suc, ◌+◌, ◌/◌, ◌%◌, ◌≤◌, ◌<◌, ◌≡◌, ◌⊎◌, inl, inr, refl, sym, ap, Bool, false, ◌&&◌, List,
  [], ◌∷◌, ◌++◌, arith, ltb, leb, if◌then◌else◌, length, replicate, Bytes,
}
use omnidiscover.Go.{ret, be16_at, index, slice, write}

-- A TLV of the PDU: its header at `off`, and its value behind.
pub record TlvAt (pdu : Bytes) (off typ : ℕ) (value : Bytes) : Type 0 where
  pub head : ℕ
  pub header : be16_at pdu off ≡ ret head
  pub type_bits : head / 512 % 256 ≡ typ
  pub size_bits : head % 512 ≡ length value
  pub body : slice pdu (off + 2) (off + 2 + length value) ≡ ret value

-- The TLVs from the PDU's start up to an offset, in order.
pub data Tlvs (pdu : Bytes) : List (ℕ × Bytes) → ℕ → Type 0 where
  no_tlvs : Tlvs pdu [] 0
  more_tlvs :
      {ts : List (ℕ × Bytes)} {off : ℕ} (typ : ℕ) (value : Bytes)
      → Tlvs pdu ts off
      → TlvAt pdu off typ value
      → Tlvs pdu (ts ++ (typ, value) ∷ []) (off + 2 + length value)

-- The sizes that the mandatory TLVs may have: 1 and 2 are the identifiers, 3 is the TTL.
abbrev pub Fits : ℕ → Bytes → Type 0
Fits zero v = Unit
Fits (suc zero) v = 2 ≤ length v
Fits (suc (suc zero)) v = 2 ≤ length v
Fits (suc (suc (suc n))) v = length v ≡ 2

-- Among the first three TLVs the n-th is of type n and fits; `k` of them lie before.
abbrev pub Mandatory : ℕ → List (ℕ × Bytes) → Type 0
Mandatory k [] = Unit
Mandatory k ((typ, v) ∷ ts) = (k < 3 → (typ ≡ k + 1) × Fits (k + 1) v) × Mandatory (k + 1) ts

-- The TLVs are there, those that must come first among them, and an empty End TLV is behind them.
pub record Accepts (pdu : Bytes) : Type 0 where
  pub tlvs : List (ℕ × Bytes)
  pub end : ℕ
  pub read : Tlvs pdu tlvs end
  pub three : 3 ≤ length tlvs
  pub mandatory : Mandatory 0 tlvs
  pub last : TlvAt pdu end 0 []

pub Mandatory-append :
    (k : ℕ) (ts : List (ℕ × Bytes)) (typ : ℕ) (v : Bytes)
    → Mandatory k ts
    → (k + length ts < 3 → (typ ≡ k + length ts + 1) × Fits (k + length ts + 1) v)
    → Mandatory k (ts ++ (typ, v) ∷ [])
Mandatory-append k [] typ v m h =
    let none_yet : k + 0 ≡ k = omega arith in (rw (sym none_yet) h, tt)
Mandatory-append k (t ∷ ts) typ v (here, m) h =
    let next_one : k + suc (length ts) ≡ k + 1 + length ts = omega arith in
    (here, Mandatory-append (k + 1) ts typ v m (rw (sym next_one) h))

-- How many of the mandatory TLVs are read, of n TLVs.
abbrev pub Counts : ℕ → ℕ → Type 0
Counts m n = ((m < 3) × (m ≡ n)) ⊎ ((m ≡ 3) × (3 ≤ n))

pub mandatory_next :
    (m n typ : ℕ) (value : Bytes)
    → Counts m n
    → (m < 3 → typ ≡ m + 1)
    → (m < 3 → Fits (m + 1) value)
    → 0 + n < 3
    → (typ ≡ 0 + n + 1) × Fits (0 + n + 1) value
mandatory_next m n typ value (inl (lt, same)) expected f h =
    let here : 0 + n ≡ m = omega arith in rw here (expected lt, f lt)
mandatory_next m n typ value (inr (_, le)) expected f h = absurd (omega arith)

pub Counts-next : (m n : ℕ) → Counts m n → Counts (if ltb m 3 then m + 1 else m) (n + 1)
Counts-next m n c = ground arith

pub read_all : (m n : ℕ) → Counts m n → (m < 3 → ⊥) → 3 ≤ n
read_all m n (inl (lt, _)) h = absurd (h lt)
read_all m n (inr (_, le)) h = le

pub write-index :
    (xs : List Bool) (i : ℕ) (v : Bool)
    → i < length xs
    → (ys : List Bool) × (write xs i v ≡ ret ys)
      × (length ys ≡ length xs)
      × ((j : ℕ) → (j ≡ i → ⊥) → index ys j ≡ index xs j)
unfolding write index
write-index [] i v h = absurd (omega arith)
write-index (x ∷ xs) zero v h = (v ∷ xs, refl, refl, others)
  where
    others : (j : ℕ) → (j ≡ 0 → ⊥) → index (v ∷ xs) j ≡ index (x ∷ xs) j
    others zero other = absurd (other refl)
    others (suc j) other = refl
write-index (x ∷ xs) (suc i) v h =
    let (ys, e, n, same) = write-index xs i v (omega arith) in
    (x ∷ ys, rw e refl, omega arith, others ys same)
  where
    others :
        (ys : List Bool)
        → ((j : ℕ) → (j ≡ i → ⊥) → index ys j ≡ index xs j)
        → (j : ℕ) → (j ≡ suc i → ⊥)
        → index (x ∷ ys) j ≡ index (x ∷ xs) j
    others ys same zero other = refl
    others ys same (suc j) other = same j (λ k. other (ap suc k))

pub index-replicate : (n j : ℕ) → j < n → index (replicate n false) j ≡ ret false
unfolding index
index-replicate zero j h = absurd (omega arith)
index-replicate (suc n) zero h = refl
index-replicate (suc n) (suc j) h = index-replicate n j (omega arith)

pub TlvAt-moves :
    (pdu : Bytes) (off typ typ' : ℕ) (v v' : Bytes)
    → typ ≡ typ'
    → v ≡ v'
    → TlvAt pdu off typ v
    → TlvAt pdu off typ' v'
TlvAt-moves pdu off typ typ' v v' e e' t = rw (sym e, sym e') t

pub empty_value : (v : Bytes) → length v ≡ 0 → v ≡ []
empty_value [] h = refl
empty_value (x ∷ v) h = absurd (omega arith)

-- The mandatory TLVs behind one more.
pub counted_few :
    (m : ℕ)
    → (if ltb m 3 then m + 1 else m) < 3
    → (m < 3) × ((if ltb m 3 then m + 1 else m) ≡ m + 1)
counted_few m h = ground arith

pub is_mandatory : (m typ : ℕ) → typ ≡ m + 1 → m < 3 → (leb 1 typ && leb typ 3) ≡ false → ⊥
is_mandatory m typ e few h = ground arith
