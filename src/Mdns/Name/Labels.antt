-- ===== src/Mdns/Name/Labels.antt =====
-- Names of mdns.go: the text that labels make, and the labels that a packet spells.
use omnidiscover.Prelude.{
  ℕ, suc, ◌+◌, ◌/◌, ◌%◌, ◌≤◌, ◌<◌, ◌≡◌, refl, sym, ◌∙◌, true, false, List, [], ◌∷◌, ◌++◌,
  append_assoc, append-nil, arith, length, length-append, ◌==◌, Bytes, All,
}
use omnidiscover.Go.{ret, index, slice, be16_at}
use omnidiscover.Protocol.{is_no_issue}
use omnidiscover.Mdns.Name.{Name}

-- The labels, each behind a dot.
abbrev pub dotted : List Bytes → Bytes
dotted [] = []
dotted (l ∷ ls) = b'.' ∷ l ++ dotted ls

-- The name that the labels make.
abbrev pub name : List Bytes → Bytes
name [] = []
name (l ∷ ls) = l ++ dotted ls

abbrev pub IsLabel : Bytes → Type 0
IsLabel l = (1 ≤ length l) × (length l ≤ 63)

-- The text so far, and the text with one more label.
abbrev pub with_label : Bytes → Bytes → Bytes
with_label [] l = l
with_label (c ∷ acc) l = ((c ∷ acc) ++ b'.' ∷ []) ++ l

-- The text behind more labels.
abbrev pub grow : Bytes → List Bytes → Bytes
grow acc [] = acc
grow acc (l ∷ ls) = grow (with_label acc l) ls

pub with_label-longer : (acc l : Bytes) → length acc ≤ length (with_label acc l)
with_label-longer [] l = omega arith
with_label-longer (c ∷ acc) l =
    omega (arith, length-append ((c ∷ acc) ++ b'.' ∷ []) l, length-append (c ∷ acc) (b'.' ∷ []))

pub grow-longer : (acc : Bytes) (ls : List Bytes) → length acc ≤ length (grow acc ls)
grow-longer acc [] = omega arith
grow-longer acc (l ∷ ls) = omega (arith, with_label-longer acc l, grow-longer (with_label acc l) ls)

grow-dotted : (c : ℕ) (acc : Bytes) (ls : List Bytes) → grow (c ∷ acc) ls ≡ (c ∷ acc) ++ dotted ls
grow-dotted c acc [] = sym (append-nil (c ∷ acc))
grow-dotted c acc (l ∷ ls) =
    grow-dotted c ((acc ++ b'.' ∷ []) ++ l) ls
    ∙ append_assoc ((c ∷ acc) ++ b'.' ∷ []) l (dotted ls)
    ∙ append_assoc (c ∷ acc) (b'.' ∷ []) (l ++ dotted ls)

pub grow-name : (ls : List Bytes) → All IsLabel ls → grow [] ls ≡ name ls
grow-name [] all = refl
grow-name ([] ∷ ls) all = absurd (omega (arith, all.0.0))
grow-name ((c ∷ l) ∷ ls) all = grow-dotted c l ls

-- The labels that stand at `off`, read through so many compression pointers, and the offset behind
-- them: that of the zero at their end, or of the first pointer.
pub data Spells (packet : Bytes) : (off jumps : ℕ) → List Bytes → (behind : ℕ) → Type 0 where
  ends : {off : ℕ} → index packet off ≡ ret 0 → Spells packet off 0 [] (off + 1)
  jump :
      {off jumps behind : ℕ} {labels : List Bytes} (size word : ℕ)
      → index packet off ≡ ret size
      → size / 64 ≡ 3
      → off + 1 < length packet
      → be16_at packet off ≡ ret word
      → Spells packet (word % 0x4000) jumps labels behind
      → Spells packet off (suc jumps) labels (off + 2)
  label :
      {off jumps behind : ℕ} {labels : List Bytes} (l : Bytes)
      → IsLabel l
      → index packet off ≡ ret (length l)
      → off + 1 + length l ≤ length packet
      → slice packet (off + 1) (off + 1 + length l) ≡ ret l
      → Spells packet (off + (1 + length l)) jumps labels behind
      → Spells packet off jumps (l ∷ labels) behind

pub grow-append :
    (acc : Bytes) (ls : List Bytes) (l : Bytes)
    → grow acc (ls ++ l ∷ []) ≡ with_label (grow acc ls) l
grow-append acc [] l = refl
grow-append acc (k ∷ ls) l = grow-append (with_label acc k) ls l

-- A text that is not empty gets a dot behind it.
pub with_label-dot :
    (acc l : Bytes) → length acc == 0 ≡ false → (acc ++ b'.' ∷ []) ++ l ≡ with_label acc l
with_label-dot [] l h = cc
with_label-dot (c ∷ acc) l h = refl

pub with_label-first : (acc l : Bytes) → length acc == 0 ≡ true → acc ++ l ≡ with_label acc l
with_label-first [] l h = refl
with_label-first (c ∷ acc) l h = absurd (ground arith)

pub Spells-IsLabel :
    {packet : Bytes} {off jumps behind : ℕ} {labels : List Bytes}
    → Spells packet off jumps labels behind
    → All IsLabel labels
Spells-IsLabel (ends found) = tt
Spells-IsLabel (jump size word found three inside there s) = Spells-IsLabel s
Spells-IsLabel (label l is found fits there s) = (is, Spells-IsLabel s)

-- Without an issue the name is that of labels that the packet spells within the limits, and the offset
-- is that behind them.
abbrev pub IsRead : Bytes → ℕ → Name → Type 0
IsRead packet start r =
    is_no_issue r.2 ≡ true
    → (jumps : ℕ) × (labels : List Bytes) × Spells packet start jumps labels r.1
      × (jumps ≤ 32)
      × (length labels ≤ 32)
      × (r.0 ≡ name labels)
