-- ===== src/Capture/Filter/Program.antt =====
-- The checks that the kernel makes on the filter's program.
use omnidiscover.Prelude.{
  any, ℕ, ◌+◌, ◌<◌, ◌≡◌, refl, Bool, true, false, ◌&&◌, ◌||◌, List, [], ◌∷◌, ltb, leb, ◌==◌, length,
}
use omnidiscover.Prelude.Bits.{all_below, all_below_sound}
use omnidiscover.Go.{Go, ret, panic, hang}
use omnidiscover.Capture.Builder.{FilterInsn}
use omnidiscover.Capture.Filter.{discovery_filter}

abbrev is_among : List ℕ → ℕ → Bool
is_among codes code = any (λ c. c == code) codes

-- Codes that the kernel takes with any operand: loads at X, of a constant and of the length, arithmetic
-- but for divisions and shifts by a constant, returns, and copies between A and X
abbrev plain_codes : List ℕ
plain_codes =
    0x00 ∷ 0x40 ∷ 0x48 ∷ 0x50 ∷ 0x80 ∷ 0x01 ∷ 0x81 ∷ 0xb1 ∷ 0x04 ∷ 0x0c ∷ 0x14 ∷ 0x1c ∷ 0x24 ∷ 0x2c
    ∷ 0x3c ∷ 0x44 ∷ 0x4c ∷ 0x54 ∷ 0x5c ∷ 0x6c ∷ 0x7c ∷ 0x84 ∷ 0x9c ∷ 0xa4 ∷ 0xac ∷ 0x06 ∷ 0x16
    ∷ 0x07 ∷ 0x87 ∷ []

-- Loads of 4, 2 and 1 bytes at a constant offset: one from 0xfffff000 on names no byte of the packet.
abbrev absolute_codes : List ℕ
absolute_codes = 0x20 ∷ 0x28 ∷ 0x30 ∷ []

-- Jumps on =, >, >= and &, each on a constant and on X
abbrev jump_codes : List ℕ
jump_codes = 0x15 ∷ 0x1d ∷ 0x25 ∷ 0x2d ∷ 0x35 ∷ 0x3d ∷ 0x45 ∷ 0x4d ∷ []

-- The kernel's check of the instruction at `pc` of n. A code that it takes only under a condition on the
-- operand, or with the scratch memory, is not taken here.
abbrev allowed : ℕ → ℕ → FilterInsn → Bool
allowed n pc i =
    is_among plain_codes i.code
    || (is_among absolute_codes i.code && ltb i.k 0xfffff000
        || is_among jump_codes i.code && (ltb (pc + 1 + i.jt) n && ltb (pc + 1 + i.jf) n))

-- From the instruction at `pc` on: each is allowed, and the last returns a constant or A.
unfoldable pub accepted_from : ℕ → ℕ → List FilterInsn → Bool
accepted_from n pc [] = false
accepted_from n pc (i ∷ []) = i.code == 0x06 || i.code == 0x16
accepted_from n pc (i ∷ j ∷ rest) = allowed n pc i && accepted_from n (pc + 1) (j ∷ rest)

abbrev pub accepted : Go (List FilterInsn) → Bool
accepted (ret ins) = leb (length ins) 4096 && accepted_from (length ins) 0 ins
accepted panic = false
accepted hang = false

accepted_table : (snaplen : ℕ) → all_below 16 (λ p. accepted (discovery_filter p snaplen)) ≡ true
unfolding discovery_filter accepted_from all_below
accepted_table snaplen = refl

-- For every set of the four protocols and every length, discoveryFilter returns without a panic: no
-- jump of its program exceeds the range of a byte. The program passes the kernel's checks of classic
-- BPF: at most 4096 instructions, each of a code that there is, loads at constant offsets of the packet,
-- jumps that end inside, and a return at the end.
pub discovery_filter-accepted :
    (protocols snaplen : ℕ) → protocols < 16 → accepted (discovery_filter protocols snaplen) ≡ true
discovery_filter-accepted protocols snaplen h =
    all_below_sound 16 (λ p. accepted (discovery_filter p snaplen)) (accepted_table snaplen)
      protocols h
