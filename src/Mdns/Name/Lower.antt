-- ===== src/Mdns/Name/Lower.antt =====
-- `lowerDNSName` of mdns.go.
use omnidiscover.Prelude.{
  ℕ, ◌<◌, ◌≡◌, refl, false, ◌&&◌, [], ◌∷◌, arith, leb, length, Bytes, All, IsByte,
}
use omnidiscover.Mdns.Name.{lower_byte, lower_dns_name}

lower_byte-IsByte : (c : ℕ) → c < 256 → lower_byte c < 256
unfolding lower_byte
lower_byte-IsByte c h = ground arith

-- Lowering keeps bytes bytes.
pub lower_dns_name-IsByte : (b : Bytes) → All IsByte b → All IsByte (lower_dns_name b)
unfolding lower_dns_name
lower_dns_name-IsByte [] a = tt
lower_dns_name-IsByte (c ∷ b) a = (lower_byte-IsByte c a.0, lower_dns_name-IsByte b a.1)

pub length-lower_dns_name : (b : Bytes) → length (lower_dns_name b) ≡ length b
unfolding lower_dns_name
length-lower_dns_name [] = refl
length-lower_dns_name (c ∷ b) = omega (arith, length-lower_dns_name b)

-- No capital letter.
abbrev pub IsLower : ℕ → Type 0
IsLower c = (leb b'A' c && leb c b'Z') ≡ false

lower_byte-IsLower : (c : ℕ) → IsLower (lower_byte c)
unfolding lower_byte
lower_byte-IsLower c = ground arith

pub lower_dns_name-IsLower : (b : Bytes) → All IsLower (lower_dns_name b)
unfolding lower_dns_name
lower_dns_name-IsLower [] = tt
lower_dns_name-IsLower (c ∷ b) = (lower_byte-IsLower c, lower_dns_name-IsLower b)
