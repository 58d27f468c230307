-- ===== src/Net/Prefix.antt =====
-- `netip.Prefix`, as far as the code uses it: a valid prefix has an address without a zone, and at
-- most as many bits as that.
use omnidiscover.Prelude.{
  ℕ, ◌-◌, ◌/◌, ◌^◌, Bool, true, false, ◌&&◌, [], ◌∷◌, ltb, ◌==◌, if◌then◌else◌, Bytes, equal,
}
use omnidiscover.Net.{Addr, ip4, ip6}

-- Whether the first n bits of two addresses of equally many bytes agree.
unfoldable pub agree : ℕ → Bytes → Bytes → Bool
agree n (x ∷ xs) (y ∷ ys) =
    if ltb n 8 then x / 2 ^ (8 - n) == y / 2 ^ (8 - n) else x == y && agree (n - 8) xs ys
agree n _ _ = true

pub data Prefix : Type 0 where
  no_prefix : Prefix
  prefix : Addr → ℕ → Prefix

-- `Prefix.IsValid`
abbrev pub prefix_valid : Prefix → Bool
prefix_valid no_prefix = false
prefix_valid (prefix a bits) = true

-- `Prefix.Contains`: an address with a zone is in no prefix, nor is one of the other family.
unfoldable pub prefix_contains : Prefix → Addr → Bool
unfolding agree
prefix_contains (prefix (ip4 p) bits) (ip4 a) = agree bits p a
prefix_contains (prefix (ip6 p _) bits) (ip6 a zone) = equal zone [] && agree bits p a
prefix_contains _ _ = false
