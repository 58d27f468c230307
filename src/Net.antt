-- ===== src/Net.antt =====
-- The addresses of model.go (`MAC`), of cdp.go (`appendUniqueAddr`) and of bytes.go
-- (`appendUniqueMAC`), and the part of the standard library's `net/netip` that they use.
-- An array `[n]byte` is a list of n bytes. Storage that a caller reuses is not modelled: a buffer
-- is the bytes that it holds, so `copyBytes(dst, src)` is `src`.
pub mod Unique
pub mod Prefix
use omnidiscover.Prelude.{
  ℕ, ◌+◌, ◌%◌, Bool, true, false, not, ◌&&◌, ◌||◌, List, [], ◌∷◌, ◌++◌, ◌==◌, if◌then◌else◌, Bytes,
  equal, get_or, take, drop, length, ◌≡◌,
}

-- `MAC`, which is `[6]byte`
abbrev pub Mac : Type 0
Mac = Bytes

abbrev pub zero_mac : Mac
zero_mac = 0 ∷ 0 ∷ 0 ∷ 0 ∷ 0 ∷ 0 ∷ []

-- `MAC.IsZero`
unfoldable pub is_zero : Mac → Bool
is_zero m = equal m zero_mac

-- `MAC.IsMulticast`: `m[0]&1 != 0`
unfoldable pub is_multicast : Mac → Bool
is_multicast m = get_or m 0 0 % 2 == 1

-- `MAC.IsUnicast`
unfoldable pub is_unicast : Mac → Bool
unfolding is_zero is_multicast
is_unicast m = not (is_zero m) && not (is_multicast m)

-- `netip.Addr`: none, four bytes, or sixteen bytes with a zone
pub data Addr : Type 0 where
  no_addr : Addr
  ip4 : Bytes → Addr
  ip6 : Bytes → Bytes → Addr

-- `Addr.IsValid`
abbrev pub is_valid : Addr → Bool
is_valid no_addr = false
is_valid (ip4 _) = true
is_valid (ip6 _ _) = true

-- The bytes in front of an IPv4 address that is mapped into IPv6.
abbrev pub mapped_prefix : Bytes
mapped_prefix = 0 ∷ 0 ∷ 0 ∷ 0 ∷ 0 ∷ 0 ∷ 0 ∷ 0 ∷ 0 ∷ 0 ∷ 255 ∷ 255 ∷ []

-- `Addr.Unmap`
unfoldable pub unmap : Addr → Addr
unmap no_addr = no_addr
unmap (ip4 b) = ip4 b
unmap (ip6 b zone) = if equal (take 12 b) mapped_prefix then ip4 (drop 12 b) else ip6 b zone

-- `==` on addresses
abbrev pub addr_eq : Addr → Addr → Bool
addr_eq no_addr no_addr = true
addr_eq (ip4 a) (ip4 b) = equal a b
addr_eq (ip6 a z) (ip6 b w) = equal a b && equal z w
addr_eq _ _ = false

unfoldable pub contains_addr : List Addr → Addr → Bool
contains_addr [] a = false
contains_addr (x ∷ xs) a = addr_eq x a || contains_addr xs a

-- `appendUniqueAddr`
unfoldable pub append_unique_addr : List Addr → Addr → List Addr
unfolding contains_addr
append_unique_addr dst a =
    if not (is_valid a)
    then dst
    else if contains_addr dst (unmap a)
    then dst
    else dst ++ unmap a ∷ []

-- `slices.Contains`
pub contains_mac : List Mac → Mac → Bool
contains_mac [] m = false
contains_mac (x ∷ xs) m = equal x m || contains_mac xs m

-- `appendUniqueMAC`
unfoldable pub append_unique_mac : List Mac → Mac → List Mac
unfolding contains_mac
append_unique_mac dst m = if contains_mac dst m then dst else dst ++ m ∷ []

-- An address that the program can hold: of four or of sixteen bytes.
abbrev pub IsAddr : Addr → Type 0
IsAddr no_addr = Unit {0}
IsAddr (ip4 b) = length b ≡ 4
IsAddr (ip6 b zone) = length b ≡ 16
