-- ===== src/Vendor.antt =====
-- vendor.go: the vendor of a MAC by its longest prefix. The tables of vendor_registry_gen.go, which
-- a build generates, are a parameter. -1 is `none`, and prefixes are sums of their bytes' parts.
pub mod Search
pub mod Lookup
use omnidiscover.Prelude.{
  ℕ, suc, ◌+◌, ◌-◌, ◌*◌, ◌/◌, ◌%◌, ◌^◌, Bool, true, false, not, ◌&&◌, ◌||◌, List, [], ◌∷◌, Option,
  none, some, ltb, leb, ◌==◌, if◌then◌else◌, length, Bytes,
}
use omnidiscover.Go.{Go, ret, ◌>>=◌, index, slice, Round, next, done, loop}
use omnidiscover.Net.{Mac, is_zero, is_multicast}

pub data MacVendorSource : Type 0 where
  vendor_unknown ieee_mal ieee_mam ieee_mas locally_administered multicast : MacVendorSource

pub record MacVendorResult : Type 0 where
  pub name : Bytes
  pub prefix_bits : ℕ
  pub source : MacVendorSource

-- `MACVendorResult{}`
abbrev pub no_result : MacVendorResult
no_result = record { name = []; prefix_bits = 0; source = vendor_unknown }

-- One registry: its prefixes in order, where each bucket of them starts, and where their names are.
pub record Registry : Type 0 where
  pub prefixes : List ℕ
  pub buckets : List ℕ
  pub name_refs : List ℕ

pub record Registries : Type 0 where
  pub vendor36 : Registry
  pub vendor28 : Registry
  pub vendor24 : Registry
  pub name_data : Bytes

-- The variables of the loop of `searchUint32` and `searchUint64`.
pub record Bounds : Type 0 where
  pub lo : ℕ
  pub hi : ℕ

-- `if lo < len(values) && values[lo] == target`
pub found_at : List ℕ → ℕ → ℕ → Go (Option ℕ)
found_at values target lo =
    if ltb lo (length values)
    then (do v ← index values lo; ret (if v == target then some lo else none))
    else ret none

-- A round of `for lo < hi`
pub halve : List ℕ → ℕ → Bounds → Go (Round Bounds ℕ)
halve values target b = if leb b.hi b.lo then ret (done b.lo) else do
  let mid : ℕ = (b.lo + b.hi) / 2
  v ← index values mid
  ret (next (if ltb v target then record b { lo = mid + 1 } else record b { hi = mid }))

-- `searchUint32` and `searchUint64`
unfoldable pub search : List ℕ → ℕ → ℕ → ℕ → Go (Option ℕ)
unfolding halve found_at
search values target lo hi = do
  lo' ← loop (hi - lo + 1) (halve values target) (record { lo = lo; hi = hi })
  found_at values target lo'

-- `vendorResult`
unfoldable pub vendor_result : Bytes → ℕ → ℕ → MacVendorSource → Go MacVendorResult
vendor_result name_data ref bits source =
    let offset : ℕ = ref / 256 in
    let size : ℕ = ref % 256 in
    if size == 0 || ltb (length name_data) (offset + size) then ret no_result else do
      name ← slice name_data offset (offset + size)
      ret (record { name = name; prefix_bits = bits; source = source })

-- The search of one registry, in the bucket of the prefix.
unfoldable pub search_registry : Registry → ℕ → ℕ → Go (Option ℕ)
unfolding search
search_registry r prefix bucket = do
  lo ← index r.buckets bucket
  hi ← index r.buckets (bucket + 1)
  search r.prefixes prefix lo hi

-- `if i := search(...); i >= 0 { return ... }`, before the rest
unfoldable pub or_next :
    Bytes → Registry → ℕ → MacVendorSource → Go MacVendorResult → Option ℕ → Go MacVendorResult
unfolding vendor_result
or_next name_data r bits source rest none = rest
or_next name_data r bits source rest (some i) = do
  ref ← index r.name_refs i
  vendor_result name_data ref bits source

-- The three prefixes of a MAC.
abbrev pub prefix36 : (a b c d e : ℕ) → ℕ
prefix36 a b c d e = a * 2 ^ 28 + b * 2 ^ 20 + c * 2 ^ 12 + d * 2 ^ 4 + e / 16

abbrev pub prefix28 : (a b c d : ℕ) → ℕ
prefix28 a b c d = a * 2 ^ 20 + b * 2 ^ 12 + c * 2 ^ 4 + d / 16

abbrev pub prefix24 : (a b c : ℕ) → ℕ
prefix24 a b c = a * 2 ^ 16 + b * 2 ^ 8 + c

-- The searches, for a unicast MAC of a registry.
pub lookup_prefixes : Registries → (a b c d e : ℕ) → Go MacVendorResult
unfolding search_registry or_next
lookup_prefixes t a b c d e = do
  i36 ← search_registry t.vendor36 (prefix36 a b c d e) (prefix36 a b c d e / 2 ^ 24)
  or_next t.name_data t.vendor36 36 ieee_mas
      (do
        i28 ← search_registry t.vendor28 (prefix28 a b c d) (prefix28 a b c d / 2 ^ 16)
        or_next t.name_data t.vendor28 28 ieee_mam
            (do
              i24 ← search_registry t.vendor24 (prefix24 a b c) (prefix24 a b c / 2 ^ 12)
              or_next t.name_data t.vendor24 24 ieee_mal (ret no_result) i24)
            i28)
      i36

-- `LookupMACVendor`
unfoldable pub lookup_mac_vendor : Registries → Mac → Go MacVendorResult
unfolding lookup_prefixes
lookup_mac_vendor t mac =
    if is_zero mac
    then ret no_result
    else if is_multicast mac
    then ret (record no_result { source = multicast })
    else do
      a ← index mac 0
      if a / 2 % 2 == 1 then ret (record no_result { source = locally_administered }) else do
        b ← index mac 1
        c ← index mac 2
        d ← index mac 3
        e ← index mac 4
        lookup_prefixes t a b c d e
