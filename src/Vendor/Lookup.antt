-- ===== src/Vendor/Lookup.antt =====
-- `LookupMACVendor` matches the longest prefix.
use omnidiscover.Prelude.{
  ℕ, ◌+◌, ◌/◌, ◌%◌, ◌^◌, ◌≤◌, ◌<◌, ◌≡◌, ◌≢◌, refl, sym, Bool, true, false, not, ◌&&◌, ◌||◌, [], ◌∷◌,
  Option, none, some, ltb, ◌==◌, split_if, length, arith, Bytes, All, IsByte,
}
use omnidiscover.Go.{Go, index}
use omnidiscover.Go.Ensures.{Ensures, ensures, Ensures-bind, Ensures-mono, slice_lem}
use omnidiscover.Net.{Mac, is_zero, is_multicast}
use omnidiscover.Vendor.{
  MacVendorSource, ieee_mal, ieee_mam, ieee_mas, MacVendorResult, no_result, Registry, Registries,
  vendor_result, search_registry, or_next, prefix36, prefix28, prefix24, lookup_prefixes,
  lookup_mac_vendor,
}
use omnidiscover.Vendor.Search.{at, Sorted, index-at, Finds, search-Finds}

-- A registry whose buckets are those of the high 12 bits of its prefixes, which have `low` more,
-- and whose references lie inside the names, none of them empty.
pub record IsRegistry (low names_size : ℕ) (r : Registry) : Type 0 where
  pub sorted : Sorted r.prefixes
  pub refs :
      (i : ℕ)
      → i < length r.name_refs
      → (at r.name_refs i % 256 ≢ 0)
        × (at r.name_refs i / 256 + at r.name_refs i % 256 ≤ names_size)
  pub names : length r.name_refs ≡ length r.prefixes
  pub buckets : length r.buckets ≡ 4097
  pub order :
      (b : ℕ)
      → b < 4096
      → (at r.buckets b ≤ at r.buckets (b + 1)) × (at r.buckets (b + 1) ≤ length r.prefixes)
  pub bucket :
      (i : ℕ)
      → i < length r.prefixes
      → (at r.buckets (at r.prefixes i / 2 ^ low) ≤ i)
        × (i < at r.buckets (at r.prefixes i / 2 ^ low + 1))

pub record AreRegistries (t : Registries) : Type 0 where
  pub vendor36 : IsRegistry 24 (length t.name_data) t.vendor36
  pub vendor28 : IsRegistry 16 (length t.name_data) t.vendor28
  pub vendor24 : IsRegistry 12 (length t.name_data) t.vendor24

abbrev pub Lists : Registry → ℕ → Type 0
Lists r prefix = (i : ℕ) × (i < length r.prefixes) × (at r.prefixes i ≡ prefix)

abbrev pub Lacks : Registry → ℕ → Type 0
Lacks r prefix = (i : ℕ) → i < length r.prefixes → at r.prefixes i ≢ prefix

abbrev Searched : Registry → ℕ → Option ℕ → Type 0
Searched r prefix none = Lacks r prefix
Searched r prefix (some i) = (i < length r.prefixes) × (at r.prefixes i ≡ prefix)

module _ (low size : ℕ) (r : Registry) (g : IsRegistry low size r) (prefix : ℕ)
    (h : prefix / 2 ^ low < 4096) where
  in_bucket :
      (i : ℕ)
      → i < length r.prefixes
      → at r.prefixes i ≡ prefix
      → (at r.buckets (prefix / 2 ^ low) ≤ i) × (i < at r.buckets (prefix / 2 ^ low + 1))
  in_bucket i lt e = rw (sym e) (g.bucket i lt)

  to_Searched :
      (o : Option ℕ)
      → Finds r.prefixes prefix
          (at r.buckets (prefix / 2 ^ low))
          (at r.buckets (prefix / 2 ^ low + 1))
          o
      → Searched r prefix o
  to_Searched none f = λ i lt e. let (le, lt') = in_bucket i lt e in f i le lt' e
  to_Searched (some i) f = f

  search_registry-Searched :
      Ensures (Searched r prefix) (search_registry r prefix (prefix / 2 ^ low))
  unfolding search_registry
  search_registry-Searched =
      let (order, inside) = g.order (prefix / 2 ^ low) h in
      rw
        (
          index-at r.buckets (prefix / 2 ^ low) (omega (arith, g.buckets)),
          index-at r.buckets (prefix / 2 ^ low + 1) (omega (arith, g.buckets)),
        )
        (Ensures-mono (search-Finds r.prefixes prefix _ _ g.sorted order inside) to_Searched)

-- A result of the registry with so many bits.
abbrev pub Names : ℕ → MacVendorSource → MacVendorResult → Type 0
Names bits source r = (r.source ≡ source) × (r.prefix_bits ≡ bits)

vendor_result-Names :
    (name_data : Bytes) (ref bits : ℕ) (source : MacVendorSource)
    → ref % 256 ≢ 0
    → ref / 256 + ref % 256 ≤ length name_data
    → Ensures (Names bits source) (vendor_result name_data ref bits source)
unfolding vendor_result
vendor_result-Names name_data ref bits source some_size fits =
    split_if (ref % 256 == 0 || ltb (length name_data) (ref / 256 + ref % 256))
      (λ t. absurd (ground arith))
      λ t.
        rw (t, slice_lem name_data (ref / 256) (ref / 256 + ref % 256) (omega arith) fits)
          (ensures (refl, refl))

or_next-Ensures :
    (P : MacVendorResult → Type 0) (name_data : Bytes) (low : ℕ) (r : Registry) (prefix bits : ℕ)
    (source : MacVendorSource) (rest : Go MacVendorResult) (o : Option ℕ)
    → IsRegistry low (length name_data) r
    → Searched r prefix o
    → (Lacks r prefix → Ensures P rest)
    → (Lists r prefix → (res : MacVendorResult) → Names bits source res → P res)
    → Ensures P (or_next name_data r bits source rest o)
unfolding or_next
or_next-Ensures P name_data low r prefix bits source rest none g s absent found = absent s
or_next-Ensures P name_data low r prefix bits source rest (some i) g (lt, e) absent found =
    let (some_size, fits) = g.refs i (omega (arith, g.names)) in
    rw (index-at r.name_refs i (omega (arith, g.names))) (
      Ensures-mono (vendor_result-Names name_data (at r.name_refs i) bits source some_size fits)
        (found (i, lt, e)))

-- The registry that a result comes from lists the prefix, and those with longer prefixes lack theirs.
pub data Longest (t : Registries) (p36 p28 p24 : ℕ) (r : MacVendorResult) : Type 0 where
  longest_none :
      r ≡ no_result
      → Lacks t.vendor36 p36
      → Lacks t.vendor28 p28
      → Lacks t.vendor24 p24
      → Longest t p36 p28 p24 r
  longest36 :
      r.source ≡ ieee_mas → r.prefix_bits ≡ 36 → Lists t.vendor36 p36 → Longest t p36 p28 p24 r
  longest28 :
      r.source ≡ ieee_mam
      → r.prefix_bits ≡ 28
      → Lists t.vendor28 p28
      → Lacks t.vendor36 p36
      → Longest t p36 p28 p24 r
  longest24 :
      r.source ≡ ieee_mal
      → r.prefix_bits ≡ 24
      → Lists t.vendor24 p24
      → Lacks t.vendor28 p28
      → Lacks t.vendor36 p36
      → Longest t p36 p28 p24 r

abbrev LongestAt : Registries → (a b c d e : ℕ) → MacVendorResult → Type 0
LongestAt t a b c d e = Longest t (prefix36 a b c d e) (prefix28 a b c d) (prefix24 a b c)

lookup_prefixes-Longest :
    (t : Registries) (a b c d e : ℕ)
    → AreRegistries t
    → a < 256
    → b < 256
    → c < 256
    → d < 256
    → e < 256
    → Ensures (LongestAt t a b c d e) (lookup_prefixes t a b c d e)
unfolding lookup_prefixes
lookup_prefixes-Longest t a b c d e g ha hb hc hd he =
    Ensures-bind
      (search_registry-Searched 24 (length t.name_data) t.vendor36 g.vendor36 (prefix36 a b c d e)
        (omega arith))
      λ i36 s36.
        or_next-Ensures (LongestAt t a b c d e) t.name_data 24 t.vendor36 (prefix36 a b c d e) 36
          ieee_mas _ i36 g.vendor36 s36
          (λ lacks36.
            Ensures-bind
              (search_registry-Searched 16 (length t.name_data) t.vendor28 g.vendor28
                (prefix28 a b c d) (omega arith))
              λ i28 s28.
                or_next-Ensures (LongestAt t a b c d e) t.name_data 16 t.vendor28 (prefix28 a b c d)
                  28 ieee_mam _ i28 g.vendor28 s28
                  (λ lacks28.
                    Ensures-bind
                      (search_registry-Searched 12 (length t.name_data) t.vendor24 g.vendor24
                        (prefix24 a b c) (omega arith))
                      λ i24 s24.
                        or_next-Ensures (LongestAt t a b c d e) t.name_data 12 t.vendor24
                          (prefix24 a b c) 24 ieee_mal _ i24 g.vendor24 s24
                          (λ lacks24. ensures (longest_none refl lacks36 lacks28 lacks24))
                          λ lists res (src, bits). longest24 src bits lists lacks28 lacks36)
                  λ lists res (src, bits). longest28 src bits lists lacks36)
          λ lists res (src, bits). longest36 src bits lists

-- An address whose vendor is looked for: neither zero, nor a group's, nor locally administered.
abbrev pub is_global : Mac → ℕ → Bool
is_global mac a = not (is_zero mac) && not (is_multicast mac) && not (a / 2 % 2 == 1)

-- What the vendor of a MAC is: the longest prefix's, or no name.
abbrev pub Looked : Registries → (a b c d e : ℕ) → Bool → MacVendorResult → Type 0
Looked t a b c d e true r = LongestAt t a b c d e r
Looked t a b c d e false r = (r.name ≡ []) × (r.prefix_bits ≡ 0)

-- Over well-formed registries `LookupMACVendor` returns for every MAC. A MAC that is zero, of a
-- group or locally administered gets no name. For another, the result comes from the registry with
-- the longest prefix: that registry lists the MAC's prefix, and those with longer ones do not; and
-- the MAC gets the empty result only where no registry lists it.
pub lookup_mac_vendor-Longest :
    (t : Registries) (a b c d e f : ℕ)
    → AreRegistries t
    → All IsByte (a ∷ b ∷ c ∷ d ∷ e ∷ f ∷ [])
    → Ensures
        (Looked t a b c d e (is_global (a ∷ b ∷ c ∷ d ∷ e ∷ f ∷ []) a))
        (lookup_mac_vendor t (a ∷ b ∷ c ∷ d ∷ e ∷ f ∷ []))
unfolding lookup_mac_vendor index
lookup_mac_vendor-Longest t a b c d e f g (ha, (hb, (hc, (hd, (he, _))))) =
    split_if (is_zero (a ∷ b ∷ c ∷ d ∷ e ∷ f ∷ [])) (λ x. rw x (ensures (refl, refl)))
      λ x. rw x (
        split_if (is_multicast (a ∷ b ∷ c ∷ d ∷ e ∷ f ∷ [])) (λ y. rw y (ensures (refl, refl)))
          λ y. rw y (
            split_if (a / 2 % 2 == 1) (λ z. rw z (ensures (refl, refl)))
              λ z. rw z (lookup_prefixes-Longest t a b c d e g ha hb hc hd he)))
