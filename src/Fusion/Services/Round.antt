-- ===== src/Fusion/Services/Round.antt =====
-- A round of the first loop of `rebuildServices`, for a PTR record.
use mathlib.Core.Path.{subst}
use omnidiscover.Prelude.{
  ℕ, ◌≡◌, sym, ap, Bool, true, false, List, [], ◌∷◌, ◌++◌, Option, none, some, split_if, length,
  map, All,
}
use omnidiscover.Model.{Service, no_service}
use omnidiscover.Fusion.Services.{
  DnsEntry, Buffer, modify, named, add_service, ensured, ensure_service, store_ptr, ptr_step,
}
use omnidiscover.Fusion.Services.Describe.{is_among}
use omnidiscover.Fusion.Services.Named.{
  instances, Distinct, update, at_service-update, find_service-none, find_service-some,
  modify-length,
}

abbrev pub IsFresh : Service → Type 0
IsFresh s = s ≡ no_service

-- What a PTR record leaves: a service of its name, written to
abbrev pub AfterPtr : DnsEntry → Buffer → Buffer → Bool → Type 0
AfterPtr e b b' true =
    (b'.live ≡ map (update e.dns_record.target (store_ptr e)) b.live) × All IsFresh b'.spare
AfterPtr e b b' false =
    (b'.live ≡ b.live ++ store_ptr e (named e.dns_record.target no_service) ∷ [])
    × All IsFresh b'.spare

ptr_step-new :
    (e : DnsEntry) (live spare : List Service)
    → All IsFresh spare
    → AfterPtr e
        (record { live = live; spare = spare })
        (let b' = add_service live spare e.dns_record.target in
          record b' { live = modify (length live) (store_ptr e) b'.live })
        false
ptr_step-new e live [] h = (modify-length (store_ptr e) live _, tt)
ptr_step-new e live (s ∷ spare) h = rw h.0 (modify-length (store_ptr e) live _, h.1)

pub ptr_step-AfterPtr :
    (e : DnsEntry) (b : Buffer)
    → Distinct (instances b.live)
    → All IsFresh b.spare
    → AfterPtr e b (ptr_step e b) (is_among (instances b.live) e.dns_record.target)
unfolding ensure_service
ptr_step-AfterPtr e b d h =
    let name = e.dns_record.target in
    let step = λ (o : Option ℕ).
      let (b', i) = ensured b name o in record b' { live = modify i (store_ptr e) b'.live } in
    split_if (is_among (instances b.live) name)
      (λ t.
        let (i, found) = find_service-some b.live name t in
        let written = at_service-update name (store_ptr e) b.live d in
        let stepped : ptr_step e b ≡ step (some i) = ap step found in
        rw t (subst (λ b'. AfterPtr e b b' true) (sym stepped) (rw found at written, h)))
      λ t.
        let stepped : ptr_step e b ≡ step none = ap step (find_service-none b.live name t) in
        rw t (subst (λ b'. AfterPtr e b b' false) (sym stepped) (ptr_step-new e b.live b.spare h))
