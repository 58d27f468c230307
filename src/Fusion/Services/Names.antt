-- ===== src/Fusion/Services/Names.antt =====
-- The names of the services in order of first appearance.
use omnidiscover.Prelude.{
  ◌≡◌, refl, ◌∙◌, true, false, not, ◌&&◌, List, [], ◌∷◌, ◌++◌, ◌==◌, split_if, All, Bytes, equal,
  equal_iff, arith,
}
use omnidiscover.Mdns.{type_ptr}
use omnidiscover.Fusion.Services.{DnsEntry}
use omnidiscover.Fusion.Services.Describe.{is_among, new_targets}
use omnidiscover.Fusion.Services.Named.{Distinct, is_among-append}

pub new_targets-other :
    (seen : List Bytes) (n : Bytes) (es : List DnsEntry)
    → is_among seen n ≡ true
    → All (λ m. equal m n ≡ false) (new_targets seen es)
unfolding new_targets
new_targets-other seen n [] h = tt
new_targets-other seen n (e ∷ es) h =
    let name = e.dns_record.target in
    let others = new_targets-other seen n es h in
    let more =
      new_targets-other (seen ++ name ∷ []) n es (ground (arith, h, is_among-append seen name n)) in
    split_if (e.dns_record.type == type_ptr)
      (λ t.
        split_if (is_among seen name) (λ a. rw (t, a) others)
          λ a.
            let other : equal name n ≡ false =
              split_if (equal name n)
                (λ q. let same : name ≡ n = (equal_iff _ _).0 q in let bad = rw same at a in cc)
                λ q. q in
            rw (t, a) (other, more))
      λ t. rw t others

pub new_targets-known :
    (seen : List Bytes) (e : DnsEntry) (es : List DnsEntry)
    → is_among seen e.dns_record.target ≡ true
    → new_targets seen (e ∷ es) ≡ new_targets seen es
unfolding new_targets
new_targets-known seen e es a =
    split_if (e.dns_record.type == type_ptr) (λ t. rw (t, a) refl) λ t. rw t refl

pub new_targets-skip :
    (seen : List Bytes) (e : DnsEntry) (es : List DnsEntry)
    → (e.dns_record.type == type_ptr) ≡ false
    → new_targets seen (e ∷ es) ≡ new_targets seen es
unfolding new_targets
new_targets-skip seen e es t = rw t refl

pub new_targets-new :
    (seen : List Bytes) (e : DnsEntry) (es : List DnsEntry)
    → (e.dns_record.type == type_ptr) ≡ true
    → is_among seen e.dns_record.target ≡ false
    → new_targets seen (e ∷ es)
      ≡ e.dns_record.target ∷ new_targets (seen ++ e.dns_record.target ∷ []) es
unfolding new_targets
new_targets-new seen e es t a = rw (t, a) refl

none_among :
    (names : List Bytes) (n : Bytes) → All (λ m. equal m n ≡ false) names → is_among names n ≡ false
none_among [] n h = refl
none_among (m ∷ names) n h = rw (h.0, none_among names n h.1) refl

pub new_targets-Distinct : (seen : List Bytes) (es : List DnsEntry) → Distinct (new_targets seen es)
unfolding new_targets
new_targets-Distinct seen [] = tt
new_targets-Distinct seen (e ∷ es) =
    let name = e.dns_record.target in
    let itself : equal name name ≡ true = (equal_iff name name).1 refl in
    let present : is_among (seen ++ name ∷ []) name ≡ true =
      is_among-append seen name name ∙ ground (arith, itself) in
    let others = new_targets-Distinct seen es in
    let more = new_targets-Distinct (seen ++ name ∷ []) es in
    let absent = none_among _ name (new_targets-other (seen ++ name ∷ []) name es present) in
    split_if (e.dns_record.type == type_ptr && not (is_among seen name)) (λ t. rw t (absent, more))
      λ t. rw t others
