-- ===== src/Fusion/Services/Loops.antt =====
-- The second and the third loop of `rebuildServices`, by the service.
use mathlib.Core.Path.{fun_ext}
use omnidiscover.Prelude.{
  ◌≡◌, refl, sym, ap, ◌∙◌, Bool, true, false, List, [], ◌∷◌, ◌==◌, if◌then◌else◌, split_if, map,
  equal,
}
use omnidiscover.Mdns.{type_a, type_txt, type_aaaa, type_srv}
use omnidiscover.Model.{Service}
use omnidiscover.Fusion.Services.{
  DnsEntry, store_srv, store_txt, detail_step, detail_loop, address_step, address_loop,
}
use omnidiscover.Fusion.Services.Describe.{detail_of, address_of, each}
use omnidiscover.Fusion.Services.Named.{
  map-map, instances, Distinct, update, at_service-update, instances-update,
}

pub map_id {ℓ} : {A : Type ℓ} (xs : List A) → map (λ x. x) xs ≡ xs
map_id [] = refl
map_id (x ∷ xs) = ap (◌∷◌ x) (map_id xs)

if_same {ℓ} : {A : Type ℓ} (b : Bool) (x : A) → (if b then x else x) ≡ x
if_same true x = refl
if_same false x = refl

pub address_loop-each :
    (es : List DnsEntry) (services : List Service)
    → address_loop es services ≡ map (each address_of es) services
unfolding address_loop each
address_loop-each [] services = sym (map_id services)
address_loop-each (e ∷ es) services =
    let rest = address_loop-each es in
    split_if (e.dns_record.type == type_a)
      (λ t.
        let same : address_step e ≡ address_of e = fun_ext (λ s. rw t refl) in
        rw (t, same) (rest _ ∙ map-map (each address_of es) (address_of e) services))
      λ t.
        split_if (e.dns_record.type == type_aaaa)
          (λ t'.
            let same : address_step e ≡ address_of e = fun_ext (λ s. rw (t, t') refl) in
            rw (t, t', same) (rest _ ∙ map-map (each address_of es) (address_of e) services))
          λ t'.
            let same : address_of e ≡ (λ s. s) = fun_ext (λ s. rw (t, t') refl) in
            rw (t, t')
              (rest services ∙ ap (λ g. map (λ x. each address_of es (g x)) services) (sym same))

detail_step-detail_of :
    (e : DnsEntry) (services : List Service)
    → Distinct (instances services)
    → (detail_step e services ≡ map (detail_of e) services)
      × (instances (map (detail_of e) services) ≡ instances services)
detail_step-detail_of e services d =
    let name = e.dns_record.name in
    split_if (e.dns_record.type == type_srv)
      (λ t.
        let same : detail_of e ≡ update name (store_srv e) = fun_ext (λ s. rw t refl) in
        rw (same, t)
          (
            at_service-update name (store_srv e) services d,
            instances-update name (store_srv e) services (λ s. refl),
          ))
      λ t.
        split_if (e.dns_record.type == type_txt)
          (λ t'.
            let same : detail_of e ≡ update name (store_txt e) = fun_ext (λ s. rw (t, t') refl) in
            rw (same, t, t')
              (
                at_service-update name (store_txt e) services d,
                instances-update name (store_txt e) services (λ s. refl),
              ))
          λ t'.
            let same : detail_of e ≡ (λ s. s) =
              fun_ext (λ s. rw (t, t') (if_same (equal s.instance_name name) s)) in
            rw (same, t, t', map_id services) (refl, refl)

pub detail_loop-each :
    (es : List DnsEntry) (services : List Service)
    → Distinct (instances services)
    → detail_loop es services ≡ map (each detail_of es) services
unfolding detail_loop each
detail_loop-each [] services d = sym (map_id services)
detail_loop-each (e ∷ es) services d =
    let (step, same) = detail_step-detail_of e services d in
    rw step (
      detail_loop-each es (map (detail_of e) services) (rw same d)
      ∙ map-map (each detail_of es) (detail_of e) services)
