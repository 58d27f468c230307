-- ===== src/Fusion/Services/Rebuild.antt =====
-- The three loops of `rebuildServices`, one behind the other.
use omnidiscover.Prelude.{◌≡◌, refl, ap, ◌∙◌, List, [], ◌∷◌, ◌++◌, map, All}
use omnidiscover.Prelude.Int.{ℤ}
use omnidiscover.Model.{Service, no_service}
use omnidiscover.Fusion.Services.{
  DnsEntry, Buffer, entries, ptr_loop, detail_loop, rebuild_services,
}
use omnidiscover.Fusion.Services.Describe.{detail_of, address_of, each, describe, new_targets}
use omnidiscover.Fusion.Services.Named.{map-map, Distinct}
use omnidiscover.Fusion.Services.Names.{new_targets-Distinct}
use omnidiscover.Fusion.Services.Loops.{address_loop-each, detail_loop-each}
use omnidiscover.Fusion.Services.Round.{IsFresh}
use omnidiscover.Fusion.Services.Grown.{ptr_loop-AfterLoop}

spare-IsFresh :
    (live spare : List Service)
    → All IsFresh spare
    → All IsFresh (map (λ (_ : Service). no_service) live ++ spare)
spare-IsFresh [] spare h = h
spare-IsFresh (s ∷ live) spare h = (refl, spare-IsFresh live spare h)

-- The services are those that the records describe, one for each target of a PTR record in order of
-- first appearance, and no two have one name; what lies behind them is clear.
pub record Rebuilt (es : List DnsEntry) (b : Buffer) : Type 0 where
  pub services : b.live ≡ map (describe es) (new_targets [] es)
  pub distinct : Distinct (new_targets [] es)
  pub fresh : All IsFresh b.spare

-- Where what lies behind a device's services is clear, rebuildServices makes one service for each
-- target of a PTR record in use, in order of first appearance, whatever services there were before.
-- Each is what the records say of its name: the PTR records that point to it in their order, then its
-- SRV and TXT records, then the addresses of its host. What lies behind the services is clear again.
pub rebuild_services-Rebuilt :
    (dns : List DnsEntry) (indices : List ℤ) (b : Buffer)
    → All IsFresh b.spare
    → Rebuilt (entries dns indices) (rebuild_services dns indices b).0
unfolding rebuild_services describe
rebuild_services-Rebuilt dns indices b h =
    let es = entries dns indices in
    let cleared : Buffer = record {
      live = [];
      spare = map (λ (_ : Service). no_service) b.live ++ b.spare;
    } in
    let (services, distinct, fresh) =
      ptr_loop-AfterLoop es cleared tt (spare-IsFresh b.live b.spare h) in
    let details = detail_loop-each es (ptr_loop es cleared).live distinct in
    record {
      services =
          address_loop-each es (detail_loop es (ptr_loop es cleared).live)
          ∙ ap (map (each address_of es)) (details ∙ ap (map (each detail_of es)) services)
          ∙ ap (map (each address_of es)) (map-map (each detail_of es) _ (new_targets [] es))
          ∙ map-map (each address_of es) _ (new_targets [] es);
      distinct = new_targets-Distinct [] es;
      fresh = fresh;
    }
