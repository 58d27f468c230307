-- ===== src/Fusion/Services/Describe.antt =====
-- What the records say of one service, and the names of the services.
use omnidiscover.Prelude.{
  Bool, not, ◌&&◌, ◌||◌, List, [], ◌∷◌, ◌++◌, ◌==◌, if◌then◌else◌, any, Bytes, equal,
}
use omnidiscover.Mdns.{type_a, type_ptr, type_txt, type_aaaa, type_srv}
use omnidiscover.Model.{Service, no_service}
use omnidiscover.Fusion.Services.{DnsEntry, named, store_ptr, store_srv, store_txt, store_address}

-- What a record does to a service
abbrev pub ptr_of : DnsEntry → Service → Service
ptr_of e s =
    if e.dns_record.type == type_ptr && equal s.instance_name e.dns_record.target
    then store_ptr e s
    else s

abbrev pub detail_of : DnsEntry → Service → Service
detail_of e s =
    if equal s.instance_name e.dns_record.name
    then (if e.dns_record.type == type_srv
        then store_srv e s
        else if e.dns_record.type == type_txt
        then store_txt e s
        else s)
    else s

abbrev pub address_of : DnsEntry → Service → Service
address_of e s =
    if (e.dns_record.type == type_a || e.dns_record.type == type_aaaa)
      && equal s.host e.dns_record.name
    then store_address e s
    else s

unfoldable pub each : (DnsEntry → Service → Service) → List DnsEntry → Service → Service
each f [] s = s
each f (e ∷ es) s = each f es (f e s)

-- The service of a name: what the PTR records that point to it say, then its SRV and TXT records,
-- then the addresses of its host.
unfoldable pub describe : List DnsEntry → Bytes → Service
unfolding each
describe es name = each address_of es (each detail_of es (each ptr_of es (named name no_service)))

abbrev pub is_among : List Bytes → Bytes → Bool
is_among names name = any (λ n. equal n name) names

-- The targets of the PTR records in order of their first appearance, without those seen before
unfoldable pub new_targets : List Bytes → List DnsEntry → List Bytes
new_targets seen [] = []
new_targets seen (e ∷ es) =
    let name = e.dns_record.target in
    let more = name ∷ new_targets (seen ++ name ∷ []) es in
    let others = new_targets seen es in
    if e.dns_record.type == type_ptr && not (is_among seen name) then more else others
