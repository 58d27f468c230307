-- ===== src/Fusion/Services.antt =====
-- fusion.go: `rebuildServices`, which makes the services of a device from the DNS records in its cache.
-- The index of a record may be stale: one out of range or not in use is passed over. Behind the
-- services of the device, its slice has those of earlier times, which `ensureService` takes again.
pub mod Describe
pub mod Named
pub mod Names
pub mod Loops
pub mod Round
pub mod Grown
pub mod Rebuild
use omnidiscover.Prelude.{
  ℕ, zero, suc, ◌+◌, Bool, true, false, not, ◌&&◌, ◌||◌, List, [], ◌∷◌, ◌++◌, Option, none, some,
  ltb, ◌==◌, if◌then◌else◌, length, map, bit_or, Bytes, equal,
}
use omnidiscover.Prelude.Int.{ℤ, pos, negsuc}
use omnidiscover.Protocol.{protocols_mdns}
use omnidiscover.Net.{append_unique_addr}
use omnidiscover.Mdns.{DnsRecord, type_a, type_ptr, type_txt, type_aaaa, type_srv}
use omnidiscover.Model.{Time, Service, no_service}
use omnidiscover.Fusion.Times.{min_non_zero_time}

-- `dnsEntry`, as far as the services read it
pub record DnsEntry : Type 0 where
  pub used : Bool
  pub dns_record : DnsRecord
  pub expires_at : Time

-- The device's slice of services, and what lies behind its length within its capacity
pub record Buffer : Type 0 where
  pub live : List Service
  pub spare : List Service

-- `dnsDomain`, with the dots so far
pub domain_from : ℕ → Bytes → Bytes
domain_from dots [] = []
domain_from dots (c ∷ name) =
    let same = domain_from dots name in
    let next = domain_from (dots + 1) name in
    if c == b'.' then (if dots + 1 == 2 && ltb 0 (length name) then name else next) else same

unfoldable pub dns_domain : Bytes → Bytes
unfolding domain_from
dns_domain name = domain_from 0 name

-- `findService`
unfoldable pub find_service : List Service → Bytes → Option ℕ
find_service [] name = none
find_service (s ∷ services) name =
    let rest = find_service services name in
    if equal s.instance_name name then some 0 else elim rest [ none ↦ none | some i ↦ some (suc i) ]

-- What is written through a pointer to service i
unfoldable pub modify : ℕ → (Service → Service) → List Service → List Service
modify i f [] = []
modify zero f (s ∷ services) = f s ∷ services
modify (suc i) f (s ∷ services) = s ∷ modify i f services

-- A service that `ensureService` adds, over what lay in its place
abbrev pub named : Bytes → Service → Service
named name s = record s { instance_name = name; protocols = protocols_mdns }

abbrev pub add_service : List Service → List Service → Bytes → Buffer
add_service live [] name = record { live = live ++ named name no_service ∷ []; spare = [] }
add_service live (s ∷ spare) name = record { live = live ++ named name s ∷ []; spare = spare }

abbrev pub ensured : Buffer → Bytes → Option ℕ → Buffer × ℕ
ensured b name (some i) = (b, i)
ensured b name none = (add_service b.live b.spare name, length b.live)

-- `ensureService`, which returns a pointer to the service
unfoldable pub ensure_service : Buffer → Bytes → Buffer × ℕ
ensure_service b name = ensured b name (find_service b.live name)

-- What a record writes to its service
abbrev pub store_ptr : DnsEntry → Service → Service
store_ptr e s = record s {
  type = e.dns_record.name;
  domain = dns_domain e.dns_record.name;
  protocols = bit_or s.protocols protocols_mdns;
  expires_at = min_non_zero_time s.expires_at e.expires_at;
}

abbrev pub store_srv : DnsEntry → Service → Service
store_srv e s = record s {
  host = e.dns_record.target;
  port = e.dns_record.port;
  protocols = bit_or s.protocols protocols_mdns;
  expires_at = min_non_zero_time s.expires_at e.expires_at;
}

abbrev pub store_txt : DnsEntry → Service → Service
store_txt e s = record s {
  txt = e.dns_record.txt;
  protocols = bit_or s.protocols protocols_mdns;
  expires_at = min_non_zero_time s.expires_at e.expires_at;
}

abbrev pub store_address : DnsEntry → Service → Service
store_address e s = record s { addresses = append_unique_addr s.addresses e.dns_record.address }

-- The entries that the loops do not pass over
abbrev pub used_entry : Option DnsEntry → List DnsEntry → List DnsEntry
used_entry none rest = rest
used_entry (some e) rest = if e.used then e ∷ rest else rest

unfoldable pub entry_at : List DnsEntry → ℕ → Option DnsEntry
entry_at [] i = none
entry_at (e ∷ dns) zero = some e
entry_at (e ∷ dns) (suc i) = entry_at dns i

unfoldable pub entries : List DnsEntry → List ℤ → List DnsEntry
entries dns [] = []
entries dns (negsuc i ∷ indices) = entries dns indices
entries dns (pos i ∷ indices) = used_entry (entry_at dns i) (entries dns indices)

-- The first loop: a service for each PTR record
abbrev pub ptr_step : DnsEntry → Buffer → Buffer
ptr_step e b =
    let (b', i) = ensure_service b e.dns_record.target in
    record b' { live = modify i (store_ptr e) b'.live }

unfoldable pub ptr_loop : List DnsEntry → Buffer → Buffer
unfolding ensure_service modify
ptr_loop [] b = b
ptr_loop (e ∷ es) b =
    let next = (if e.dns_record.type == type_ptr then ptr_step e b else b) in ptr_loop es next

-- The second loop: the details of SRV and TXT records
abbrev pub at_service : Option ℕ → (Service → Service) → List Service → List Service
at_service none f services = services
at_service (some i) f services = modify i f services

abbrev pub detail_step : DnsEntry → List Service → List Service
detail_step e services =
    if e.dns_record.type == type_srv
    then at_service (find_service services e.dns_record.name) (store_srv e) services
    else if e.dns_record.type == type_txt
    then at_service (find_service services e.dns_record.name) (store_txt e) services
    else services

unfoldable pub detail_loop : List DnsEntry → List Service → List Service
unfolding modify
detail_loop [] services = services
detail_loop (e ∷ es) services = detail_loop es (detail_step e services)

-- The third loop: the addresses of the hosts
abbrev pub address_step : DnsEntry → Service → Service
address_step e s = if equal s.host e.dns_record.name then store_address e s else s

unfoldable pub address_loop : List DnsEntry → List Service → List Service
address_loop [] services = services
address_loop (e ∷ es) services = address_loop es (
    if not (e.dns_record.type == type_a) && not (e.dns_record.type == type_aaaa)
    then services
    else map (address_step e) services)

-- `rebuildServices`, and whether the number of services is another
unfoldable pub rebuild_services : List DnsEntry → List ℤ → Buffer → Buffer × Bool
unfolding entries ptr_loop detail_loop address_loop
rebuild_services dns indices b =
    let es = entries dns indices in
    let cleared : Buffer = record { live = []; spare = map (λ _. no_service) b.live ++ b.spare } in
    let built = ptr_loop es cleared in
    let services = address_loop es (detail_loop es built.live) in
    (record built { live = services }, not (length b.live == length services))
