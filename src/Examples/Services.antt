-- ===== src/Examples/Services.antt =====
-- Runs of `rebuildServices` on three records, and of the theorem at them.
use omnidiscover.Prelude.{◌≡◌, refl, true, false, List, [], ◌∷◌}
use omnidiscover.Prelude.Int.{ℤ, pos, negsuc}
use omnidiscover.Net.{ip4, no_addr}
use omnidiscover.Mdns.{DnsRecord, type_a, type_ptr, type_srv}
use omnidiscover.Model.{no_service}
use omnidiscover.Fusion.Services.{DnsEntry, Buffer, dns_domain, entry_at, entries, rebuild_services}
use omnidiscover.Fusion.Services.Rebuild.{Rebuilt, rebuild_services-Rebuilt}

abbrev empty_record : DnsRecord
empty_record = record {
  name = [];
  type = 0;
  class = 1;
  cache_flush = false;
  ttl = 120;
  target = [];
  address = no_addr;
  port = 0;
  priority = 0;
  weight = 0;
  txt = [];
}

abbrev entry : DnsRecord → DnsEntry
entry r = record { used = true; dns_record = r; expires_at = 9 }

-- A service p at the host h, in any order
abbrev cache : List DnsEntry
cache =
    entry
      (record empty_record { name = b'h' ∷ []; type = type_a; address = ip4 (10 ∷ 0 ∷ 0 ∷ 1 ∷ []) })
    ∷ entry
        (record empty_record { name = b'p' ∷ []; type = type_srv; target = b'h' ∷ []; port = 80 })
    ∷ entry (record empty_record {
      name = b't' ∷ b'.' ∷ b'u' ∷ b'.' ∷ b'l' ∷ [];
      type = type_ptr;
      target = b'p' ∷ [];
    })
    ∷ record (entry (record empty_record { type = type_ptr; target = b'q' ∷ [] })) { used = false }
    ∷ []

-- The list of the device, with indices that are stale
abbrev cached : List ℤ
cached = pos 0 ∷ pos 7 ∷ pos 1 ∷ negsuc 0 ∷ pos 3 ∷ pos 2 ∷ []

abbrev old_services : Buffer
old_services = record {
  live = record no_service { instance_name = b'x' ∷ []; port = 1 } ∷ [];
  spare = [];
}

domain : dns_domain (b't' ∷ b'.' ∷ b'u' ∷ b'.' ∷ b'l' ∷ []) ≡ b'l' ∷ []
unfolding dns_domain
domain = refl

stale_entries : entries (record (entry empty_record) { used = false } ∷ []) cached ≡ []
unfolding entries entry_at
stale_entries = refl

rebuild_services-Rebuilt_example :
    Rebuilt (entries cache cached) (rebuild_services cache cached old_services).0
rebuild_services-Rebuilt_example = rebuild_services-Rebuilt cache cached old_services tt
