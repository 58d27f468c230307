-- ===== src/Examples/State.antt =====
-- Runs of the queue, the vendor tables and the text fields on small states, and of the theorems at
-- them.
use omnidiscover.Prelude.{
  ℕ, ◌↔◌, true, false, none, zero, suc, ◌+◌, ◌-◌, ◌*◌, ◌/◌, ◌^◌, ◌≤◌, ◌<◌, ◌≡◌, refl, ap, List, [],
  ◌∷◌, some, arith, length, replicate, All,
}
use omnidiscover.Go.{ret, index, loop}
use omnidiscover.Go.Ensures.{Ensures}
use omnidiscover.Net.{zero_mac}
use omnidiscover.Model.{
  second, current_uptime, TextField, no_service, no_uptime, DeviceKey, key_mac, no_device_key,
  DiscoveredDevice, physical_adjacency, no_link_key, DiscoveredLink, event_added, event_changed,
  EventView, Event,
}
use omnidiscover.Model.Clone.{clone_event_into, clone_event_into-same}
use omnidiscover.Stream.{OwnedStreamQueue, new_owned_stream_queue, enqueue, pop}
use omnidiscover.Stream.Keys
use omnidiscover.Stream.Fifo
use omnidiscover.Stream.Fifo.{Popped, pop-Popped, Enqueued, enqueued, enqueue-Enqueued}
use omnidiscover.Vendor.{Registry, Registries, search, lookup_mac_vendor}
use omnidiscover.Vendor.Search.{at, Sorted, Finds, search-Finds}
use omnidiscover.Vendor.Lookup.{
  IsRegistry, AreRegistries, Looked, is_global, lookup_mac_vendor-Longest,
}
use omnidiscover.Fusion.Wheel.{schedule_ticks, schedule, waits, fires, ticks_of, Entry}
use omnidiscover.Fusion.Wheel.Exact.{schedule-exact}
use omnidiscover.Fusion.Times.{earliest_expiry, latest_expiry, merge_device_uptime}
use omnidiscover.Fusion.Times.Expiry.{Earliest, Latest, expiry-Earliest-Latest}
use omnidiscover.Fusion.Times.Uptime.{merge_device_uptime-current}
use omnidiscover.Config.{Config, with_defaults, validate}
use omnidiscover.Config.Valid.{IsAllowed, validate-with_defaults}
use omnidiscover.Fusion.Text.{merge_text}
use omnidiscover.Fusion.Text.Distinct.{has}
use omnidiscover.Fusion.Text.Merge.{Merged, merge_text-Merged}

abbrev no_text : TextField
no_text = record { values = []; canonical = 0 }

abbrev router_key : DeviceKey
router_key = record no_device_key { kind = key_mac; interface_index = 2 }

abbrev router_device : DiscoveredDevice
router_device = record {
  key = router_key;
  observed_macs = [];
  claimed_macs = [];
  addresses = [];
  system_name = record {
    values =
        record { value = b'r' ∷ []; protocols = 1; confidence = 9; first_seen = 1; last_seen = 2 }
        ∷ [];
    canonical = 0;
  };
  host_name = no_text;
  protocol_device_id = no_text;
  vendor = no_text;
  model = no_text;
  platform = no_text;
  software_version = no_text;
  uptime = no_uptime;
  capabilities = 4;
  services = [];
  protocols = 1;
  class = [];
  matched_rule = [];
  first_seen = 1;
  last_seen = 2;
}

abbrev router_link : DiscoveredLink
router_link = record {
  key = record no_link_key { interface_index = 2; device = router_key };
  kind = physical_adjacency;
  local_interface = b'e' ∷ [];
  device = router_key;
  observed_source_mac = zero_mac;
  remote_chassis = record { subtype = 4; value = 7 ∷ [] };
  remote_port = record { subtype = 5; value = 8 ∷ [] };
  remote_interface = no_text;
  vlans = 10 ∷ [];
  protocols = 1;
  ttl = 120;
  expires_at = 122;
  first_seen = 1;
  last_seen = 2;
}

abbrev router_event : Event
router_event = record {
  kind = event_added;
  changed = 1;
  device = router_device;
  link = router_link;
}

abbrev router_view : EventView
router_view = record {
  kind = event_changed;
  changed = 4;
  device = some router_device;
  link = some router_link;
}

-- Storage that was used for another event.
abbrev used_event : Event
used_event = record router_event {
  device = record router_device { services = no_service ∷ no_service ∷ []; class = 1 ∷ [] };
  link = record router_link { vlans = 1 ∷ 2 ∷ [] };
}

clone_event_into-same_example :
    clone_event_into used_event router_view
    ≡ record { kind = event_changed; changed = 4; device = router_device; link = router_link }
clone_event_into-same_example =
    clone_event_into-same used_event router_view router_device router_link refl refl

abbrev waiting : OwnedStreamQueue
waiting = record (new_owned_stream_queue 4 0) {
  pending = (router_link.key, router_event) ∷ [];
  order = no_link_key ∷ router_link.key ∷ [];
  head = 1;
}

waiting-Inv : Fifo.Inv waiting
unfolding new_owned_stream_queue Keys.waits
waiting-Inv = record {
  head = omega arith;
  order = refl;
  distinct = (refl, tt);
  bound = omega arith;
}

pop-Popped_example : Popped waiting.pending (pop waiting)
pop-Popped_example = pop-Popped waiting waiting-Inv

enqueue-Enqueued_example :
    Enqueued
      (enqueued used_event waiting router_view router_view.link)
      (enqueue used_event waiting router_view)
enqueue-Enqueued_example = enqueue-Enqueued used_event waiting router_view waiting-Inv

-- A table in ascending order.
abbrev Ascending : List ℕ → Type 0
Ascending [] = Unit
Ascending (x ∷ xs) = All (λ y. x ≤ y) xs × Ascending xs

All-at : (x : ℕ) (xs : List ℕ) (j : ℕ) → All (λ y. x ≤ y) xs → j < length xs → x ≤ at xs j
All-at x [] j a h = absurd (omega arith)
All-at x (y ∷ xs) zero a h = a.0
All-at x (y ∷ xs) (suc j) a h = All-at x xs j a.1 (omega arith)

Ascending-Sorted : (xs : List ℕ) → Ascending xs → Sorted xs
Ascending-Sorted [] a i j le lt = absurd (omega arith)
Ascending-Sorted (x ∷ xs) a zero zero le lt = omega arith
Ascending-Sorted (x ∷ xs) a zero (suc j) le lt = All-at x xs j a.0 (omega arith)
Ascending-Sorted (x ∷ xs) a (suc i) zero le lt = absurd (omega arith)
Ascending-Sorted (x ∷ xs) a (suc i) (suc j) le lt =
    Ascending-Sorted xs a.1 i j (omega arith) (omega arith)

abbrev table : List ℕ
table = 3 ∷ 5 ∷ 9 ∷ 12 ∷ []

table-Sorted : Sorted table
table-Sorted = Ascending-Sorted table (omega arith)

search_run : search table 9 0 4 ≡ ret (some 2)
unfolding search loop index
search_run = refl

search-Finds_example : Ensures (Finds table 9 1 4) (search table 9 1 4)
search-Finds_example = search-Finds table 9 1 4 table-Sorted (omega arith) (omega arith)

-- One prefix, in the first of 4096 buckets.
abbrev registry : Registry
registry = record { prefixes = 1 ∷ []; buckets = 0 ∷ replicate 4096 1; name_refs = 3 ∷ [] }

abbrev registries : Registries
registries = record {
  vendor36 = registry;
  vendor28 = registry;
  vendor24 = registry;
  name_data = b'A' ∷ b'C' ∷ b'M' ∷ [];
}

at-replicate : (n b : ℕ) → b < n → at (replicate n 1) b ≡ 1
at-replicate zero b h = absurd (omega arith)
at-replicate (suc n) zero h = refl
at-replicate (suc n) (suc b) h = at-replicate n b (omega arith)

length-replicate : (n : ℕ) → length {A = ℕ} (replicate n 1) ≡ n
length-replicate zero = refl
length-replicate (suc n) = ap suc (length-replicate n)

at-buckets : (n b : ℕ) → b < n → at (0 ∷ replicate n 1) (b + 1) ≡ 1
at-buckets n b h = let plus : b + 1 ≡ suc b = omega arith in rw plus (at-replicate n b h)

at-buckets_low : (n b : ℕ) → b < n → at (0 ∷ replicate n 1) b ≤ 1
at-buckets_low n zero h = omega arith
at-buckets_low n (suc b) h = omega (arith, at-replicate n b (omega arith))

first-Sorted : Sorted (1 ∷ [])
first-Sorted = Ascending-Sorted (1 ∷ []) (omega arith)

registry-IsRegistry : (low : ℕ) → 1 / 2 ^ low ≡ 0 → IsRegistry low 3 registry
registry-IsRegistry low h = record {
  sorted = first-Sorted;
  refs = λ i lt.
      let first : i ≡ 0 = omega (arith, lt) in rw first (λ c. omega (arith, c), omega arith);
  names = refl;
  buckets = omega (arith, length-replicate 4096);
  order = λ b lt. (
    omega (arith, at-buckets_low 4096 b lt, at-buckets 4096 b lt),
    omega (arith, at-buckets 4096 b lt),
  );
  bucket = λ i lt.
      let first : i ≡ 0 = omega (arith, lt) in
      rw (first, h) (omega arith, omega (arith, at-buckets 4096 0 (omega arith)));
}

registries-AreRegistries : AreRegistries registries
registries-AreRegistries = record {
  vendor36 = registry-IsRegistry 24 refl;
  vendor28 = registry-IsRegistry 16 refl;
  vendor24 = registry-IsRegistry 12 refl;
}

lookup_mac_vendor-Longest_example :
    Ensures
      (Looked registries 0 0 1 2 3 (is_global (0 ∷ 0 ∷ 1 ∷ 2 ∷ 3 ∷ 4 ∷ []) 0))
      (lookup_mac_vendor registries (0 ∷ 0 ∷ 1 ∷ 2 ∷ 3 ∷ 4 ∷ []))
lookup_mac_vendor-Longest_example =
    lookup_mac_vendor-Longest registries 0 0 1 2 3 4 registries-AreRegistries (omega arith)

merge_text-Merged_example :
    Merged 4 router_device.system_name
      (merge_text router_device.system_name (32 ∷ b'x' ∷ []) 2 9 5 4).1
unfolding has
merge_text-Merged_example =
    merge_text-Merged 4 router_device.system_name (32 ∷ b'x' ∷ []) 2 9 5 (omega arith) (record {
      few = omega arith;
      distinct = (refl, tt);
      winner = λ _. record {
        inside = omega arith;
        highest = λ j lt. let first : j ≡ 0 = omega (arith, lt) in rw first (omega arith);
      };
    })

-- 1.5 seconds on a wheel of four slots.
schedule-exact_example :
    (1 < schedule_ticks 1500000000
      → (e : Entry) × (ticks_of 1 4 3 (schedule 4 3 (schedule_ticks 1500000000)) ≡ waits e))
    × (ticks_of (schedule_ticks 1500000000) 4 3 (schedule 4 3 (schedule_ticks 1500000000)) ≡ fires)
    × ((schedule_ticks 1500000000 - 1) * second < 1500000000)
    × (1500000000 ≤ schedule_ticks 1500000000 * second)
schedule-exact_example = schedule-exact 4 3 1500000000 1 (omega arith) (omega arith) (omega arith)

expiry-Earliest-Latest_example :
    Earliest (0 ∷ 7 ∷ 5 ∷ 0 ∷ []) (earliest_expiry (3 ∷ 0 ∷ 7 ∷ 5 ∷ 0 ∷ []))
    × Latest (0 ∷ 7 ∷ 5 ∷ 0 ∷ []) (latest_expiry (3 ∷ 0 ∷ 7 ∷ 5 ∷ 0 ∷ []))
expiry-Earliest-Latest_example = expiry-Earliest-Latest 3 0 7 5 0

expiry_run : earliest_expiry (3 ∷ 0 ∷ 7 ∷ 5 ∷ 0 ∷ []) ≡ 5
unfolding earliest_expiry
expiry_run = refl

-- An uptime of 60 seconds, reported at 4 s and shown at 6.5 s.
merge_device_uptime-current_example :
    current_uptime (merge_device_uptime no_uptime 60 1 4000000000).1 6500000000
    ≡ (60 + (6500000000 - 4000000000) / second) * second
merge_device_uptime-current_example =
    merge_device_uptime-current no_uptime 60 4000000000 6500000000 1 (omega arith) (omega arith)

abbrev small_config : Config ℕ
small_config = record {
  interfaces = [];
  protocols = 12;
  max_devices = 16;
  max_links = 0;
  max_dns_records = 0;
  max_alternatives = 2;
  protocol_queue = 0;
  pending_events = 0;
  max_frame_size = 1514;
  mndp_idle_ttl = 0;
  timing_wheel_slots = 64;
  rules = [];
  include_loopback = false;
}

validate-with_defaults_example :
    ((validate true (with_defaults true small_config) ≡ none) ↔ IsAllowed true small_config)
    × (with_defaults true (with_defaults true small_config) ≡ with_defaults true small_config)
validate-with_defaults_example = validate-with_defaults small_config true
