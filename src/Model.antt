-- ===== src/Model.antt =====
-- model.go: what the engine keeps and hands out. A `time.Time` and a `time.Duration` are a number
-- of nanoseconds, and the zero time is 0.

pub mod Keys
pub mod Clone
use omnidiscover.Prelude.{
  ℕ, ◌+◌, ◌-◌, ◌*◌, ◌/◌, ◌^◌, Bool, true, false, ◌&&◌, List, [], ◌∷◌, ltb, leb, if◌then◌else◌,
  length, get_or, map, Bytes, ◌%◌, Option,
}
use omnidiscover.Protocol.{ProtocolSet}
use omnidiscover.Net.{Mac, zero_mac, Addr, no_addr}
use omnidiscover.Lldp.Message.{Identifier}

abbrev pub Time : Type 0
Time = ℕ

pub record TextValue : Type 0 where
  pub value : Bytes
  pub protocols : ProtocolSet
  pub confidence : ℕ
  pub first_seen : Time
  pub last_seen : Time

pub record TextField : Type 0 where
  pub values : List TextValue
  pub canonical : ℕ

-- `TextValue{}`
abbrev pub no_value : TextValue
no_value = record { value = []; protocols = 0; confidence = 0; first_seen = 0; last_seen = 0 }

-- `TextField.Current`
unfoldable pub current : TextField → Bytes
current f =
    if leb (length f.values) f.canonical then [] else (get_or f.values f.canonical no_value).value

-- `f.Values[i].Value[:0]`
abbrev empty_text : TextValue → TextValue
empty_text v = record v { value = [] }

-- `resetTextField`, which empties the texts before it lets go of them
unfoldable pub reset_text_field : TextField → TextField
reset_text_field f =
    let emptied : TextField = record f {
      values = map (λ (v : TextValue). empty_text v) f.values;
    } in
    record emptied { values = []; canonical = 0 }

pub record Service : Type 0 where
  pub instance_name : Bytes
  pub type : Bytes
  pub domain : Bytes
  pub host : Bytes
  pub port : ℕ
  pub txt : Bytes
  pub addresses : List Addr
  pub protocols : ProtocolSet
  pub expires_at : Time

abbrev pub no_service : Service
no_service = record {
  instance_name = [];
  type = [];
  domain = [];
  host = [];
  port = 0;
  txt = [];
  addresses = [];
  protocols = 0;
  expires_at = 0;
}

pub data DeviceKeyKind : Type 0 where
  key_unknown key_mac key_ip : DeviceKeyKind

pub record DeviceKey : Type 0 where
  pub kind : DeviceKeyKind
  pub mac : Mac
  pub ip : Addr
  pub interface_index : ℕ

-- `DeviceKey{}`
abbrev pub no_device_key : DeviceKey
no_device_key = record { kind = key_unknown; mac = zero_mac; ip = no_addr; interface_index = 0 }

pub record DeviceUptime : Type 0 where
  pub seconds : ℕ
  pub observed_at : Time
  pub protocols : ProtocolSet
  pub valid : Bool

abbrev pub no_uptime : DeviceUptime
no_uptime = record { seconds = 0; observed_at = 0; protocols = 0; valid = false }

-- `time.Second`
abbrev pub second : ℕ
second = 10 ^ 9

abbrev pub max_duration_seconds : ℕ
max_duration_seconds = (2 ^ 63 - 1) / second

-- `now.Sub(then)`, for a `now` that is not before: a `time.Duration` saturates.
abbrev pub time_sub : Time → Time → ℕ
time_sub now then' = if ltb (2 ^ 63 - 1) (now - then') then 2 ^ 63 - 1 else now - then'

-- `DeviceUptime.Current`
unfoldable pub current_uptime : DeviceUptime → Time → ℕ
current_uptime u now =
    let seconds : ℕ =
      if u.valid && ltb u.observed_at now
      then (u.seconds + time_sub now u.observed_at / second) % 2 ^ 64
      else u.seconds in
    (if ltb max_duration_seconds seconds then max_duration_seconds else seconds) * second

pub record DiscoveredDevice : Type 0 where
  pub key : DeviceKey
  pub observed_macs : List Mac
  pub claimed_macs : List Mac
  pub addresses : List Addr
  pub system_name : TextField
  pub host_name : TextField
  pub protocol_device_id : TextField
  pub vendor : TextField
  pub model : TextField
  pub platform : TextField
  pub software_version : TextField
  pub uptime : DeviceUptime
  pub capabilities : ℕ
  pub services : List Service
  pub protocols : ProtocolSet
  pub class : Bytes
  pub matched_rule : Bytes
  pub first_seen : Time
  pub last_seen : Time

-- `DiscoveredDevice.Reset`, statement by statement but for the buffers of the services
unfoldable pub reset_device : DiscoveredDevice → DiscoveredDevice
unfolding reset_text_field
reset_device d = record d {
  key = no_device_key;
  observed_macs = [];
  claimed_macs = [];
  addresses = [];
  system_name = reset_text_field d.system_name;
  host_name = reset_text_field d.host_name;
  protocol_device_id = reset_text_field d.protocol_device_id;
  vendor = reset_text_field d.vendor;
  model = reset_text_field d.model;
  platform = reset_text_field d.platform;
  software_version = reset_text_field d.software_version;
  uptime = no_uptime;
  services = [];
  protocols = 0;
  class = [];
  matched_rule = [];
  capabilities = 0;
  first_seen = 0;
  last_seen = 0;
}

-- `LinkKind`, with the zero value that `resetLink` stores
pub data LinkKind : Type 0 where
  no_link_kind physical_adjacency segment_presence : LinkKind

pub record LinkKey : Type 0 where
  pub interface_index : ℕ
  pub source_mac : Mac
  pub device : DeviceKey

abbrev pub no_link_key : LinkKey
no_link_key = record { interface_index = 0; source_mac = zero_mac; device = no_device_key }

pub record DiscoveredLink : Type 0 where
  pub key : LinkKey
  pub kind : LinkKind
  pub local_interface : Bytes
  pub device : DeviceKey
  pub observed_source_mac : Mac
  pub remote_chassis : Identifier
  pub remote_port : Identifier
  pub remote_interface : TextField
  pub vlans : List ℕ
  pub protocols : ProtocolSet
  pub ttl : ℕ
  pub expires_at : Time
  pub first_seen : Time
  pub last_seen : Time

-- `resetLink`, of fusion.go
unfoldable pub reset_link : DiscoveredLink → DiscoveredLink
unfolding reset_text_field
reset_link l = record l {
  key = no_link_key;
  kind = no_link_kind;
  local_interface = [];
  device = no_device_key;
  observed_source_mac = zero_mac;
  remote_chassis = record l.remote_chassis { subtype = 0; value = [] };
  remote_port = record l.remote_port { subtype = 0; value = [] };
  remote_interface = reset_text_field l.remote_interface;
  vlans = [];
  protocols = 0;
  ttl = 0;
  expires_at = 0;
  first_seen = 0;
  last_seen = 0;
}

-- `EventKind`, with the zero value of an event that is not filled in yet
pub data EventKind : Type 0 where
  no_event_kind event_added event_changed event_expired event_evicted : EventKind

-- A view borrows the device and the link, each of which may be nil.
pub record EventView : Type 0 where
  pub kind : EventKind
  pub changed : ℕ
  pub device : Option DiscoveredDevice
  pub link : Option DiscoveredLink

pub record Event : Type 0 where
  pub kind : EventKind
  pub changed : ℕ
  pub device : DiscoveredDevice
  pub link : DiscoveredLink
