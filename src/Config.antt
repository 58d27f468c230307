-- ===== src/Config.antt =====
-- config.go: defaults and limits. A negative limit is 0, since both functions treat it as one.
-- `p &^ ProtocolsAll` is `p / 16 * 16`, and `p & (ProtocolsLLDP | ProtocolsCDP)` is `p % 4`. Whether
-- the program runs on Windows is an argument.
pub mod Valid
use omnidiscover.Prelude.{
  ℕ, ◌+◌, ◌*◌, ◌/◌, ◌%◌, Bool, true, false, not, ◌&&◌, ◌||◌, List, Option, none, some, ltb, leb,
  ◌==◌, if◌then◌else◌, Bytes,
}
use omnidiscover.Protocol.{ProtocolSet, protocols_all}
use omnidiscover.Model.{second}

-- The rules are the classifier's.
pub record Config (Rule : Type 0) : Type 0 where
  pub interfaces : List Bytes
  pub protocols : ProtocolSet
  pub max_devices : ℕ
  pub max_links : ℕ
  pub max_dns_records : ℕ
  pub max_alternatives : ℕ
  pub protocol_queue : ℕ
  pub pending_events : ℕ
  pub max_frame_size : ℕ
  pub mndp_idle_ttl : ℕ
  pub timing_wheel_slots : ℕ
  pub rules : List Rule
  pub include_loopback : Bool

-- `if value <= 0 { value = default }`
pub or_default : ℕ → ℕ → ℕ
or_default default value = if value == 0 then default else value

-- The protocols that an empty set stands for.
pub default_protocols : Bool → ProtocolSet → ProtocolSet
default_protocols windows p = if p == 0 then (if windows then 12 else protocols_all) else p

-- `withDefaults`
unfoldable pub with_defaults : {Rule : Type 0} → Bool → Config Rule → Config Rule
unfolding or_default default_protocols
with_defaults windows c = record c {
  protocols = default_protocols windows c.protocols;
  max_devices = or_default 4096 c.max_devices;
  max_links = or_default 8192 c.max_links;
  max_dns_records = or_default 16384 c.max_dns_records;
  max_alternatives = or_default 4 c.max_alternatives;
  protocol_queue = or_default 256 c.protocol_queue;
  pending_events = or_default 1024 c.pending_events;
  max_frame_size = or_default 9216 c.max_frame_size;
  mndp_idle_ttl = or_default (180 * second) c.mndp_idle_ttl;
  timing_wheel_slots = or_default 512 c.timing_wheel_slots;
}

pub data ConfigError : Type 0 where
  unknown_protocols : ProtocolSet → ConfigError
  unsupported_protocols : ProtocolSet → ConfigError
  invalid_frame_size : ConfigError
  invalid_limits : ConfigError
  invalid_alternatives : ConfigError

-- `validate`, where nothing is no error
unfoldable pub validate : {Rule : Type 0} → Bool → Config Rule → Option ConfigError
validate windows c =
    if not (c.protocols / 16 * 16 == 0)
    then some (unknown_protocols (c.protocols / 16 * 16))
    else if windows && not (c.protocols % 4 == 0)
    then some (unsupported_protocols (c.protocols % 4))
    else if ltb c.max_frame_size 512 || ltb 65535 c.max_frame_size
    then some invalid_frame_size
    else if ltb c.max_devices 1 || ltb c.max_links 1 || ltb c.max_dns_records 1
    then some invalid_limits
    else if ltb c.max_alternatives 1 || ltb 32 c.max_alternatives
    then some invalid_alternatives
    else none
