-- ===== src/Config/Valid.antt =====
-- Which configurations of config.go are valid once the defaults are filled in.
use omnidiscover.Prelude.{
  ℕ, ◌*◌, ◌%◌, ◌≤◌, ◌<◌, ◌≡◌, ◌⊎◌, ◌↔◌, refl, Bool, true, false, none, arith,
}
use omnidiscover.Model.{second}
use omnidiscover.Config.{Config, or_default, default_protocols, with_defaults, validate}

-- What the user may set: known protocols, on Windows neither LLDP nor CDP, a frame size of 512 to
-- 65535 bytes and at most 32 alternatives. Zero, which stands for a default, is always allowed.
pub record IsAllowed {Rule : Type 0} (windows : Bool) (c : Config Rule) : Type 0 where
  pub known : c.protocols < 16
  pub supported : windows ≡ true → c.protocols % 4 ≡ 0
  pub frame_size : (c.max_frame_size ≡ 0) ⊎ ((512 ≤ c.max_frame_size) × (c.max_frame_size ≤ 65535))
  pub alternatives : c.max_alternatives ≤ 32

module _ {Rule : Type 0} (c : Config Rule) where
  IsAllowed-validate : (w : Bool) → IsAllowed w c → validate w (with_defaults w c) ≡ none
  unfolding validate with_defaults or_default default_protocols
  IsAllowed-validate true a = ground arith
  IsAllowed-validate false a = ground arith

  validate-IsAllowed : (w : Bool) → validate w (with_defaults w c) ≡ none → IsAllowed w c
  unfolding validate with_defaults or_default default_protocols
  validate-IsAllowed true h = ground arith
  validate-IsAllowed false h = ground arith

or_default_twice : (d v : ℕ) → 0 < d → or_default d (or_default d v) ≡ or_default d v
unfolding or_default
or_default_twice d v pos = ground arith

default_protocols_twice :
    (w : Bool) (p : ℕ) → default_protocols w (default_protocols w p) ≡ default_protocols w p
unfolding default_protocols
default_protocols_twice w p = ground arith

with_defaults_twice :
    {Rule : Type 0} (w : Bool) (c : Config Rule)
    → with_defaults w (with_defaults w c) ≡ with_defaults w c
unfolding with_defaults
with_defaults_twice w c =
    rw
      (
        default_protocols_twice w c.protocols,
        or_default_twice 4096 c.max_devices (omega arith),
        or_default_twice 8192 c.max_links (omega arith),
        or_default_twice 16384 c.max_dns_records (omega arith),
        or_default_twice 4 c.max_alternatives (omega arith),
        or_default_twice 256 c.protocol_queue (omega arith),
        or_default_twice 1024 c.pending_events (omega arith),
        or_default_twice 9216 c.max_frame_size (omega arith),
        or_default_twice (180 * second) c.mndp_idle_ttl (omega arith),
        or_default_twice 512 c.timing_wheel_slots (omega arith),
      )
      refl

-- With the defaults filled in, `validate` accepts exactly the configurations that are allowed, so a
-- limit that is left out is never an error, and filling them in again changes nothing.
pub validate-with_defaults :
    {Rule : Type 0} (c : Config Rule) (w : Bool)
    → ((validate w (with_defaults w c) ≡ none) ↔ IsAllowed w c)
      × (with_defaults w (with_defaults w c) ≡ with_defaults w c)
validate-with_defaults c w =
    ((validate-IsAllowed c w, IsAllowed-validate c w), with_defaults_twice w c)
