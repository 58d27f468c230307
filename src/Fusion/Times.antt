-- ===== src/Fusion/Times.antt =====
-- The helpers of fusion.go on times and uptimes. The array of five expiries has one for each
-- protocol, and the first, of `ProtocolUnknown`, is passed over.
pub mod Expiry
pub mod Uptime
use omnidiscover.Prelude.{
  ℕ, ◌+◌, ◌-◌, ◌/◌, ◌%◌, ◌^◌, Bool, true, false, not, ◌&&◌, ◌||◌, List, [], ◌∷◌, ltb, leb, ◌==◌,
  if◌then◌else◌, drop, bit_or,
}
use omnidiscover.Protocol.{ProtocolSet}
use omnidiscover.Model.{Time, DeviceUptime, DiscoveredDevice, second, time_sub}

-- The loop of `earliestExpiry`
earliest_from : Time → List Time → Time
earliest_from out [] = out
earliest_from out (v ∷ vs) =
    earliest_from (if not (v == 0) && (out == 0 || ltb v out) then v else out) vs

-- `earliestExpiry`
unfoldable pub earliest_expiry : List Time → Time
unfolding earliest_from
earliest_expiry values = earliest_from 0 (drop 1 values)

-- The loop of `latestExpiry`
latest_from : Time → List Time → Time
latest_from out [] = out
latest_from out (v ∷ vs) = latest_from (if ltb out v then v else out) vs

-- `latestExpiry`
unfoldable pub latest_expiry : List Time → Time
unfolding latest_from
latest_expiry values = latest_from 0 (drop 1 values)

-- `minNonZeroTime`
unfoldable pub min_non_zero_time : Time → Time → Time
min_non_zero_time a b = if a == 0 || (not (b == 0) && ltb b a) then b else a

-- The seconds that an earlier report leads to expect, in a `uint64`
pub expected_seconds : DeviceUptime → Time → ℕ
expected_seconds u now =
    if ltb u.observed_at now
    then (u.seconds + time_sub now u.observed_at / second) % 2 ^ 64
    else u.seconds

-- `mergeDeviceUptime`: whether the report is news, and the baseline
unfoldable pub merge_device_uptime : DeviceUptime → ℕ → ProtocolSet → Time → Bool × DeviceUptime
unfolding expected_seconds
merge_device_uptime u seconds protocols now =
    if not u.valid
    then (
      true,
      record { seconds = seconds; observed_at = now; protocols = protocols; valid = true },
    )
    else (let expected : ℕ = expected_seconds u now in
        let delta : ℕ = if leb expected seconds then seconds - expected else expected - seconds in
        (
          ltb 5 delta || not (bit_or u.protocols protocols == u.protocols),
          record u {
            seconds = seconds;
            observed_at = now;
            protocols = bit_or u.protocols protocols;
            valid = true;
          },
        ))

-- `updateDeviceTimes`
unfoldable pub update_device_times : DiscoveredDevice → Time → DiscoveredDevice
update_device_times d now = record d {
  first_seen = if d.first_seen == 0 || ltb now d.first_seen then now else d.first_seen;
  last_seen = if ltb d.last_seen now then now else d.last_seen;
}
