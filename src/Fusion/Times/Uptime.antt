-- ===== src/Fusion/Times/Uptime.antt =====
-- The uptime that a device shows behind `mergeDeviceUptime` of fusion.go.
use omnidiscover.Prelude.{
  ℕ, ◌+◌, ◌-◌, ◌*◌, ◌/◌, ◌%◌, ◌^◌, ◌≤◌, ◌≡◌, refl, ap, true, not, split_if, split_lt, arith,
}
use omnidiscover.Protocol.{ProtocolSet}
use omnidiscover.Model.{DeviceUptime, second, max_duration_seconds, current_uptime}
use omnidiscover.Fusion.Times.{merge_device_uptime}

module _ (seconds now later : ℕ) (near : later - now ≤ 2 ^ 63 - 1)
    (fits : seconds + (later - now) / second ≤ max_duration_seconds) where
  shown :
      (p : ProtocolSet)
      → current_uptime
          (record { seconds = seconds; observed_at = now; protocols = p; valid = true })
          later
        ≡ (seconds + (later - now) / second) * second
  unfolding current_uptime
  shown p =
      split_lt now later
        (λ t _. rw t (
          split_lt (2 ^ 63 - 1) (later - now) (λ e far. absurd (omega arith))
            λ e _.
              let whole : (seconds + (later - now) / second) % 2 ^ 64
                  ≡ seconds + (later - now) / second =
                omega (arith, fits) in
              rw (e, whole)
                (split_lt max_duration_seconds (seconds + (later - now) / second)
                  (λ y long. absurd (omega arith)) λ y _. rw y refl)))
        λ t past.
          let same : seconds ≡ seconds + (later - now) / second = omega arith in
          rw t (
            split_lt max_duration_seconds seconds (λ y long. absurd (omega arith))
              λ y _. rw y (ap (λ x. x * second) same))

  merged_shown :
      (u : DeviceUptime) (p : ProtocolSet)
      → current_uptime (merge_device_uptime u seconds p now).1 later
        ≡ (seconds + (later - now) / second) * second
  unfolding merge_device_uptime
  merged_shown u p = split_if (not u.valid) (λ t. rw t (shown p)) λ t. rw t (shown _)

-- Whatever uptime a device had, behind `mergeDeviceUptime` its `Current` shows the reported seconds
-- and the whole seconds since the report, up to 292 years.
pub merge_device_uptime-current :
    (u : DeviceUptime) (seconds now later : ℕ) (p : ProtocolSet)
    → later - now ≤ 2 ^ 63 - 1
    → seconds + (later - now) / second ≤ max_duration_seconds
    → current_uptime (merge_device_uptime u seconds p now).1 later
      ≡ (seconds + (later - now) / second) * second
merge_device_uptime-current u seconds now later p near fits =
    merged_shown seconds now later near fits u p
