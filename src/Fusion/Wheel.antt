-- ===== src/Fusion/Wheel.antt =====
-- The timing wheel of fusion.go, seen by one entry: a slot's list is visited as a whole, so an entry
-- only meets its own slot and round. The lists are in Fusion.Slots.
pub mod Exact
use omnidiscover.Prelude.{ℕ, zero, suc, ◌+◌, ◌-◌, ◌/◌, ◌%◌, ◌^◌, ltb, leb, ◌==◌, if◌then◌else◌}
use omnidiscover.Model.{second}

-- `ceilDurationSeconds` and the test `ticks < 1` behind it. A duration that is not positive is 0, and
-- a sum past an `int64` is negative.
pub schedule_ticks : ℕ → ℕ
schedule_ticks d =
    if d == 0 then 1 else if leb (2 ^ 63) (d + second - 1) then 1 else (d + second - 1) / second

pub record Entry : Type 0 where
  pub wheel_slot : ℕ
  pub wheel_round : ℕ

-- `scheduleLink` and `scheduleDNS`, on a wheel of n slots
unfoldable pub schedule : (n cursor ticks : ℕ) → Entry
schedule n cursor ticks = record {
  wheel_slot = (cursor + ticks) % n;
  wheel_round = (ticks - 1) / n;
}

-- An entry waits for a later tick, or its time has come.
pub data Fate : Type 0 where
  waits : Entry → Fate
  fires : Fate

-- `s.wheelCursor = (s.wheelCursor + 1) % len(s.linkHeads)`
abbrev pub advance : ℕ → ℕ → ℕ
advance n cursor = (cursor + 1) % n

-- `tick` at an entry, with the cursor already advanced
pub visit : ℕ → Entry → Fate
visit cursor e =
    if e.wheel_slot == cursor
    then if ltb 0 e.wheel_round then waits (record e { wheel_round = e.wheel_round - 1 }) else fires
    else waits e

-- So many ticks in a row.
unfoldable pub ticks_of : ℕ → (n cursor : ℕ) → Entry → Fate
unfolding visit
ticks_of zero n cursor e = waits e
ticks_of (suc k) n cursor e = elim (visit (advance n cursor) e) [
  | waits e' ↦ ticks_of k n (advance n cursor) e'
  | fires ↦ fires
]
