-- ===== src/Fusion/Slots.antt =====
-- The lists of the timing wheel of fusion.go: the entries of a table are linked by their indices, and
-- each slot has the index of its first. Links and DNS records have a table and heads of their own, and
-- the same code. -1 is `none`.
pub mod Around
pub mod Writes
pub mod Unlink
pub mod Push
pub mod Linked
use omnidiscover.Prelude.{ℕ, ◌+◌, ◌-◌, ◌/◌, ◌%◌, List, Option, none, some, length}
use omnidiscover.Go.{Go, ret, ◌>>=◌, index, write}

-- The fields of `linkEntry` and `dnsEntry` for the wheel
pub record Cell : Type 0 where
  pub wheel_slot : Option ℕ
  pub wheel_round : ℕ
  pub wheel_prev : Option ℕ
  pub wheel_next : Option ℕ

pub record Slots : Type 0 where
  pub heads : List (Option ℕ)
  pub cells : List Cell

-- `s.links[p].wheelNext = next`, or the slot's head where there is no p
unfoldable pub set_next : Slots → (slot : ℕ) → Option ℕ → Option ℕ → Go Slots
set_next w slot (some p) next = do
  c ← index w.cells p
  cells ← write w.cells p (record c { wheel_next = next })
  ret (record w { cells = cells })
set_next w slot none next = do heads ← write w.heads slot next; ret (record w { heads = heads })

-- `s.links[n].wheelPrev = prev`, if there is an n
unfoldable pub set_prev : Slots → Option ℕ → Option ℕ → Go Slots
set_prev w none prev = ret w
set_prev w (some n) prev = do
  c ← index w.cells n
  cells ← write w.cells n (record c { wheel_prev = prev })
  ret (record w { cells = cells })

-- The body of `unscheduleLink` and `unscheduleDNS`, at an entry that waits in a slot. The entry is
-- read again behind each write.
unfoldable pub unlink : Slots → ℕ → ℕ → Go Slots
unlink w idx slot = do
  l ← index w.cells idx
  w1 ← set_next w slot l.wheel_prev l.wheel_next
  l1 ← index w1.cells idx
  w2 ← set_prev w1 l1.wheel_next l1.wheel_prev
  l2 ← index w2.cells idx
  cells ← write w2.cells idx (record l2 { wheel_slot = none; wheel_prev = none; wheel_next = none })
  ret (record w2 { cells = cells })

abbrev unlink_from : Slots → ℕ → Option ℕ → Go Slots
unlink_from w idx none = ret w
unlink_from w idx (some slot) = unlink w idx slot

-- `unscheduleLink` and `unscheduleDNS`
unfoldable pub unschedule : Slots → ℕ → Go Slots
unschedule w idx = do l ← index w.cells idx; unlink_from w idx l.wheel_slot

-- The writes of `scheduleLink` and `scheduleDNS` behind the computation of slot and round
unfoldable pub push_entry : Slots → ℕ → (slot round : ℕ) → Go Slots
push_entry w idx slot round = do
  l ← index w.cells idx
  head ← index w.heads slot
  cells ← write w.cells idx (record l {
    wheel_slot = some slot;
    wheel_round = round;
    wheel_prev = none;
    wheel_next = head;
  })
  w' ← set_prev (record w { cells = cells }) head (some idx)
  heads ← write w'.heads slot (some idx)
  ret (record w' { heads = heads })

-- `scheduleLink` and `scheduleDNS`, for the cursor of the wheel and a number of ticks
unfoldable pub schedule_entry : Slots → (cursor idx ticks : ℕ) → Go Slots
schedule_entry w cursor idx ticks = do
  w' ← unschedule w idx
  push_entry w' idx ((cursor + ticks) % length w'.heads) ((ticks - 1) / length w'.heads)
