-- ===== src/Examples/Slots.antt =====
-- Runs of the timing wheel's lists on a small table, and of the theorems at it.
use omnidiscover.Prelude.{
  ℕ, zero, suc, ◌+◌, ◌-◌, ◌/◌, ◌%◌, ◌<◌, ◌≡◌, refl, List, [], ◌∷◌, none, some, arith,
}
use omnidiscover.Go.{ret, index, write}
use omnidiscover.Fusion.Slots.{Cell, Slots, schedule_entry, unschedule, push_entry, set_prev}
use omnidiscover.Fusion.Slots.Around.{has}
use omnidiscover.Fusion.Slots.Unlink.{IsSlots, Placed}
use omnidiscover.Fusion.Slots.Linked.{Scheduled, schedule_entry-Scheduled}

abbrev free_cell : Cell
free_cell = record { wheel_slot = none; wheel_round = 0; wheel_prev = none; wheel_next = none }

-- Three entries that wait nowhere, and two slots
abbrev empty_wheel : Slots
empty_wheel = record { heads = none ∷ none ∷ []; cells = free_cell ∷ free_cell ∷ free_cell ∷ [] }

abbrev no_lists : ℕ → List ℕ
no_lists t = []

empty_heads : (s : ℕ) → s < 2 → index empty_wheel.heads s ≡ ret none
unfolding index
empty_heads zero h = refl
empty_heads (suc zero) h = refl
empty_heads (suc (suc s)) h = ground arith

empty_cells :
    (i : ℕ) (c : Cell) → index empty_wheel.cells i ≡ ret c → Placed no_lists i c c.wheel_slot
unfolding index has
empty_cells zero c h = let same : c ≡ free_cell = cc in rw same (λ t. refl)
empty_cells (suc zero) c h = let same : c ≡ free_cell = cc in rw same (λ t. refl)
empty_cells (suc (suc zero)) c h = let same : c ≡ free_cell = cc in rw same (λ t. refl)
empty_cells (suc (suc (suc i))) c h = cc

empty_wheel-IsSlots : IsSlots empty_wheel no_lists
unfolding has
empty_wheel-IsSlots = record {
  heads = empty_heads;
  cells = empty_cells;
  inside = λ i s h. cc;
  distinct = λ s. tt;
}

schedule_entry_run :
    schedule_entry empty_wheel 1 2 4
    ≡ ret (record {
      heads = none ∷ some 2 ∷ [];
      cells =
          free_cell ∷ free_cell ∷ record free_cell { wheel_slot = some 1; wheel_round = 1 } ∷ [];
    })
unfolding schedule_entry unschedule push_entry set_prev index write
schedule_entry_run = refl

schedule_entry-Scheduled_example :
    (w' : Slots) × (schedule_entry empty_wheel 1 2 4 ≡ ret w')
    × Scheduled empty_wheel w' no_lists 2 ((1 + 4) % 2) ((4 - 1) / 2)
schedule_entry-Scheduled_example =
    schedule_entry-Scheduled empty_wheel no_lists 1 2 4 empty_wheel-IsSlots (omega arith)
      (omega arith)
