-- ===== src/Irq.antt =====
-- kernel/src/driver/irq.rs: interrupt lines as counters that drivers wait on. Each atomic access of
-- the source is one field here; `wait` is split at the point where its task sleeps.
pub mod Ownership
pub mod Counting
mod Tests
use pickle_os.Base.{
  ℕ, suc, zero, ◌+◌, ◌%◌, ◌^◌, Bool, true, false, Option, none, some, List, ◌==◌, ltb,
  if◌then◌else◌, ◌>>=◌, get_elem?, set, replicate,
}
use pickle_os.Task.{
  Scheduler, unblock, current_id, modify_current, set_state, blocked, block_current_and_schedule,
}

abbrev pub num_irqs : ℕ
num_irqs = 16

pub record IrqLine : Type 0 where
  pub pending : ℕ
  pub waiter : ℕ
  pub owner : ℕ
  pub count : ℕ

abbrev pub new_line : IrqLine
new_line = record { pending = 0; waiter = 0; owner = 0; count = 0 }

abbrev pub Lines : Type 0
Lines = List IrqLine

unfoldable pub init : Lines
init = replicate num_irqs new_line

abbrev pub u64 : ℕ → ℕ
u64 n = n % 2 ^ 64

-- `compare_exchange(0, task)`: it succeeds on an unowned line, and again for the owner.
unfoldable pub register : ℕ → ℕ → Lines → Lines × Bool
register irq task ls = elim (get_elem? ls irq) [
  | none ↦ (ls, false)
  | some line ↦
      if line.owner == 0
      then (set ls irq (record line { owner = task }), true)
      else (ls, line.owner == task)
]

-- The critical section of `wait`: take what is pending, or publish the waiter and sleep.
-- An index out of range is a panic in the source; here it changes nothing.
unfoldable pub wait_step : ℕ → Lines × Scheduler → (Lines × Scheduler) × Option ℕ
wait_step irq (ls, s) = elim (get_elem? ls irq) [
  | none ↦ ((ls, s), none)
  | some line ↦
      if ltb 0 line.pending
      then ((set ls irq (record line { pending = 0 }), s), some line.pending)
      else (
        (set ls irq (record line { waiter = current_id s }), block_current_and_schedule s),
        none,
      )
]

-- After the sleep: the waiter slot is cleared, and the loop starts again.
unfoldable pub wake_step : ℕ → Lines → Lines
wake_step irq ls = elim (get_elem? ls irq) [
  | none ↦ ls
  | some line ↦ set ls irq (record line { waiter = 0 })
]

unfoldable pub notify_from_isr : ℕ → Lines × Scheduler → Lines × Scheduler
notify_from_isr irq (ls, s) = elim (get_elem? ls irq) [
  | none ↦ (ls, s)
  | some line ↦ (
    set ls irq (record line { pending = u64 (line.pending + 1); count = u64 (line.count + 1) }),
    if line.waiter == 0 then s else unblock line.waiter s,
  )
]

unfoldable pub stats : ℕ → Lines → Option (ℕ × ℕ)
stats irq ls = get_elem? ls irq >>= λ line. some (line.owner, line.count)
