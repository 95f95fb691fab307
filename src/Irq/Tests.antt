-- ===== src/Irq/Tests.antt =====
-- The theorems on interrupt lines at concrete lines (kernel/src/driver/irq.rs).
use pickle_os.Base.{
  ◌+◌, ◌%◌, ◌^◌, false, ◌||◌, ◌≡◌, refl, none, some, List, [], ◌∷◌, ◌==◌, if◌then◌else◌, replicate,
  get_elem?, ◌&&◌, ◌>>=◌,
}
use pickle_os.Task.Tests.{demo}
use pickle_os.Irq.Ownership.{owner_of, owned_by, register_lem}
use pickle_os.Irq.Counting.{
  Event, interrupts, waits, registers, preempts, served, raised, pending_of, run,
  interrupts_balance,
}
use pickle_os.Irq.{Lines, new_line, register}

abbrev lines : Lines
lines = replicate 3 new_line

abbrev events : List Event
events = registers 1 4 ∷ interrupts 1 ∷ interrupts 1 ∷ waits 1 ∷ preempts ∷ interrupts 1 ∷ []

interrupts_balance_example :
    (served 1 (lines, demo) events + pending_of 1 (run (lines, demo) events).0) % 2 ^ 64
    ≡ (pending_of 1 lines + raised 1 events) % 2 ^ 64
interrupts_balance_example = interrupts_balance 1 events lines demo refl

register_example :
    ((register 1 4 lines).1
      ≡ (elim (owner_of 1 lines) [ none ↦ false | some owner ↦ owner == 0 || owner == 4 ]))
    × (get_elem? (register 1 4 lines).0 2 ≡ (
        if (register 1 4 lines).1 && 1 == 2
        then (get_elem? lines 2 >>= λ line. some (owned_by 4 line))
        else get_elem? lines 2))
register_example = register_lem 1 4 2 lines
