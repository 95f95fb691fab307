-- ===== src/Process/Exec.antt =====
-- kernel/src/task.rs, `do_exec`: the current task gets another program. The loader, which runs with
-- interrupts enabled before the rest, is a parameter: its result, an entry point and a stack, and the
-- page tables in `user_page_tables` after it, of which the last is taken for the new one.
use pickle_os.Base.{ℕ, Option, none, some, List, [], ◌∷◌}
use pickle_os.Signal.{reset_for_exec}
use pickle_os.Task.{Task, modify_current}
use pickle_os.Process.{Kernel, error_code}
use pickle_os.Process.Kill.{Frame}

abbrev pub last : List ℕ → Option ℕ
last [] = none
last (x ∷ xs) = elim (last xs) [ none ↦ some x | some y ↦ some y ]

abbrev pub with_program : ℕ → Task → Task
with_program cr3 t = record t { user_cr3 = some cr3; signals = reset_for_exec t.signals }

unfoldable pub do_exec : Option (ℕ × ℕ) → List ℕ → Frame → Kernel → Kernel × Frame × ℕ
do_exec none tables frame k = (k, frame, error_code)
do_exec (some (entry, stack)) tables frame k = elim (last tables) [
  | none ↦ (k, frame, error_code)
  | some cr3 ↦ (
    record k { sched = modify_current (with_program cr3) k.sched },
    record { rip = entry; rflags = 514; rsp = stack; rdi = 0 },
    0,
  )
]
