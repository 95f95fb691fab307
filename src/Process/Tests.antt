-- ===== src/Process/Tests.antt =====
-- The theorems on processes at a concrete parent and child (kernel/src/task.rs).
use pickle_os.Base.{ℕ, ◌+◌, ◌%◌, ◌≡◌, refl, true, Option, none, some, [], ◌∷◌, arith}
use pickle_os.Base.Maps
use pickle_os.Base.Maps.{nat_key}
use pickle_os.Base.Members.{member}
use pickle_os.Signal
use pickle_os.Signal.{
  SignalState, sigchld, sigkill, set_pending, clear_pending, next_deliverable, scan_pending,
}
use pickle_os.Ipc
use pickle_os.Wm
use pickle_os.Files.{Files}
use pickle_os.Task.{
  Task, running, runnable, user, is_zombie, find_task, update_task, current_task, run, schedule,
  scan, add_task,
}
use pickle_os.Process.{Kernel, spawn, do_fork, reschedule, do_exit, new_task, hand_over, reparent}
use pickle_os.Process.Kill.{
  Frame, do_kill, may_signal, to_deliver, deliver_pending_signals, do_sigreturn,
}
use pickle_os.Process.Kill.Permission.{do_kill-sigkill}
use pickle_os.Process.Kill.Delivery.{do_sigreturn-deliver_pending_signals}
use pickle_os.Process.Sound.{Runs, IsValid}
use pickle_os.Process.Histories.{
  Reachable, boot, after, started, spawned, forked, preempted, exited, Reachable-IsValid,
}
use pickle_os.Process.Exit.{Exited, do_exit_lem}
use pickle_os.Process.Wait.{RoundDone, wait_round_lem}

abbrev no_files : Files
no_files = record { tables = []; pipes = []; next_pipe = 0; creds = []; destroyed = [] }

abbrev no_tasks : Kernel
no_tasks = record {
  sched = record { tasks = []; current = 0 };
  ipc = Ipc.init;
  wm = Wm.init;
  files = no_files;
  reaper = none;
  next_id = 1;
}

-- Task 1 is spawned and started; it forks task 2, which runs after a timer tick and exits.
abbrev one_task : Kernel
one_task = (spawn user (some 7) no_tasks).0

abbrev parent_task : Task
parent_task = record (new_task 1 user (some 7) none Signal.new) { state = running }

abbrev parent_runs : Kernel
parent_runs = record one_task { sched = record { tasks = parent_task ∷ []; current = 0 } }

abbrev two_tasks : Kernel
two_tasks = (do_fork (λ cr3. cr3 + 1) parent_runs).0

abbrev child_runs : Kernel
child_runs = reschedule two_tasks

abbrev child_task : Task
child_task = record (new_task 2 user (some 8) (some 1) Signal.new) { state = running }

abbrev child_ended : Kernel
child_ended = do_exit 5 child_runs

abbrev with_child : Task
with_child = record parent_task { children = 2 ∷ [] }

abbrev told_task : Task
told_task = record with_child { signals = set_pending Signal.new sigchld }

parent_runs-Runs : Runs parent_runs parent_task
unfolding new_task
parent_runs-Runs = (refl, refl)

two_tasks-Runs : Runs two_tasks with_child
unfolding new_task spawn add_task do_fork update_task
two_tasks-Runs = (refl, refl)

child_runs-Runs : Runs child_runs child_task
unfolding new_task spawn add_task do_fork schedule update_task scan Signal.new
child_runs-Runs = (refl, refl)

child_ended-Runs : Runs child_ended told_task
unfolding new_task spawn add_task do_fork schedule do_exit hand_over update_task scan reparent
child_ended-Runs = (refl, refl)

run-one_task : run one_task.sched ≡ some parent_runs.sched
unfolding spawn new_task add_task run
run-one_task = refl

Reachable-two_tasks : Reachable two_tasks
Reachable-two_tasks =
    after parent_runs two_tasks
      (after one_task parent_runs
        (after no_tasks one_task (boot Ipc.init Wm.init no_files 1)
          (spawned no_tasks user (some 7)))
        (started one_task parent_runs.sched run-one_task))
      (forked parent_runs parent_task (λ cr3. cr3 + 1) parent_runs-Runs)

Reachable-child_runs : Reachable child_runs
Reachable-child_runs = after two_tasks child_runs Reachable-two_tasks (preempted two_tasks)

Reachable-IsValid_example : IsValid child_runs
Reachable-IsValid_example = Reachable-IsValid child_runs Reachable-child_runs

child_ended-IsValid : IsValid child_ended
child_ended-IsValid = Reachable-IsValid child_ended (
    after child_runs child_ended Reachable-child_runs
      (exited child_runs child_task 5 child_runs-Runs))

no_windows : Maps.Distinct child_runs.wm.windows
unfolding do_fork spawn schedule Wm.init new_task
no_windows = tt

do_exit_lem_example : Exited 5 child_runs child_task
do_exit_lem_example =
    do_exit_lem 5 child_runs child_task child_runs-Runs Reachable-IsValid_example no_windows

wait_round_lem_example : RoundDone child_ended told_task
wait_round_lem_example = wait_round_lem child_ended told_task child_ended-Runs child_ended-IsValid

do_kill-sigkill_example :
    (u : Task) × (find_task 2 (do_kill 2 sigkill two_tasks).0.sched.tasks ≡ some u)
    × (is_zombie u.state ≡ true)
    × (u.exit_status ≡ 137)
    × ((do_kill 2 sigkill two_tasks).1 ≡ 0)
unfolding may_signal new_task spawn add_task do_fork member find_task update_task Signal.new
do_kill-sigkill_example =
    do_kill-sigkill 2 two_tasks with_child (record child_task { state = runnable }) two_tasks-Runs.0
      refl (λ h. ground (arith, h)) refl refl

-- Signal 10 with its handler, pending for the only task.
abbrev caught : SignalState
caught = record {
  pending = 1024;
  handlers = 0 ∷ 0 ∷ 0 ∷ 0 ∷ 0 ∷ 0 ∷ 0 ∷ 0 ∷ 0 ∷ 0 ∷ 4096 ∷ [];
  restorer = 8192;
  saved = none;
}

abbrev catching_task : Task
catching_task = record (new_task 1 user (some 7) none caught) { state = running }

abbrev catching : Kernel
catching = record no_tasks { sched = record { tasks = catching_task ∷ []; current = 0 } }

abbrev in_user : Frame
in_user = record { rip = 100; rflags = 2; rsp = 1000; rdi = 3 }

abbrev in_handler : Frame
in_handler = record { rip = 4200; rflags = 6; rsp = 992; rdi = 0 }

do_sigreturn-deliver_pending_signals_example :
    let d : Kernel × Frame × Option (ℕ × ℕ) = deliver_pending_signals in_user 42 catching in
    let r : Kernel × Frame × ℕ = do_sigreturn in_handler d.0 in
    (d.1.rsp % 16 ≡ 8)
    × (deliver_pending_signals in_handler 42 d.0 ≡ (d.0, in_handler, none))
    × (r.1 ≡ record in_handler { rip = 100; rflags = 2; rsp = 1000 })
    × (r.2 ≡ 42)
    × (current_task r.0.sched ≡ some (record catching_task { signals = clear_pending caught 10 }))
unfolding to_deliver next_deliverable scan_pending new_task
do_sigreturn-deliver_pending_signals_example =
    do_sigreturn-deliver_pending_signals in_user in_handler 42 10 4096 catching catching_task refl
      refl
