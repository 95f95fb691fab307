-- ===== src/Task/Tests.antt =====
-- The theorems on the scheduler at concrete task lists (kernel/src/task.rs).
use pickle_os.Base.{
  ℕ, suc, zero, ◌≤◌, ◌<◌, false, ◌≡◌, refl, ◌⊎◌, none, some, [], ◌∷◌, arith, get_elem?, length, ◌∙◌,
}
use pickle_os.Signal
use pickle_os.Task.Running.{
  OnlyCurrentRuns, NoneRunnable, IsNext, AtCurrent, schedule_round_robin, schedule-OnlyCurrentRuns,
}
use pickle_os.Task.Progress.{Between, Turns, schedule-keeps, no_starvation}
use pickle_os.Task.{Task, Scheduler, State, runnable, running, blocked, kernel, schedule}

abbrev pub demo_task : ℕ → State → Task
demo_task id state = record {
  id = id;
  state = state;
  ring = kernel;
  user_cr3 = none;
  parent = none;
  children = [];
  exit_status = 0;
  wait_blocked = false;
  signals = Signal.new;
}

-- Task 0 runs, task 1 is blocked, task 2 can run.
abbrev pub demo : Scheduler
demo = record {
  tasks = demo_task 0 running ∷ demo_task 1 blocked ∷ demo_task 2 runnable ∷ [];
  current = 0;
}

-- Before the first decision, task 0 starts a task.
abbrev with_new : Scheduler
with_new = record {
  tasks =
      demo_task 0 running ∷ demo_task 1 blocked ∷ demo_task 2 runnable ∷ demo_task 3 runnable ∷ [];
  current = 0;
}

abbrev history : ℕ → Scheduler
history zero = demo
history (suc zero) = schedule with_new
history (suc (suc m)) = schedule (history (suc m))

abbrev before : ℕ → Scheduler
before zero = with_new
before (suc m) = history (suc m)

schedule_round_robin_example :
    (NoneRunnable demo × ((schedule demo).current ≡ demo.current))
    ⊎ (IsNext demo (schedule demo).current × AtCurrent (schedule demo) running)
schedule_round_robin_example = schedule_round_robin demo (omega arith)

demo-OnlyCurrentRuns : OnlyCurrentRuns demo
demo-OnlyCurrentRuns = record { in_range = omega arith; alone = alone }
  where
    alone : (i : ℕ) (t : Task) → get_elem? demo.tasks i ≡ some t → t.state ≡ running → i ≡ 0
    alone zero t e r = refl
    alone (suc zero) t e r = absurd (ground arith)
    alone (suc (suc zero)) t e r = absurd (ground arith)
    alone (suc (suc (suc i))) t e r = absurd (ground arith)

schedule-OnlyCurrentRuns_example : OnlyCurrentRuns (schedule demo)
schedule-OnlyCurrentRuns_example = schedule-OnlyCurrentRuns demo demo-OnlyCurrentRuns

history_keeps :
    (m : ℕ)
    → ((history (suc m)).current < length (history (suc m)).tasks)
      × (length (history (suc m)).tasks ≡ 4)
history_keeps zero = schedule-keeps with_new (omega arith)
history_keeps (suc m) =
    let (lt, four) = history_keeps m in
    let r = schedule-keeps (history (suc m)) lt in (r.0, r.1 ∙ four)

history-Turns : Turns 2 4 history
history-Turns = record {
  before_decision = before;
  between = between;
  decides = decides;
  bounded = bounded;
}
  where
    between : (m : ℕ) → Between 2 (history m) (before m)
    between zero = record {
      same_current = refl;
      no_shorter = omega arith;
      still_runnable = λ h. refl;
    }
    between (suc m) = record {
      same_current = refl;
      no_shorter = omega arith;
      still_runnable = λ h. h;
    }

    decides : (m : ℕ) → history (suc m) ≡ schedule (before m)
    decides zero = refl
    decides (suc m) = refl

    bounded : (m : ℕ) → length (before m).tasks ≤ 4
    bounded zero = omega arith
    bounded (suc m) = let r = history_keeps m in omega (arith, r.1)

no_starvation_example : (m : ℕ) × (0 < m) × (m ≤ 4) × ((history m).current ≡ 2)
no_starvation_example = no_starvation 2 4 history history-Turns (omega arith) (omega arith) refl
