-- ===== src/Process/Kill/Permission.antt =====
-- Who may signal whom, and SIGKILL (kernel/src/task.rs, `do_kill`).
use pickle_os.Base.{ℕ, ◌≡◌, ◌⊎◌, refl, ◌≢◌, true, false, ◌||◌, some, List, arith, ◌==◌, get_elem?}
use pickle_os.Base.Members.{member}
use pickle_os.Signal.{sigkill}
use pickle_os.Task.{
  Task, current_task, current_id, kernel, find_task, update_task, is_zombie, is_dead,
}
use pickle_os.Process.{Kernel, terminate_task, bury, retire}
use pickle_os.Process.Aftermath.{find_task-ended, ended_task}
use pickle_os.Process.Exit.{ended_task_lem}
use pickle_os.Process.Kill.{may_signal, do_kill, apply_signal}

-- Who may signal `pid`: a kernel task; the task itself; one that lists it as a child, or that it names
-- as its parent; and the reaper.
abbrev pub Permitted : Task → ℕ → Kernel → Type 0
Permitted t pid k =
    (t.ring ≡ kernel)
    ⊎ (t.id ≡ pid)
    ⊎ (member pid t.children ≡ true)
    ⊎ ((i : ℕ) × (c : Task) × (get_elem? k.sched.tasks i ≡ some c)
        × (c.id ≡ pid)
        × (c.parent ≡ some t.id))
    ⊎ (k.reaper ≡ some t.id)

abbrev NamesParent : ℕ → ℕ → List Task → Type 0
NamesParent pid cur ts =
    (i : ℕ) × (c : Task) × (get_elem? ts i ≡ some c) × (c.id ≡ pid) × (c.parent ≡ some cur)

do_kill-terminated :
    (pid : ℕ) (k : Kernel) (t x : Task)
    → current_task k.sched ≡ some t
    → may_signal t pid k ≡ true
    → t.id ≢ pid
    → find_task pid k.sched.tasks ≡ some x
    → (is_zombie x.state || is_dead x.state) ≡ false
    → do_kill pid sigkill k ≡ (bury x (update_task pid (retire 137) k.sched.tasks) k, 0)
unfolding do_kill apply_signal terminate_task current_id
do_kill-terminated pid k t x e may other f live =
    let here : current_id k.sched ≡ t.id = rw (e, current_id) refl in
    let not_own : (pid == current_id k.sched) ≡ false = ground (arith, here, other) in
    let lives : (is_zombie x.state || is_dead x.state || sigkill == 0) ≡ false =
      ground (arith, live) in
    rw (e, may, f, lives, do_kill) (rw (not_own, f, live, terminate_task) refl)

-- SIGKILL from a permitted task to another live task always makes that a zombie with status 137,
-- whatever its dispositions.
pub do_kill-sigkill :
    (pid : ℕ) (k : Kernel) (t x : Task)
    → current_task k.sched ≡ some t
    → may_signal t pid k ≡ true
    → t.id ≢ pid
    → find_task pid k.sched.tasks ≡ some x
    → (is_zombie x.state || is_dead x.state) ≡ false
    → (u : Task) × (find_task pid (do_kill pid sigkill k).0.sched.tasks ≡ some u)
      × (is_zombie u.state ≡ true)
      × (u.exit_status ≡ 137)
      × ((do_kill pid sigkill k).1 ≡ 0)
do_kill-sigkill pid k t x e may other f live =
    let after : do_kill pid sigkill k ≡ (bury x (update_task pid (retire 137) k.sched.tasks) k, 0) =
      do_kill-terminated pid k t x e may other f live in
    let z : (is_zombie (ended_task pid 137 k.reaper x pid x).state ≡ true)
        × ((ended_task pid 137 k.reaper x pid x).exit_status ≡ 137) =
      ended_task_lem pid 137 k.reaper x x in
    (
      ended_task pid 137 k.reaper x pid x,
      rw after (find_task-ended pid 137 k.reaper x k.sched.tasks pid x f),
      z.0,
      z.1,
      rw after refl,
    )
