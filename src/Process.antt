-- ===== src/Process.antt =====
-- kernel/src/task.rs, the process calls: exit, wait, fork, kill, signals and the reaper. The state is
-- the task list with the other parts that these calls touch. They run with interrupts disabled, so
-- each is one step; `do_wait` sleeps between rounds, so a round is one step. The new address space
-- and the kernel stacks are machine state: a fork's page table is the parameter `cow`.
pub mod Tree
pub mod Nodes
pub mod Forests
pub mod Sound
pub mod Moved
pub mod Aftermath
pub mod Exit
pub mod Wait
pub mod Tests
pub mod Histories
pub mod Kill
pub mod Exec
use pickle_os.Base.{
  ℕ, suc, zero, ◌+◌, ◌-◌, ◌%◌, ◌^◌, Bool, true, false, not, ◌&&◌, ◌||◌, Option, none, some, List,
  [], ◌∷◌, ◌++◌, ◌==◌, ltb, leb, if◌then◌else◌, is_some, get_or, set, length, ◌>>=◌,
}
use pickle_os.Base.Members.{member, retain_ne}
use pickle_os.Signal
use pickle_os.Signal.{
  SignalState, SavedSigContext, nsig, sigkill, sigchld, sig_dfl, sig_ign, set_pending,
  clear_pending, next_deliverable, default_terminates,
}
use pickle_os.Task.{
  Task, Scheduler, State, Ring, runnable, blocked, zombie, dead, user, kernel, is_blocked,
  is_zombie, is_dead, find_task, update_task, current_task, current_id, modify_at, modify_current,
  set_state, schedule, add_task,
}
use pickle_os.Ipc.{Ipc, cleanup_reply_slot}
use pickle_os.Wm.{Wm, destroy_windows_owned_by}
use pickle_os.Files.{Files, cleanup_task_fds, clone_task_fds, init_task_fds}

-- `INIT_TASK_ID` is `reaper`, and `NEXT_ID` is `next_id`.
pub record Kernel : Type 0 where
  pub sched : Scheduler
  pub ipc : Ipc
  pub wm : Wm
  pub files : Files
  pub reaper : Option ℕ
  pub next_id : ℕ

-- `u64::MAX`
abbrev pub error_code : ℕ
error_code = 2 ^ 64 - 1

-- `id as u32`
abbrev pub as_u32 : ℕ → ℕ
as_u32 id = id % 2 ^ 32

unfoldable pub set_init_task : ℕ → Kernel → Kernel
set_init_task id k = record k { reaper = some id }

abbrev pub with_tasks : (List Task → List Task) → Kernel → Kernel
with_tasks f k = record k { sched = record k.sched { tasks = f k.sched.tasks } }

abbrev pub reschedule : Kernel → Kernel
reschedule k = record k { sched = schedule k.sched }

-- A new kernel task, and a user task from an entry point with the page table `cr3`.
unfoldable pub new_task : ℕ → Ring → Option ℕ → Option ℕ → SignalState → Task
new_task id ring cr3 parent signals = record {
  id = id;
  state = runnable;
  ring = ring;
  user_cr3 = cr3;
  parent = parent;
  children = [];
  exit_status = 0;
  wait_blocked = false;
  signals = signals;
}

unfoldable pub spawn : Ring → Option ℕ → Kernel → Kernel × ℕ
spawn ring cr3 k = (
  record k {
    sched = (add_task (new_task k.next_id ring cr3 none Signal.new) k.sched).0;
    files = init_task_fds (as_u32 k.next_id) k.files;
    next_id = k.next_id + 1;
  },
  k.next_id,
)

abbrev pub spawn_kernel_task : Kernel → Kernel × ℕ
spawn_kernel_task = spawn kernel none

abbrev pub spawn_user_from_entry : ℕ → Kernel → Kernel × ℕ
spawn_user_from_entry cr3 = spawn user (some cr3)

-- The task ends; its list of children is taken.
abbrev pub retire : ℕ → Task → Task
retire status t = record t { exit_status = status; state = zombie; children = [] }

abbrev pub set_parent : Option ℕ → Task → Task
set_parent parent t = record t { parent = parent }

unfoldable pub reparent : Option ℕ → List ℕ → List Task → List Task
reparent reaper [] ts = ts
reparent reaper (c ∷ cs) ts = reparent reaper cs (update_task c (set_parent reaper) ts)

abbrev pub adopt : List ℕ → Task → Task
adopt children t = record t { children = t.children ++ children }

-- `if let Some(pid) = ..` and the update of that task.
abbrev pub update_option : Option ℕ → (Task → Task) → List Task → List Task
update_option none f ts = ts
update_option (some id) f ts = update_task id f ts

-- The surviving children go to the reaper. With none, both loops change nothing.
unfoldable pub hand_over : Option ℕ → List ℕ → List Task → List Task
hand_over reaper children ts = update_option reaper (adopt children) (reparent reaper children ts)

-- SIGCHLD for the parent, which wakes if it sleeps in `wait`.
abbrev pub child_died : Task → Task
child_died t = record t {
  signals = set_pending t.signals sigchld;
  state = if is_blocked t.state && t.wait_blocked then runnable else t.state;
}

-- What follows the retirement of task `t`, which left the list `ts`, in both ways to end.
abbrev pub bury : Task → List Task → Kernel → Kernel
bury t ts k = record k {
  sched = record k.sched {
    tasks = update_option t.parent child_died (hand_over k.reaper t.children ts);
  };
  files = cleanup_task_fds (as_u32 t.id) k.files;
}

unfoldable pub do_exit : ℕ → Kernel → Kernel
do_exit status k = elim (current_task k.sched) [
  | none ↦ k
  | some t ↦
      reschedule (record (bury t (modify_at k.sched.current (retire status) k.sched.tasks) k) {
        ipc = cleanup_reply_slot t.id k.ipc;
        wm = (destroy_windows_owned_by t.id k.wm).0;
      })
]

-- A task that terminates itself does not return, so its result is not seen.
unfoldable pub terminate_task : ℕ → ℕ → Kernel → Kernel × Bool
terminate_task id status k =
    if id == current_id k.sched
    then (do_exit status k, true)
    else elim (find_task id k.sched.tasks) [
      | none ↦ (k, false)
      | some t ↦
          if is_zombie t.state || is_dead t.state
          then (k, false)
          else (bury t (update_task id (retire status) k.sched.tasks) k, true)
    ]

-- The first child that has terminated, with its status.
unfoldable pub first_zombie : List ℕ → List Task → Option (ℕ × ℕ)
first_zombie [] ts = none
first_zombie (c ∷ cs) ts =
    let later = first_zombie cs ts in
    elim (find_task c ts) [
      | none ↦ later
      | some t ↦ if is_zombie t.state then some (c, t.exit_status) else later
    ]

pub data WaitRound : Type 0 where
  no_children : WaitRound
  reaped : ℕ → ℕ → WaitRound
  sleeps : WaitRound

abbrev pub forget : ℕ → Task → Task
forget c t = record t { children = retain_ne c t.children }

-- The slot of child `c` is dead, in the list that its parent's change left.
abbrev pub reap : ℕ → List Task → Kernel → Kernel
reap c ts k = record k {
  sched = record k.sched { tasks = update_task c (set_state dead) ts };
  files = cleanup_task_fds (as_u32 c) k.files;
}

-- One round of `do_wait`.
unfoldable pub wait_round : Kernel → Kernel × WaitRound
wait_round k = elim (current_task k.sched) [
  | none ↦ (k, no_children)
  | some t ↦
      if length t.children == 0
      then (k, no_children)
      else elim (first_zombie t.children k.sched.tasks) [
        | some (c, status) ↦
            (reap c (modify_at k.sched.current (forget c) k.sched.tasks) k, reaped c status)
        | none ↦ (
          reschedule (record k {
            sched = modify_current (λ u. record u { wait_blocked = true; state = blocked }) k.sched;
          }),
          sleeps,
        )
      ]
]

-- After the sleep, before the next round.
unfoldable pub wait_resumed : Kernel → Kernel
wait_resumed k = record k {
  sched = modify_current (λ t. record t { wait_blocked = false }) k.sched;
}

-- The status is written through a pointer only if its four bytes are in the user's half.
unfoldable pub status_write : ℕ → ℕ → Option (ℕ × ℕ)
status_write ptr status =
    if not (ptr == 0) && ltb ptr (2 ^ 47) && leb (ptr + 4) (2 ^ 47)
    then some (ptr, status)
    else none

-- Dispositions are inherited; nothing is pending and no handler runs.
abbrev pub inherited : SignalState → SignalState
inherited s = record s { pending = 0; saved = none }

unfoldable pub do_fork : (ℕ → ℕ) → Kernel → Kernel × ℕ
do_fork cow k = elim (current_task k.sched) [
  | none ↦ (k, error_code)
  | some t ↦ elim t.user_cr3 [
    | none ↦ (k, error_code)
    | some cr3 ↦ (
      with_tasks (update_task t.id (adopt (k.next_id ∷ []))) (record k {
        sched =
            (add_task (new_task k.next_id user (some (cow cr3)) (some t.id) (inherited t.signals))
              k.sched).0;
        files = clone_task_fds (as_u32 t.id) (as_u32 k.next_id) k.files;
        next_id = k.next_id + 1;
      }),
      k.next_id,
    )
  ]
]

unfoldable pub current_ppid : Kernel → ℕ
current_ppid k = elim (current_task k.sched >>= λ t. t.parent) [ none ↦ 0 | some p ↦ p ]

-- `reap_orphans`: the reaper's children that are zombies, one after the other.
unfoldable pub any_zombie : ℕ → List Task → Bool
any_zombie c [] = false
any_zombie c (t ∷ ts) = t.id == c && is_zombie t.state || any_zombie c ts

unfoldable pub zombies_of : List ℕ → List Task → List ℕ
unfolding any_zombie
zombies_of [] ts = []
zombies_of (c ∷ cs) ts =
    let later = zombies_of cs ts in if any_zombie c ts then c ∷ later else later

-- The body of its loop. Other tasks run between two of these.
abbrev pub reap_orphan : ℕ → ℕ → Kernel → Kernel
reap_orphan reaper c k = reap c (update_task reaper (forget c) k.sched.tasks) k

unfoldable pub reap_all : ℕ → List ℕ → Kernel → Kernel
reap_all reaper [] k = k
reap_all reaper (c ∷ cs) k = reap_all reaper cs (reap_orphan reaper c k)

-- A call during which no other task runs.
unfoldable pub reap_orphans : Kernel → Kernel
unfolding zombies_of reap_all
reap_orphans k = elim k.reaper [
  | none ↦ k
  | some r ↦ elim (find_task r k.sched.tasks) [
    | none ↦ k
    | some t ↦ reap_all r (zombies_of t.children k.sched.tasks) k
  ]
]
