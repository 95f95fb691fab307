-- ===== src/Task.antt =====
-- kernel/src/task.rs, the part without machine code: the task list, the round-robin scheduler, and
-- blocking and waking. The saved stack pointers, the page tables' contents and the assembly of the
-- context switch are left out; `schedule` is the decision and the change of the task list.
pub mod Find
pub mod Scan
pub mod Running
pub mod Progress
pub mod Tests
use pickle_os.Base.{
  ℕ, suc, zero, ◌+◌, ◌-◌, ◌%◌, Bool, true, false, ◌||◌, Option, none, some, List, [], ◌∷◌, ◌++◌,
  ◌==◌, ltb, if◌then◌else◌, length, get_elem?, ◌>>=◌,
}
use pickle_os.Signal.{SignalState}

pub data State : Type 0 where
  runnable running blocked zombie dead : State

pub data Ring : Type 0 where
  kernel user : Ring

-- Exit statuses are 32-bit patterns.
pub record Task : Type 0 where
  pub id : ℕ
  pub state : State
  pub ring : Ring
  pub user_cr3 : Option ℕ
  pub parent : Option ℕ
  pub children : List ℕ
  pub exit_status : ℕ
  pub wait_blocked : Bool
  pub signals : SignalState

pub record Scheduler : Type 0 where
  pub tasks : List Task
  pub current : ℕ

abbrev pub is_runnable : State → Bool
is_runnable runnable = true
is_runnable running = false
is_runnable blocked = false
is_runnable zombie = false
is_runnable dead = false

abbrev pub is_running : State → Bool
is_running runnable = false
is_running running = true
is_running blocked = false
is_running zombie = false
is_running dead = false

abbrev pub is_blocked : State → Bool
is_blocked runnable = false
is_blocked running = false
is_blocked blocked = true
is_blocked zombie = false
is_blocked dead = false

abbrev pub is_zombie : State → Bool
is_zombie runnable = false
is_zombie running = false
is_zombie blocked = false
is_zombie zombie = true
is_zombie dead = false

abbrev pub is_dead : State → Bool
is_dead runnable = false
is_dead running = false
is_dead blocked = false
is_dead zombie = false
is_dead dead = true

-- `tasks.iter().find(|t| t.id == id)`
unfoldable pub find_task : ℕ → List Task → Option Task
find_task id [] = none
find_task id (t ∷ ts) = if t.id == id then some t else find_task id ts

-- `if let Some(t) = tasks.iter_mut().find(|t| t.id == id) { .. }`
unfoldable pub update_task : ℕ → (Task → Task) → List Task → List Task
update_task id f [] = []
update_task id f (t ∷ ts) = if t.id == id then f t ∷ ts else t ∷ update_task id f ts

-- `tasks[i]`, changed in place.
unfoldable pub modify_at : ℕ → (Task → Task) → List Task → List Task
modify_at i f [] = []
modify_at zero f (t ∷ ts) = f t ∷ ts
modify_at (suc i) f (t ∷ ts) = t ∷ modify_at i f ts

-- `tasks[current]`; an index out of range would be a panic, which `Running` excludes.
abbrev pub current_task : Scheduler → Option Task
current_task s = get_elem? s.tasks s.current

unfoldable pub current_id : Scheduler → ℕ
current_id s = elim (current_task s) [ none ↦ 0 | some t ↦ t.id ]

abbrev pub modify_current : (Task → Task) → Scheduler → Scheduler
modify_current f s = record s { tasks = modify_at s.current f s.tasks }

abbrev pub set_state : State → Task → Task
set_state st t = record t { state = st }

-- Blocked to Runnable.
abbrev pub wake : Task → Task
wake t = if is_blocked t.state then set_state runnable t else t

unfoldable pub unblock : ℕ → Scheduler → Scheduler
unblock id s = record s { tasks = update_task id wake s.tasks }

abbrev pub runnable_at : List Task → ℕ → Bool
runnable_at ts i = elim (get_elem? ts i) [ none ↦ false | some t ↦ is_runnable t.state ]

-- The search of `schedule`: `rounds` indices after `idx`, cyclically among `n`.
unfoldable pub scan : ℕ → ℕ → ℕ → List Task → Option ℕ
scan zero n idx ts = none
scan (suc rounds) n idx ts =
    let rest = scan rounds n ((idx + 1) % n) ts in
    if runnable_at ts ((idx + 1) % n) then some ((idx + 1) % n) else rest

-- Nobody else can run: the current task goes on if it can.
abbrev pub keep_running : Task → Task
keep_running t = if is_running t.state || is_runnable t.state then set_state running t else t

abbrev pub resume : Task → Task
resume t = if is_dead t.state then t else set_state running t

abbrev pub demote : Task → Task
demote t = if is_running t.state then set_state runnable t else t

abbrev pub switch_to : ℕ → Scheduler → Scheduler
switch_to next s = record {
  tasks = modify_at next (set_state running) (modify_at s.current demote s.tasks);
  current = next;
}

unfoldable pub schedule : Scheduler → Scheduler
schedule s =
    if length s.tasks == 0
    then s
    else elim (scan (length s.tasks) (length s.tasks) s.current s.tasks) [
      | none ↦ modify_current keep_running s
      | some next ↦ if next == s.current then modify_current resume s else switch_to next s
    ]

unfoldable pub block_current_and_schedule : Scheduler → Scheduler
unfolding schedule
block_current_and_schedule s = schedule (modify_current (set_state blocked) s)

-- `tasks.iter().position(|t| t.state == State::Dead)`, or the length.
unfoldable pub free_index : List Task → ℕ
free_index [] = 0
free_index (t ∷ ts) = let later = suc (free_index ts) in if is_dead t.state then 0 else later

-- The first dead slot is reused; with none, the task is pushed.
unfoldable pub add_task : Task → Scheduler → Scheduler × ℕ
unfolding free_index modify_at
add_task new s =
    let i = free_index s.tasks in
    (
      record s {
        tasks =
            if ltb i (length s.tasks) then modify_at i (λ _. new) s.tasks else s.tasks ++ new ∷ [];
      },
      i,
    )

-- `run`: the boot code switches to the first runnable task; with none it panics.
unfoldable pub first_runnable : List Task → Option ℕ
first_runnable [] = none
first_runnable (t ∷ ts) =
    let later = first_runnable ts >>= λ i. some (suc i) in
    if is_runnable t.state then some 0 else later

unfoldable pub run : Scheduler → Option Scheduler
unfolding first_runnable
run s = first_runnable s.tasks >>= λ i.
    some (record { tasks = modify_at i (set_state running) s.tasks; current = i })
