-- ===== src/Process/Sound.antt =====
-- The scheduler's state with its process tree, through scheduling and each kind of change
-- (kernel/src/task.rs).
pub mod Ends
pub mod Reaps
pub mod Adds
pub mod Signals
use pickle_os.Base.{
  sym, ◌∙◌, subst, refl, ℕ, zero, suc, ◌≡◌, ◌≢◌, ◌⊎◌, ◌<◌, ◌≤◌, ◌+◌, ◌-◌, refl, ◌∙◌, sym, ap, subst,
  ◌==◌, ==_iff, Bool, true, false, ◌||◌, ◌++◌, Option, none, some, List, [], ◌∷◌, arith, Bool-cases,
  Option-cases, inl, inr, if◌then◌else◌, ◌&&◌, length, get_elem?-lt, leb, get_or,
}
use pickle_os.Signal.{sigkill, sig_ign, sig_dfl, nsig, default_terminates}
use pickle_os.Task.{
  Task, Scheduler, Ring, State, running, dead, blocked, is_dead, is_zombie, find_task, update_task,
  set_state, current_task, current_id, modify_at, modify_current, schedule,
  block_current_and_schedule, unblock, run, wake, add_task,
}
use pickle_os.Task.Find.{length-modify_at, length-update_task, get_elem?-modify_at}
use pickle_os.Process.{
  update_option, adopt, forget, Kernel, reschedule, spawn, set_init_task, do_exit, wait_round,
  wait_resumed, do_fork, reap_orphans, retire, bury, terminate_task, new_task, with_tasks,
}
use pickle_os.Process.Kill.{
  do_kill, do_signal, Frame, deliver_pending_signals, do_sigreturn, apply_signal, raise,
}
use pickle_os.Process.Forests.{
  IsForest, IsForest-Alike, IsForest-ended, IsForest-reaped, IsForest-added,
}
use pickle_os.Process.Nodes.{
  node, ids, Distinct, Alike, Alike-trans, Alike-update_task, Alike-modify_at, length-ids_same,
  modify_at-update_task, find_task-get_elem?,
}
use pickle_os.Process.Nodes.Scheduling.{Alike-schedule, set_state_keeps}
use pickle_os.Process.Nodes.Ends.{ended, ids-ended, ids-update_option}
use pickle_os.Process.Nodes.Adds.{placed, length-placed, add_task-placed}
use pickle_os.Process.Tree.Add.{new_node}

-- Distinct ids and a process tree; the current index is a task's, once there is a task.
pub record IsSound (s : Scheduler) (reaper : Option ℕ) (next : ℕ) : Type 0 where
  pub forest : IsForest s.tasks reaper next
  pub in_range : s.current ≤ length s.tasks - 1

pub IsSound-Alike :
    (s u : Scheduler) (r : Option ℕ) (n : ℕ)
    → Alike u.tasks s.tasks
    → u.current ≤ length u.tasks - 1
    → IsSound s r n
    → IsSound u r n
IsSound-Alike s u r n a h v = record {
  forest = IsForest-Alike u.tasks s.tasks r n a v.forest;
  in_range = h;
}

pub IsSound-schedule :
    (s : Scheduler) (r : Option ℕ) (n : ℕ) → IsSound s r n → IsSound (schedule s) r n
unfolding schedule
IsSound-schedule s r n v = elim (Bool-cases (length s.tasks == 0)) [
  | inl none_yet ↦ rw (none_yet, schedule) v
  | inr some_task ↦
      let a : Alike (schedule s).tasks s.tasks
          × ((schedule s).current < length (schedule s).tasks) =
        Alike-schedule s (ground (arith, some_task, v.in_range)) in
      IsSound-Alike s (schedule s) r n a.0 (omega (arith, a.1)) v
]

-- A change of the current task that keeps its id and its node.
pub IsSound-modify_current :
    (f : Task → Task) (s : Scheduler) (r : Option ℕ) (n : ℕ)
    → ((t : Task) → current_task s ≡ some t → ((f t).id ≡ t.id) × (node (f t) ≡ node t))
    → IsSound s r n
    → IsSound (modify_current f s) r n
IsSound-modify_current f s r n keep v =
    IsSound-Alike s (modify_current f s) r n (Alike-modify_at s.current f s.tasks keep)
      (omega (arith, v.in_range, length-modify_at s.current f s.tasks)) v

pub IsSound-update_task :
    (id : ℕ) (f : Task → Task) (s : Scheduler) (r : Option ℕ) (n : ℕ)
    → ((t : Task) → (f t).id ≡ t.id)
    → ((t : Task) → node (f t) ≡ node t)
    → IsSound s r n
    → IsSound (record s { tasks = update_task id f s.tasks }) r n
IsSound-update_task id f s r n keep same v =
    IsSound-Alike s (record s { tasks = update_task id f s.tasks }) r n
      (Alike-update_task id f s.tasks keep same)
      (omega (arith, v.in_range, length-update_task id f s.tasks)) v

-- The task list after task `t` has ended.
pub IsSound-ended :
    (p status : ℕ) (t : Task) (s : Scheduler) (r : Option ℕ) (n : ℕ)
    → find_task p s.tasks ≡ some t
    → is_dead t.state ≡ false
    → IsSound s r n
    → IsSound (record s { tasks = ended p status r t s.tasks }) r n
IsSound-ended p status t s r n e live v = record {
  forest = IsForest-ended p status r n t s.tasks e live v.forest;
  in_range = omega (
    arith,
    v.in_range,
    length-ids_same (ended p status r t s.tasks) s.tasks (ids-ended p status r t s.tasks),
  );
}

pub IsSound-reaped :
    (c p : ℕ) (s : Scheduler) (r : Option ℕ) (n : ℕ)
    → ((t : Task) → find_task c s.tasks ≡ some t → t.parent ≡ some p)
    → IsSound s r n
    → IsSound
        (record s { tasks = update_task c (set_state dead) (update_task p (forget c) s.tasks) })
        r
        n
IsSound-reaped c p s r n child v = record {
  forest = IsForest-reaped c p r n s.tasks child v.forest;
  in_range = omega (
    arith,
    v.in_range,
    length-update_task c (set_state dead) (update_task p (forget c) s.tasks),
    length-update_task p (forget c) s.tasks,
  );
}

pub IsSound-added :
    (new : Task) (s : Scheduler) (r : Option ℕ)
    → node new ≡ new_node new.parent
    → ((p : ℕ) → new.parent ≡ some p → p < new.id)
    → IsSound s r new.id
    → IsSound
        (record s {
          tasks = update_option new.parent (adopt (new.id ∷ [])) (add_task new s).0.tasks;
        })
        r
        (new.id + 1)
IsSound-added new s r fresh low v = rw (add_task-placed new s) (record {
  forest = IsForest-added new r s.tasks fresh low v.forest;
  in_range =
      let us = update_option new.parent (adopt (new.id ∷ [])) (placed new s.tasks) in
      omega (
        arith,
        v.in_range,
        length-placed new s.tasks,
        length-ids_same us (placed new s.tasks)
            (ids-update_option new.parent (adopt (new.id ∷ [])) (placed new s.tasks) (λ t. refl)),
      );
})

-- The running task makes a call.
abbrev pub Runs : Kernel → Task → Type 0
Runs k t = (current_task k.sched ≡ some t) × (t.state ≡ running)

abbrev pub IsValid : Kernel → Type 0
IsValid k = IsSound k.sched k.reaper k.next_id

pub live_current :
    (k : Kernel) (t : Task)
    → Runs k t
    → (u : Task) → current_task k.sched ≡ some u
    → false ≡ is_dead u.state
live_current k t (at, up) u f =
    let same : t ≡ u = ground (arith, sym at ∙ f) in
    subst (λ x. false ≡ is_dead x.state) same (rw up refl)
