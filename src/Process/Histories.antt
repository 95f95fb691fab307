-- ===== src/Process/Histories.antt =====
-- What holds of the processes after any sequence of process calls and scheduling decisions
-- (kernel/src/task.rs).
use pickle_os.Base.{
  suc, get_elem?, get_elem?-lt, ℕ, ◌≡◌, ◌<◌, refl, subst, true, false, Option, none, some, List, [],
  ◌∷◌, arith, Bool-cases, Option-cases, inl, inr,
}
use pickle_os.Base.Members.{member}
use pickle_os.Task.{
  is_runnable, is_zombie, is_dead, runnable, zombie, dead, first_runnable, modify_at, find_task,
  Task, Scheduler, Ring, State, running, blocked, set_state, block_current_and_schedule, unblock,
  run, wake, modify_current,
}
use pickle_os.Ipc.{Ipc}
use pickle_os.Wm.{Wm}
use pickle_os.Files.{Files}
use pickle_os.Process.{
  Kernel, reschedule, spawn, set_init_task, do_exit, wait_round, wait_resumed, do_fork, reap_orphan,
  reap_orphans,
}
use pickle_os.Process.Exec.{do_exec}
use pickle_os.Process.Kill.{do_kill, do_signal, Frame, deliver_pending_signals, do_sigreturn}
use pickle_os.Process.Sound.{
  live_current, IsSound, Runs, IsValid, IsSound-schedule, IsSound-update_task,
  IsSound-modify_current, IsSound-Alike,
}
use pickle_os.Process.Sound.Ends.{IsValid-do_exit, IsValid-do_kill}
use pickle_os.Process.Sound.Reaps.{IsValid-wait_round, IsValid-reap_orphan, IsValid-reap_orphans}
use pickle_os.Process.Sound.Adds.{IsValid-do_fork, IsValid-spawn, IsValid-set_init_task}
use pickle_os.Process.Sound.Signals.{
  IsValid-do_exec, IsValid-modify_current, IsValid-do_signal, IsValid-deliver_pending_signals,
  IsValid-do_sigreturn,
}
use pickle_os.Process.Tree.{IsTree}
use pickle_os.Task.Find.{length-modify_at}
use pickle_os.Process.Nodes.{nodes, ids, Distinct, Alike-modify_at}
use pickle_os.Process.Nodes.Scheduling.{wake-id, wake-node, set_state_keeps}

-- One event. The calls are the running task's.
pub data Step : Kernel → Kernel → Type 0 where
  started : (k : Kernel) (s : Scheduler) → run k.sched ≡ some s → Step k (record k { sched = s })
  preempted : (k : Kernel) → Step k (reschedule k)
  slept :
      (k : Kernel) (t : Task)
      → Runs k t
      → Step k (record k { sched = block_current_and_schedule k.sched })
  woken_up : (k : Kernel) (id : ℕ) → Step k (record k { sched = unblock id k.sched })
  spawned : (k : Kernel) (ring : Ring) (cr3 : Option ℕ) → Step k (spawn ring cr3 k).0
  reaper_chosen : (k : Kernel) (id : ℕ) → id < k.next_id → Step k (set_init_task id k)
  forked : (k : Kernel) (t : Task) (cow : ℕ → ℕ) → Runs k t → Step k (do_fork cow k).0
  exited : (k : Kernel) (t : Task) (status : ℕ) → Runs k t → Step k (do_exit status k)
  waited : (k : Kernel) (t : Task) → Runs k t → Step k (wait_round k).0
  resumed : (k : Kernel) (t : Task) → Runs k t → Step k (wait_resumed k)
  killed : (k : Kernel) (t : Task) (pid sig : ℕ) → Runs k t → Step k (do_kill pid sig k).0
  disposed :
      (k : Kernel) (t : Task) (sig handler restorer : ℕ)
      → Runs k t
      → Step k (do_signal sig handler restorer k).0
  delivered :
      (k : Kernel) (t : Task) (frame : Frame) (ret : ℕ)
      → Runs k t
      → Step k (deliver_pending_signals frame ret k).0
  returned : (k : Kernel) (t : Task) (frame : Frame) → Runs k t → Step k (do_sigreturn frame k).0
  executed :
      (k : Kernel) (t : Task) (loaded : Option (ℕ × ℕ)) (tables : List ℕ) (frame : Frame)
      → Runs k t
      → Step k (do_exec loaded tables frame k).0
  orphans_reaped : (k : Kernel) → Step k (reap_orphans k)
  orphan_reaped :
      (k : Kernel) (r c : ℕ) (t x : Task)
      → k.reaper ≡ some r
      → find_task r k.sched.tasks ≡ some t
      → member c t.children ≡ true
      → find_task c k.sched.tasks ≡ some x
      → is_zombie x.state ≡ true
      → Step k (reap_orphan r c k)
  elsewhere :
      (k : Kernel) (ipc : Ipc) (wm : Wm) (files : Files)
      → Step k (record k { ipc = ipc; wm = wm; files = files })

-- Any number of steps from the state at boot, before the first task.
pub data Reachable : Kernel → Type 0 where
  boot :
      (ipc : Ipc) (wm : Wm) (files : Files) (next_id : ℕ)
      → Reachable (record {
        sched = record { tasks = []; current = 0 };
        ipc = ipc;
        wm = wm;
        files = files;
        reaper = none;
        next_id = next_id;
      })
  after : (k l : Kernel) → Reachable k → Step k l → Reachable l

first_runnable_lem :
    (ts : List Task) (i : ℕ)
    → first_runnable ts ≡ some i
    → (t : Task) × (get_elem? ts i ≡ some t) × (is_runnable t.state ≡ true)
unfolding first_runnable
first_runnable_lem [] i e = absurd (ground (arith, e))
first_runnable_lem (t ∷ ts) i e = elim (Bool-cases (is_runnable t.state)) [
  | inl h ↦ (
    t,
    subst (λ j. get_elem? (t ∷ ts) j ≡ some t) (let z : 0 ≡ i = ground (arith, e, h) in z) refl,
    h,
  )
  | inr h ↦ elim (Option-cases (first_runnable ts)) [
    | inl none_later ↦ absurd (ground (arith, e, h, none_later))
    | inr (j, f) ↦
        let later : (u : Task) × (get_elem? ts j ≡ some u) × (is_runnable u.state ≡ true) =
          first_runnable_lem ts j f in
        (
          later.0,
          subst (λ j. get_elem? (t ∷ ts) j ≡ some later.0)
              (let z : suc j ≡ i = ground (arith, e, h, f) in z) later.1,
          later.2,
        )
  ]
]

runnable_live : (st : State) → is_runnable st ≡ true → false ≡ is_dead st
runnable_live runnable h = refl
runnable_live running h = refl
runnable_live blocked h = refl
runnable_live zombie h = refl
runnable_live dead h = absurd (ground (arith, h))

IsSound-run :
    (s u : Scheduler) (r : Option ℕ) (n : ℕ) → run s ≡ some u → IsSound s r n → IsSound u r n
unfolding run
IsSound-run s u r n e v = elim (Option-cases (first_runnable s.tasks)) [
  | inl f ↦ absurd (ground (arith, e, f))
  | inr (i, f) ↦
      let first : (t : Task) × (get_elem? s.tasks i ≡ some t) × (is_runnable t.state ≡ true) =
        first_runnable_lem s.tasks i f in
      let w : Scheduler = record { tasks = modify_at i (set_state running) s.tasks; current = i } in
      let same : w ≡ u = ground (arith, e, f) in
      subst (λ x. IsSound x r n) same
        (IsSound-Alike s w r n
          (Alike-modify_at i (set_state running) s.tasks (λ t at.
            set_state_keeps running t
              (runnable_live t.state (ground (arith, at, first.1, first.2)))))
          (omega (
            arith,
            length-modify_at i (set_state running) s.tasks,
            get_elem?-lt s.tasks i first.0 first.1,
          ))
          v)
]

IsValid-Step : (k l : Kernel) → Step k l → IsValid k → IsValid l
unfolding block_current_and_schedule unblock wait_resumed
IsValid-Step _ _ (started k s e) v = IsSound-run k.sched s k.reaper k.next_id e v
IsValid-Step _ _ (preempted k) v = IsSound-schedule k.sched k.reaper k.next_id v
IsValid-Step _ _ (slept k t runs) v =
    IsSound-schedule (modify_current (set_state blocked) k.sched) k.reaper k.next_id (
      IsSound-modify_current (set_state blocked) k.sched k.reaper k.next_id
        (λ u at. set_state_keeps blocked u (live_current k t runs u at)) v)
IsValid-Step _ _ (woken_up k id) v =
    IsSound-update_task id wake k.sched k.reaper k.next_id wake-id wake-node v
IsValid-Step _ _ (spawned k ring cr3) v = IsValid-spawn ring cr3 k v
IsValid-Step _ _ (reaper_chosen k id low) v = IsValid-set_init_task id k low v
IsValid-Step _ _ (forked k t cow runs) v = IsValid-do_fork cow k t runs v
IsValid-Step _ _ (exited k t status runs) v = IsValid-do_exit status k t runs v
IsValid-Step _ _ (waited k t runs) v = IsValid-wait_round k t runs v
IsValid-Step _ _ (resumed k t runs) v =
    IsValid-modify_current (λ u. record u { wait_blocked = false }) k (λ u. refl) (λ u. refl) v
IsValid-Step _ _ (killed k t pid sig runs) v = IsValid-do_kill pid sig k t runs v
IsValid-Step _ _ (disposed k t sig handler restorer runs) v =
    IsValid-do_signal sig handler restorer k t runs v
IsValid-Step _ _ (delivered k t frame ret runs) v =
    IsValid-deliver_pending_signals frame ret k t runs v
IsValid-Step _ _ (returned k t frame runs) v = IsValid-do_sigreturn frame k t runs v
IsValid-Step _ _ (executed k t loaded tables frame runs) v = IsValid-do_exec loaded tables frame k v
IsValid-Step _ _ (orphans_reaped k) v = IsValid-reap_orphans k v
IsValid-Step _ _ (orphan_reaped k r c t x e f m g z) v = IsValid-reap_orphan k r c t f m v
IsValid-Step _ _ (elsewhere k ipc wm files) v = v

empty : (n : ℕ) → IsTree (nodes []) none n
unfolding find_task
empty n = record {
  below = λ j x e. absurd (ground (arith, e));
  parent_below = λ j p x e. absurd (ground (arith, e));
  reaper_below = λ r e. absurd (ground (arith, e));
  down = λ j c x e. absurd (ground (arith, e));
  up = λ c p x y e. absurd (ground (arith, e));
}

-- After any steps from boot, ids are distinct; the current index is a task's, once there is one; a
-- listed child is a task that is not dead and names its parent; and a task that is not dead is listed
-- by the parent it names, if that is in the task list.
pub Reachable-IsValid : (k : Kernel) → Reachable k → IsValid k
unfolding Distinct ids
Reachable-IsValid _ (boot ipc wm files next_id) = record {
  forest = record { distinct = tt; tree = empty next_id };
  in_range = ground arith;
}
Reachable-IsValid _ (after k l r s) = IsValid-Step k l s (Reachable-IsValid k r)
