-- ===== src/Process/Sound/Ends.antt =====
-- Tasks that end, by `exit` or by a signal (kernel/src/task.rs).
use pickle_os.Base.{
  ℕ, ◌+◌, refl, ◌==◌, not, ◌||◌, arith, Bool-cases, Option-cases, inl, inr, leb, get_or,
}
use pickle_os.Signal.{sigkill, sig_ign, sig_dfl, nsig, default_terminates}
use pickle_os.Task.{Task, Scheduler, is_dead, is_zombie, find_task, current_id}
use pickle_os.Process.{Kernel, do_exit, retire, terminate_task}
use pickle_os.Process.Kill.{may_signal, do_kill, apply_signal, raise}
use pickle_os.Process.Nodes.{ids, Distinct, modify_at-update_task, find_task-get_elem?}
use pickle_os.Process.Nodes.Scheduling.{raise-node}
use pickle_os.Process.Nodes.Ends.{ended}
use pickle_os.Process.Sound.{
  IsSound, IsSound-schedule, IsSound-update_task, IsSound-ended, Runs, IsValid,
}

pub IsValid-do_exit :
    (status : ℕ) (k : Kernel) (t : Task) → Runs k t → IsValid k → IsValid (do_exit status k)
unfolding do_exit
IsValid-do_exit status k t (at, up) v =
    let d : Distinct (ids k.sched.tasks) = v.forest.distinct in
    let after : Scheduler = record k.sched { tasks = ended t.id status k.reaper t k.sched.tasks } in
    let ok : IsSound after k.reaper k.next_id =
      IsSound-ended t.id status t k.sched k.reaper k.next_id
        (find_task-get_elem? k.sched.current k.sched.tasks t d at) (rw up refl) v in
    rw (at, do_exit)
      (rw (modify_at-update_task k.sched.current (retire status) k.sched.tasks t d at)
        (IsSound-schedule after k.reaper k.next_id ok))

pub IsValid-terminate_task :
    (id status : ℕ) (k : Kernel) (t : Task)
    → Runs k t
    → IsValid k
    → IsValid (terminate_task id status k).0
unfolding terminate_task
IsValid-terminate_task id status k t runs v = elim (Bool-cases (id == current_id k.sched)) [
  | inl own ↦ rw (own, terminate_task) (IsValid-do_exit status k t runs v)
  | inr other ↦ elim (Option-cases (find_task id k.sched.tasks)) [
    | inl e ↦ rw (other, e, terminate_task) v
    | inr (x, e) ↦ elim (Bool-cases (is_zombie x.state || is_dead x.state)) [
      | inl over ↦ rw (other, e, over, terminate_task) v
      | inr live ↦
          rw (other, e, live, terminate_task)
            (IsSound-ended id status x k.sched k.reaper k.next_id e (ground (arith, live)) v)
    ]
  ]
]

IsValid-apply_signal :
    (pid sig handler : ℕ) (k : Kernel) (t : Task)
    → Runs k t
    → IsValid k
    → IsValid (apply_signal pid sig handler k)
unfolding apply_signal
IsValid-apply_signal pid sig handler k t runs v =
    let ends : IsValid (terminate_task pid (128 + sig) k).0 =
      IsValid-terminate_task pid (128 + sig) k t runs v in
    elim (Bool-cases (sig == sigkill)) [
      | inl kills ↦ rw (kills, apply_signal) ends
      | inr a ↦ elim (Bool-cases (handler == sig_ign)) [
        | inl b ↦ rw (a, b, apply_signal) v
        | inr b ↦ elim (Bool-cases (handler == sig_dfl)) [
          | inl c ↦ elim (Bool-cases (default_terminates sig)) [
            | inl d ↦ rw (a, b, c, d, apply_signal) ends
            | inr d ↦ rw (a, b, c, d, apply_signal) v
          ]
          | inr c ↦
              rw (a, b, c, apply_signal)
                (IsSound-update_task pid (raise sig) k.sched k.reaper k.next_id (λ u. refl)
                  (raise-node sig) v)
        ]
      ]
    ]

pub IsValid-do_kill :
    (pid sig : ℕ) (k : Kernel) (t : Task) → Runs k t → IsValid k → IsValid (do_kill pid sig k).0
unfolding do_kill apply_signal
IsValid-do_kill pid sig k t runs v = elim (Bool-cases (leb nsig sig || not (may_signal t pid k))) [
  | inl refused ↦ rw (runs.0, refused, do_kill) v
  | inr allowed ↦ elim (Option-cases (find_task pid k.sched.tasks)) [
    | inl e ↦ rw (runs.0, allowed, e, do_kill) v
    | inr (x, e) ↦ elim (Bool-cases (is_zombie x.state || is_dead x.state || sig == 0)) [
      | inl over ↦ rw (runs.0, allowed, e, over, do_kill) v
      | inr live ↦
          rw (runs.0, allowed, e, live, do_kill)
            (IsValid-apply_signal pid sig (get_or x.signals.handlers sig sig_dfl) k t runs v)
    ]
  ]
]
