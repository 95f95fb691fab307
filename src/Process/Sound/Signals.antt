-- ===== src/Process/Sound/Signals.antt =====
-- Dispositions, delivery and the return from a handler, and exec (kernel/src/task.rs).
use pickle_os.Base.{
  Option, List, none, some, ℕ, ◌≡◌, refl, ◌==◌, ◌||◌, Bool-cases, Option-cases, inl, inr, leb,
}
use pickle_os.Signal.{sigkill, nsig}
use pickle_os.Task.{Task, modify_current}
use pickle_os.Process.{Kernel}
use pickle_os.Process.Kill.Delivery.{with_signals, handling}
use pickle_os.Process.Exec.{last, with_program, do_exec}
use pickle_os.Process.Kill.{
  install, to_deliver, do_signal, Frame, deliver_pending_signals, do_sigreturn,
}
use pickle_os.Process.Nodes.{node}
use pickle_os.Process.Sound.{IsSound-modify_current, Runs, IsValid}

-- A change of the current task's bookkeeping.
pub IsValid-modify_current :
    (f : Task → Task) (k : Kernel)
    → ((t : Task) → (f t).id ≡ t.id)
    → ((t : Task) → node (f t) ≡ node t)
    → IsValid k
    → IsValid (record k { sched = modify_current f k.sched })
IsValid-modify_current f k keep same v =
    IsSound-modify_current f k.sched k.reaper k.next_id (λ t _. (keep t, same t)) v

pub IsValid-do_signal :
    (sig handler restorer : ℕ) (k : Kernel) (t : Task)
    → Runs k t
    → IsValid k
    → IsValid (do_signal sig handler restorer k).0
unfolding do_signal
IsValid-do_signal sig handler restorer k t (at, _) v =
    elim (Bool-cases (sig == 0 || leb nsig sig || sig == sigkill)) [
      | inl bad ↦ rw (at, bad, do_signal) v
      | inr good ↦
          rw (at, good, do_signal)
            (IsValid-modify_current
              (λ u. record u { signals = install sig handler restorer u.signals }) k (λ u. refl)
              (λ u. refl) v)
    ]

pub IsValid-deliver_pending_signals :
    (frame : Frame) (ret : ℕ) (k : Kernel) (t : Task)
    → Runs k t
    → IsValid k
    → IsValid (deliver_pending_signals frame ret k).0
unfolding deliver_pending_signals
IsValid-deliver_pending_signals frame ret k t (at, _) v = elim (Option-cases (to_deliver t)) [
  | inl e ↦ rw (at, e, deliver_pending_signals) v
  | inr ((sig, handler), e) ↦
      rw (at, e, deliver_pending_signals)
        (IsValid-modify_current (with_signals (handling frame ret sig)) k (λ u. refl) (λ u. refl) v)
]

pub IsValid-do_sigreturn :
    (frame : Frame) (k : Kernel) (t : Task)
    → Runs k t
    → IsValid k
    → IsValid (do_sigreturn frame k).0
unfolding do_sigreturn
IsValid-do_sigreturn frame k t (at, _) v = elim (Option-cases t.signals.saved) [
  | inl e ↦ rw (at, e, do_sigreturn) v
  | inr (ctx, e) ↦
      rw (at, e, do_sigreturn)
        (IsValid-modify_current (with_signals (λ s. record s { saved = none })) k (λ u. refl)
          (λ u. refl) v)
]

pub IsValid-do_exec :
    (loaded : Option (ℕ × ℕ)) (tables : List ℕ) (frame : Frame) (k : Kernel)
    → IsValid k
    → IsValid (do_exec loaded tables frame k).0
unfolding do_exec
IsValid-do_exec none tables frame k v = v
IsValid-do_exec (some (entry, stack)) tables frame k v = elim (Option-cases (last tables)) [
  | inl e ↦ rw (e, do_exec) v
  | inr (cr3, e) ↦
      rw (e, do_exec) (IsValid-modify_current (with_program cr3) k (λ u. refl) (λ u. refl) v)
]
