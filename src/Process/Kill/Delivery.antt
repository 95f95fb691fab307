-- ===== src/Process/Kill/Delivery.antt =====
-- A signal delivered to a handler, and the return from it (kernel/src/task.rs,
-- `deliver_pending_signals` and `do_sigreturn`).
use pickle_os.Base.{
  ℕ, ◌≡◌, refl, ◌∙◌, ◌%◌, Option, none, some, arith, ltb, ap, Bool-cases, Option-cases, inl, inr,
}
use pickle_os.Signal.{SignalState, SavedSigContext, clear_pending, nsig}
use pickle_os.Task.{Task, Scheduler, current_task, modify_current}
use pickle_os.Task.Find.{current_task-modify_current}
use pickle_os.Process.{Kernel}
use pickle_os.Process.Kill.{Frame, to_deliver, handler_stack, deliver_pending_signals, do_sigreturn}

-- A task with a handler running gets no signal.
to_deliver-saved : (t : Task) (d : ℕ × ℕ) → to_deliver t ≡ some d → t.signals.saved ≡ none
unfolding to_deliver
to_deliver-saved t d e = elim (Option-cases t.signals.saved) [
  | inl none_saved ↦ none_saved
  | inr (c, some_saved) ↦ absurd (ground (arith, e, some_saved))
]

saved-to_deliver : (t : Task) (c : SavedSigContext) → t.signals.saved ≡ some c → to_deliver t ≡ none
unfolding to_deliver
saved-to_deliver t c e = ground (arith, e)

abbrev pub context_of : Frame → ℕ → SavedSigContext
context_of frame ret = record { rip = frame.rip; rflags = frame.rflags; rsp = frame.rsp; rax = ret }

-- The state of the signals while the handler runs.
abbrev pub handling : Frame → ℕ → ℕ → SignalState → SignalState
handling frame ret sig s = clear_pending (record s { saved = some (context_of frame ret) }) sig

handling-saved :
    (frame : Frame) (ret sig : ℕ) (s : SignalState)
    → (handling frame ret sig s).saved ≡ some (context_of frame ret)
unfolding clear_pending
handling-saved frame ret sig s = elim (Bool-cases (ltb sig nsig)) [
  | inl e ↦ rw e refl
  | inr e ↦ rw e refl
]

handling-over :
    (frame : Frame) (ret sig : ℕ) (s : SignalState)
    → s.saved ≡ none
    → record (handling frame ret sig s) { saved = none } ≡ clear_pending s sig
unfolding clear_pending
handling-over frame ret sig s e = elim (Bool-cases (ltb sig nsig)) [
  | inl c ↦ rw (c, e) refl
  | inr c ↦ rw (c, e) refl
]

abbrev pub with_signals : (SignalState → SignalState) → Task → Task
with_signals f t = record t { signals = f t.signals }

abbrev with_current : (Task → Task) → Kernel → Kernel
with_current f k = record k { sched = modify_current f k.sched }

deliver_pending_signals_lem :
    (frame : Frame) (ret sig handler : ℕ) (k : Kernel) (t : Task)
    → current_task k.sched ≡ some t
    → to_deliver t ≡ some (sig, handler)
    → deliver_pending_signals frame ret k ≡ (
      with_current (with_signals (handling frame ret sig)) k,
      record frame { rip = handler; rsp = handler_stack frame.rsp; rdi = sig },
      some (handler_stack frame.rsp, t.signals.restorer),
    )
unfolding deliver_pending_signals
deliver_pending_signals_lem frame ret sig handler k t e d = rw (e, d, deliver_pending_signals) refl

do_sigreturn_lem :
    (later : Frame) (k : Kernel) (t : Task) (ctx : SavedSigContext)
    → current_task k.sched ≡ some t
    → t.signals.saved ≡ some ctx
    → do_sigreturn later k ≡ (
      with_current (with_signals (λ s. record s { saved = none })) k,
      record later { rip = ctx.rip; rflags = ctx.rflags; rsp = ctx.rsp },
      ctx.rax,
    )
unfolding do_sigreturn
do_sigreturn_lem later k t ctx e d = rw (e, d, do_sigreturn) refl

aligned : (rsp : ℕ) → handler_stack rsp % 16 ≡ 8
aligned rsp = omega arith

-- When a signal is delivered to the current task, the handler starts on a stack aligned as a call
-- leaves it, and no other signal is delivered before `sigreturn`. Then `sigreturn`, from any frame,
-- restores the interrupted instruction pointer, flags, stack pointer and result, and leaves the task
-- as it was but for the delivered signal, no longer pending.
pub do_sigreturn-deliver_pending_signals :
    (frame later : Frame) (ret sig handler : ℕ) (k : Kernel) (t : Task)
    → current_task k.sched ≡ some t
    → to_deliver t ≡ some (sig, handler)
    → let d : Kernel × Frame × Option (ℕ × ℕ) = deliver_pending_signals frame ret k in
      let r : Kernel × Frame × ℕ = do_sigreturn later d.0 in
      (d.1.rsp % 16 ≡ 8)
      × (deliver_pending_signals later ret d.0 ≡ (d.0, later, none))
      × (r.1 ≡ record later { rip = frame.rip; rflags = frame.rflags; rsp = frame.rsp })
      × (r.2 ≡ ret)
      × (current_task r.0.sched ≡ some (record t { signals = clear_pending t.signals sig }))
unfolding deliver_pending_signals
do_sigreturn-deliver_pending_signals frame later ret sig handler k t e d =
    let s : Scheduler = modify_current (with_signals (handling frame ret sig)) k.sched in
    let during : Task = with_signals (handling frame ret sig) t in
    let at : current_task s ≡ some during =
      current_task-modify_current (with_signals (handling frame ret sig)) k.sched t e in
    let held : during.signals.saved ≡ some (context_of frame ret) =
      handling-saved frame ret sig t.signals in
    let done =
      do_sigreturn_lem later (record k { sched = s }) during (context_of frame ret) at held in
    let after =
      current_task-modify_current (with_signals (λ s. record s { saved = none })) s during at in
    let quiet = saved-to_deliver during (context_of frame ret) held in
    rw (deliver_pending_signals_lem frame ret sig handler k t e d) (
      aligned frame.rsp,
      rw (at, quiet, deliver_pending_signals) refl,
      rw done refl,
      rw done refl,
      rw done (
          after
          ∙ ap (λ g. some (record t { signals = g }))
              (handling-over frame ret sig t.signals (to_deliver-saved t (sig, handler) d))),
    )
