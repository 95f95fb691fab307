-- ===== src/Process/Kill.antt =====
-- kernel/src/task.rs: `kill`, dispositions, and the delivery of signals to handlers and back.
pub mod Permission
pub mod Delivery
use pickle_os.Base.{
  ℕ, ◌+◌, ◌-◌, ◌%◌, ◌^◌, Bool, true, false, not, ◌&&◌, ◌||◌, Option, none, some, List, [], ◌∷◌,
  ◌==◌, leb, if◌then◌else◌, is_some, get_or, set,
}
use pickle_os.Base.Members.{member}
use pickle_os.Signal.{
  SignalState, SavedSigContext, nsig, sigkill, sig_dfl, sig_ign, set_pending, clear_pending,
  next_deliverable, default_terminates,
}
use pickle_os.Task.{
  Task, Ring, runnable, user, kernel, is_blocked, is_zombie, is_dead, find_task, update_task,
  current_task, modify_current,
}
use pickle_os.Process.{Kernel, error_code, with_tasks, terminate_task}

abbrev pub is_user : Ring → Bool
is_user user = true
is_user kernel = false

abbrev pub same_option : Option ℕ → ℕ → Bool
same_option none id = false
same_option (some p) id = p == id

-- `tasks.iter().any(|t| t.id == pid && t.parent == Some(cur_id))`
unfoldable pub any_child : ℕ → ℕ → List Task → Bool
any_child pid cur [] = false
any_child pid cur (t ∷ ts) = t.id == pid && same_option t.parent cur || any_child pid cur ts

-- May task `t` signal task `pid`?
unfoldable pub may_signal : Task → ℕ → Kernel → Bool
unfolding any_child
may_signal t pid k =
    not (is_user t.ring)
    || t.id == pid
    || member pid t.children
    || any_child pid t.id k.sched.tasks
    || t.id == (elim k.reaper [ none ↦ error_code | some r ↦ r ])

-- A caught signal becomes pending, and its task wakes whatever it waits for.
abbrev pub raise : ℕ → Task → Task
raise sig t = record t {
  signals = set_pending t.signals sig;
  state = if is_blocked t.state then runnable else t.state;
}

-- What `kill` does to a live target, by its disposition.
unfoldable pub apply_signal : ℕ → ℕ → ℕ → Kernel → Kernel
apply_signal pid sig handler k =
    if sig == sigkill
    then (terminate_task pid (128 + sig) k).0
    else if handler == sig_ign
    then k
    else if handler == sig_dfl
    then (if default_terminates sig then (terminate_task pid (128 + sig) k).0 else k)
    else with_tasks (update_task pid (raise sig)) k

unfoldable pub do_kill : ℕ → ℕ → Kernel → Kernel × ℕ
do_kill pid sig k = elim (current_task k.sched) [
  | none ↦ (k, error_code)
  | some t ↦
      if leb nsig sig || not (may_signal t pid k)
      then (k, error_code)
      else elim (find_task pid k.sched.tasks) [
        | none ↦ (k, error_code)
        | some target ↦
            if is_zombie target.state || is_dead target.state || sig == 0
            then (k, 0)
            else (apply_signal pid sig (get_or target.signals.handlers sig sig_dfl) k, 0)
      ]
]

abbrev pub install : ℕ → ℕ → ℕ → SignalState → SignalState
install sig handler restorer s = record s {
  handlers = set s.handlers sig handler;
  restorer = if restorer == 0 then s.restorer else restorer;
}

-- The result is the previous handler.
unfoldable pub do_signal : ℕ → ℕ → ℕ → Kernel → Kernel × ℕ
do_signal sig handler restorer k = elim (current_task k.sched) [
  | none ↦ (k, error_code)
  | some t ↦ if sig == 0 || leb nsig sig || sig == sigkill then (k, error_code) else (
    record k {
      sched =
          modify_current (λ u. record u { signals = install sig handler restorer u.signals })
            k.sched;
    },
    get_or t.signals.handlers sig sig_dfl,
  )
]

-- The words of a trap frame that these calls read or write.
pub record Frame : Type 0 where
  pub rip : ℕ
  pub rflags : ℕ
  pub rsp : ℕ
  pub rdi : ℕ

-- `(rsp & !0xF) - 8`
abbrev pub handler_stack : ℕ → ℕ
handler_stack rsp = (rsp - rsp % 16 + (2 ^ 64 - 8)) % 2 ^ 64

-- What there is to deliver: the signal and its handler, to a user task with no handler running.
unfoldable pub to_deliver : Task → Option (ℕ × ℕ)
to_deliver t =
    if not (is_user t.ring) || is_some t.signals.saved || t.signals.restorer == 0
    then none
    else next_deliverable t.signals

-- The new frame, and the word written to the user's stack.
unfoldable pub deliver_pending_signals : Frame → ℕ → Kernel → Kernel × Frame × Option (ℕ × ℕ)
deliver_pending_signals frame ret k = elim (current_task k.sched) [
  | none ↦ (k, frame, none)
  | some t ↦ elim (to_deliver t) [
    | none ↦ (k, frame, none)
    | some (sig, handler) ↦ (
      record k {
        sched =
            modify_current
              (λ u. record u {
                signals =
                    clear_pending
                      (record u.signals {
                        saved = some (record {
                          rip = frame.rip;
                          rflags = frame.rflags;
                          rsp = frame.rsp;
                          rax = ret;
                        });
                      })
                      sig;
              })
              k.sched;
      },
      record frame { rip = handler; rsp = handler_stack frame.rsp; rdi = sig },
      some (handler_stack frame.rsp, t.signals.restorer),
    )
  ]
]

unfoldable pub do_sigreturn : Frame → Kernel → Kernel × Frame × ℕ
do_sigreturn frame k = elim (current_task k.sched) [
  | none ↦ (k, frame, error_code)
  | some t ↦ elim t.signals.saved [
    | none ↦ (k, frame, error_code)
    | some ctx ↦ (
      record k {
        sched =
            modify_current (λ u. record u { signals = record u.signals { saved = none } }) k.sched;
      },
      record frame { rip = ctx.rip; rflags = ctx.rflags; rsp = ctx.rsp },
      ctx.rax,
    )
  ]
]
