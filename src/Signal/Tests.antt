-- ===== src/Signal/Tests.antt =====
-- The theorems on signals at concrete states (kernel/src/signal.rs).
use pickle_os.Base.{◌-◌, ◌+◌, ◌^◌, ◌≡◌, none, [], ◌∷◌, ◌==◌, if◌then◌else◌, replicate, ◌++◌}
use pickle_os.Signal.{
  SignalState, nsig, sig_dfl, sig_ign, sigchld, reset_for_exec, next_deliverable,
}
use pickle_os.Signal.Pending.{Scanned, next_deliverable_lem}
use pickle_os.Signal.Dispositions.{handler, set_all, reset_for_exec_lem}

-- Signals 9 and 17 are pending; 17 has a handler, 1 is ignored.
abbrev demo : SignalState
demo = record {
  pending = 2 ^ 9 + 2 ^ 17;
  handlers = (sig_dfl ∷ sig_ign ∷ replicate 15 sig_dfl) ++ 4096 ∷ replicate 14 sig_dfl;
  restorer = 8192;
  saved = none;
}

next_deliverable_example : Scanned (nsig - 1) 1 demo (next_deliverable demo)
next_deliverable_example = next_deliverable_lem demo

reset_for_exec_example :
    (handler (reset_for_exec demo) 1 ≡ (if handler demo 1 == sig_ign then sig_ign else sig_dfl))
    × ((reset_for_exec demo).pending ≡ 0)
    × (next_deliverable (set_all (reset_for_exec demo) (sigchld ∷ [])) ≡ none)
reset_for_exec_example = reset_for_exec_lem demo 1 (sigchld ∷ [])
