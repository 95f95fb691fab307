-- ===== src/Signal/Dispositions.antt =====
-- The dispositions of signals across `exec` (kernel/src/signal.rs).
use pickle_os.Base.{
  ℕ, suc, zero, ◌-◌, false, ◌≡◌, refl, Option, none, some, List, [], ◌∷◌, arith, ◌==◌,
  if◌then◌else◌, get_or, map,
}
use pickle_os.Signal.{
  SignalState, nsig, sig_dfl, sig_ign, is_custom, keep_ignored, reset_for_exec, set_pending,
  next_deliverable,
}
use pickle_os.Signal.Pending.{Scanned, next_deliverable_lem}

abbrev pub handler : SignalState → ℕ → ℕ
handler s sig = get_or s.handlers sig sig_dfl

get_or-map :
    (hs : List ℕ) (k : ℕ)
    → get_or (map keep_ignored hs) k sig_dfl ≡ keep_ignored (get_or hs k sig_dfl)
get_or-map [] k = refl
get_or-map (h ∷ hs) zero = refl
get_or-map (h ∷ hs) (suc k) = get_or-map hs k

abbrev pub set_all : SignalState → List ℕ → SignalState
set_all s [] = s
set_all s (sig ∷ sigs) = set_all (set_pending s sig) sigs

handlers-set_pending : (s : SignalState) (sig : ℕ) → (set_pending s sig).handlers ≡ s.handlers
unfolding set_pending
handlers-set_pending s sig = ground arith

handlers-set_all : (s : SignalState) (sigs : List ℕ) → (set_all s sigs).handlers ≡ s.handlers
handlers-set_all s [] = refl
handlers-set_all s (sig ∷ sigs) =
    ground (arith, handlers-set_all (set_pending s sig) sigs, handlers-set_pending s sig)

no_custom :
    (s : SignalState) (r : Option (ℕ × ℕ))
    → ((k : ℕ) → is_custom (handler s k) ≡ false)
    → Scanned (nsig - 1) 1 s r
    → r ≡ none
no_custom s none off h = refl
no_custom s (some (j, a)) off (lo, hi, on, same, below) = absurd (ground (arith, off j))

-- The new program image inherits no handler: a signal stays ignored exactly if it was, and all
-- others have the default action; nothing is pending, and whatever signals are raised afterwards,
-- none is delivered to a handler until the program installs one.
pub reset_for_exec_lem :
    (s : SignalState) (sig : ℕ) (raised : List ℕ)
    → (handler (reset_for_exec s) sig ≡ (if handler s sig == sig_ign then sig_ign else sig_dfl))
      × ((reset_for_exec s).pending ≡ 0)
      × (next_deliverable (set_all (reset_for_exec s) raised) ≡ none)
unfolding reset_for_exec
reset_for_exec_lem s sig raised = (
  ground (arith, get_or-map s.handlers sig),
  refl,
  no_custom (set_all (reset_for_exec s) raised) _ (λ k. plain k) (next_deliverable_lem _),
)
  where
    plain : (k : ℕ) → is_custom (handler (set_all (reset_for_exec s) raised) k) ≡ false
    plain k =
        rw (handlers-set_all (reset_for_exec s) raised, get_or-map s.handlers k) (ground arith)
