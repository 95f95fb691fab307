-- ===== src/Signal.antt =====
-- kernel/src/signal.rs: signal numbers, and the signal state of a task.
pub mod Pending
pub mod Dispositions
mod Tests
use Prim.Native.Nat.{bit_and, bit_or}
use pickle_os.Base.{
  ℕ, suc, zero, ◌+◌, ◌-◌, ◌^◌, Bool, not, ◌&&◌, ◌||◌, Option, none, some, List, ◌==◌, ltb,
  if◌then◌else◌, get_or, replicate, map,
}

abbrev pub nsig : ℕ
nsig = 32

abbrev pub sigkill : ℕ
sigkill = 9

abbrev pub sigchld : ℕ
sigchld = 17

abbrev pub sigcont : ℕ
sigcont = 18

abbrev pub sigstop : ℕ
sigstop = 19

abbrev pub sigtstp : ℕ
sigtstp = 20

abbrev pub sigttin : ℕ
sigttin = 21

abbrev pub sigttou : ℕ
sigttou = 22

abbrev pub sigurg : ℕ
sigurg = 23

abbrev pub sigwinch : ℕ
sigwinch = 28

abbrev pub sigio : ℕ
sigio = 29

abbrev pub sig_dfl : ℕ
sig_dfl = 0

abbrev pub sig_ign : ℕ
sig_ign = 1

unfoldable pub default_terminates : ℕ → Bool
default_terminates sig = not (
    sig == sigchld
    || sig == sigcont
    || sig == sigurg
    || sig == sigwinch
    || sig == sigio
    || sig == sigstop
    || sig == sigtstp
    || sig == sigttin
    || sig == sigttou)

pub record SavedSigContext : Type 0 where
  pub rip : ℕ
  pub rflags : ℕ
  pub rsp : ℕ
  pub rax : ℕ

-- `pending` is a 32-bit word, `handlers` an array of `nsig` addresses.
pub record SignalState : Type 0 where
  pub pending : ℕ
  pub handlers : List ℕ
  pub restorer : ℕ
  pub saved : Option SavedSigContext

unfoldable pub new : SignalState
new = record { pending = 0; handlers = replicate nsig sig_dfl; restorer = 0; saved = none }

abbrev pub keep_ignored : ℕ → ℕ
keep_ignored h = if h == sig_ign then h else sig_dfl

unfoldable pub reset_for_exec : SignalState → SignalState
reset_for_exec s = record s {
  pending = 0;
  handlers = map keep_ignored s.handlers;
  restorer = 0;
  saved = none;
}

unfoldable pub set_pending : SignalState → ℕ → SignalState
set_pending s sig = if ltb sig nsig then record s { pending = bit_or s.pending (2 ^ sig) } else s

-- `pending &= !(1 << sig)` on 32 bits.
unfoldable pub clear_pending : SignalState → ℕ → SignalState
clear_pending s sig =
    if ltb sig nsig then record s { pending = bit_and s.pending (2 ^ nsig - 1 - 2 ^ sig) } else s

-- `h != SIG_DFL && h != SIG_IGN`
abbrev pub is_custom : ℕ → Bool
is_custom h = not (h == sig_dfl) && not (h == sig_ign)

-- The loop of `next_deliverable`: `rounds` signals from `sig` on.
unfoldable pub scan_pending : ℕ → ℕ → SignalState → Option (ℕ × ℕ)
scan_pending zero sig s = none
scan_pending (suc rounds) sig s =
    let rest = scan_pending rounds (sig + 1) s in
    if not (bit_and s.pending (2 ^ sig) == 0) && is_custom (get_or s.handlers sig sig_dfl)
    then some (sig, get_or s.handlers sig sig_dfl)
    else rest

unfoldable pub next_deliverable : SignalState → Option (ℕ × ℕ)
unfolding scan_pending
next_deliverable s = scan_pending (nsig - 1) 1 s
