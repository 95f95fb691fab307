-- ===== src/Signal/Pending.antt =====
-- The pending set and the signal that is delivered next (kernel/src/signal.rs).
use Prim.Native.Nat.{bit_and}
use native.Mathlib.Decide.{dec_lt}
use pickle_os.Base.{
  ℕ, suc, zero, ◌+◌, ◌-◌, ◌^◌, ◌≤◌, ◌<◌, Bool, true, false, not, ◌&&◌, ◌||◌, ◌≡◌, refl, Option,
  none, some, arith, ◌==◌, get_or, Bool-cases, inl, inr, subst,
}
use pickle_os.Base.Bits.{
  test_bit, test_bit-bit_or, test_bit-bit_and, test_bit-pow, test_bit-complement, masked_bit,
}
use pickle_os.Signal.{
  nsig, sig_dfl, is_custom, SignalState, set_pending, clear_pending, scan_pending, next_deliverable,
}

abbrev pub is_pending : SignalState → ℕ → Bool
is_pending s k = test_bit s.pending k

-- Marking a signal adds it to the pending set, and only it.
pub set_pending_lem :
    (s : SignalState) (sig k : ℕ)
    → sig < nsig
    → is_pending (set_pending s sig) k ≡ (is_pending s k || (sig == k))
unfolding set_pending
set_pending_lem s sig k h =
    ground (arith, test_bit-bit_or s.pending (2 ^ sig) k, test_bit-pow sig k)

-- Clearing a signal below 32 takes it out of the pending set of 32, and only it.
clear_pending_lem :
    (s : SignalState) (sig k : ℕ)
    → sig < nsig
    → k < nsig
    → is_pending (clear_pending s sig) k ≡ (is_pending s k && not (sig == k))
unfolding clear_pending
clear_pending_lem s sig k h b =
    ground (
      arith,
      test_bit-bit_and s.pending (2 ^ nsig - 1 - 2 ^ sig) k,
      test_bit-complement nsig sig k h,
    )

-- A pending signal whose handler is neither the default nor to ignore.
abbrev pub is_deliverable : SignalState → ℕ → Bool
is_deliverable s k = is_pending s k && is_custom (get_or s.handlers k sig_dfl)

-- What a scan of `rounds` signals from `sig` on reports, in terms of the pending set.
abbrev pub Scanned : ℕ → ℕ → SignalState → Option (ℕ × ℕ) → Type 0
Scanned rounds sig s none = (k : ℕ) → sig ≤ k → k < sig + rounds → is_deliverable s k ≡ false
Scanned rounds sig s (some (j, h)) =
    (sig ≤ j)
    × (j < sig + rounds)
    × (is_deliverable s j ≡ true)
    × (h ≡ get_or s.handlers j sig_dfl)
    × ((k : ℕ) → sig ≤ k → k < j → is_deliverable s k ≡ false)

deliver_test :
    (s : SignalState) (sig : ℕ)
    → (not (bit_and s.pending (2 ^ sig) == 0) && is_custom (get_or s.handlers sig sig_dfl))
      ≡ is_deliverable s sig
deliver_test s sig = ground (arith, masked_bit s.pending sig)

widen :
    (rounds sig : ℕ) (s : SignalState) (r : Option (ℕ × ℕ))
    → is_deliverable s sig ≡ false
    → Scanned rounds (sig + 1) s r
    → Scanned (suc rounds) sig s r
widen rounds sig s none off h = λ k p q. elim (dec_lt sig k) [
  | yes past ↦ h k (omega arith) (omega arith)
  | no at ↦ (let e : sig ≡ k = omega arith in subst (λ i. is_deliverable s i ≡ false) e off)
]
widen rounds sig s (some (j, h)) off (lo, hi, on, same, below) = (
  omega arith,
  omega arith,
  on,
  same,
  λ k p q. elim (dec_lt sig k) [
    | yes past ↦ below k (omega arith) q
    | no at ↦ (let e : sig ≡ k = omega arith in subst (λ i. is_deliverable s i ≡ false) e off)
  ],
)

scan_pending-Scanned :
    (rounds sig : ℕ) (s : SignalState) → Scanned rounds sig s (scan_pending rounds sig s)
unfolding scan_pending
scan_pending-Scanned zero sig s = λ k p q. absurd (omega arith)
scan_pending-Scanned (suc rounds) sig s = elim (Bool-cases (is_deliverable s sig)) [
  | inl on ↦
      rw (deliver_test s sig, scan_pending)
        (rw on (omega arith, omega arith, on, refl, λ k p q. absurd (omega arith)))
  | inr off ↦
      rw (deliver_test s sig, scan_pending)
        (rw off (widen rounds sig s _ off (scan_pending-Scanned rounds (sig + 1) s)))
]

-- The signal delivered next is the lowest-numbered pending one with a custom handler, with that
-- handler; none is reported only if no signal from 1 to 31 is pending with a custom handler.
pub next_deliverable_lem : (s : SignalState) → Scanned (nsig - 1) 1 s (next_deliverable s)
unfolding next_deliverable
next_deliverable_lem s = scan_pending-Scanned (nsig - 1) 1 s
