-- ===== src/Task/Scan.antt =====
-- The round-robin search of `schedule` (kernel/src/task.rs).
use native.Mathlib.Nat.{mod-add-mod}
use pickle_os.Base.{
  ℕ, suc, zero, ◌+◌, ◌%◌, ◌≤◌, ◌<◌, true, false, ◌≡◌, refl, subst, ap, ◌∙◌, Option, none, some,
  List, arith, Bool-cases, inl, inr,
}
use pickle_os.Task.{Task, runnable_at, scan}

-- `d` steps on from `idx`, cyclically, stands a task that can run, and none stands nearer.
abbrev pub Nearest : ℕ → ℕ → List Task → ℕ → Type 0
Nearest n idx ts d =
    (runnable_at ts ((idx + d) % n) ≡ true)
    × ((e : ℕ) → 0 < e → e < d → runnable_at ts ((idx + e) % n) ≡ false)

abbrev pub Scanned : ℕ → ℕ → ℕ → List Task → Option ℕ → Type 0
Scanned rounds n idx ts none = (e : ℕ) → 0 < e → e ≤ rounds → runnable_at ts ((idx + e) % n) ≡ false
Scanned rounds n idx ts (some j) =
    (d : ℕ) × (0 < d) × (d ≤ rounds) × (j ≡ (idx + d) % n) × Nearest n idx ts d

shift : (n idx e : ℕ) → ((idx + 1) % n + e) % n ≡ (idx + suc e) % n
shift n idx e = mod-add-mod (idx + 1) n e ∙ ap (λ (x : ℕ). x % n) (omega arith)

step_back :
    (n idx : ℕ) (ts : List Task) (d : ℕ)
    → runnable_at ts ((idx + 1) % n) ≡ false
    → ((e : ℕ) → 0 < e → e < d → runnable_at ts (((idx + 1) % n + e) % n) ≡ false)
    → (e : ℕ) → 0 < e
    → e < suc d
    → runnable_at ts ((idx + e) % n) ≡ false
step_back n idx ts d off h zero p q = absurd (omega arith)
step_back n idx ts d off h (suc zero) p q = off
step_back n idx ts d off h (suc (suc e)) p q =
    subst (λ i. runnable_at ts i ≡ false) (shift n idx (suc e))
      (h (suc e) (omega arith) (omega arith))

scan-later :
    (rounds n idx : ℕ) (ts : List Task) (r : Option ℕ)
    → runnable_at ts ((idx + 1) % n) ≡ false
    → Scanned rounds n ((idx + 1) % n) ts r
    → Scanned (suc rounds) n idx ts r
scan-later rounds n idx ts none off h = λ e p q.
    step_back n idx ts (suc rounds) off (λ e' p' q'. h e' p' (omega arith)) e p (omega arith)
scan-later rounds n idx ts (some j) off (d, lo, hi, same, near) = (
  suc d,
  omega arith,
  omega arith,
  same ∙ shift n idx d,
  (subst (λ i. runnable_at ts i ≡ true) (shift n idx d) near.0, step_back n idx ts d off near.1),
)

pub scan_lem : (rounds n idx : ℕ) (ts : List Task) → Scanned rounds n idx ts (scan rounds n idx ts)
unfolding scan
scan_lem zero n idx ts = λ e p q. absurd (omega arith)
scan_lem (suc rounds) n idx ts = elim (Bool-cases (runnable_at ts ((idx + 1) % n))) [
  | inl on ↦ rw (on, scan) (1, omega arith, omega arith, refl, (on, λ e p q. absurd (omega arith)))
  | inr off ↦
      rw (off, scan) (scan-later rounds n idx ts _ off (scan_lem rounds n ((idx + 1) % n) ts))
]
