-- ===== src/Capability/Revoke.antt =====
-- `revoke` (kernel/src/capability.rs).
use pickle_os.Base.{
  ℕ, suc, zero, false, ◌≡◌, ◌&&◌, none, [], ◌∷◌, arith, ◌==◌, if◌then◌else◌, set, Option-cases, inl,
  inr,
}
use pickle_os.Base.Maps
use pickle_os.Base.Maps.{nat_key, lookup-insert}
use pickle_os.Capability.Flags.{Rights}
use pickle_os.Capability.{CapTable, Tables, slot_at, lookup, check, revoke}

slot_at_cleared :
    (slots : CapTable) (i j : ℕ)
    → slot_at (set slots i none) j ≡ (if i == j then none else slot_at slots j)
slot_at_cleared [] i j = ground arith
slot_at_cleared (x ∷ slots) zero zero = ground arith
slot_at_cleared (x ∷ slots) zero (suc j) = ground arith
slot_at_cleared (x ∷ slots) (suc i) zero = ground arith
slot_at_cleared (x ∷ slots) (suc i) (suc j) = ground (arith, slot_at_cleared slots i j)

-- Revocation returns the capability that the slot held, empties that slot, and leaves every other
-- slot of every task as it was.
pub revoke_lem :
    (t : Tables) (task slot : ℕ)
    → ((revoke t task slot).1 ≡ lookup t task slot)
      × ((other j : ℕ)
          → lookup (revoke t task slot).0 other j
            ≡ (if task == other && slot == j then none else lookup t other j))
unfolding revoke lookup
revoke_lem t task slot = elim (Option-cases (Maps.lookup task t)) [
  | inl e ↦ (rw (e, revoke), λ other j. rw (e, revoke) (ground arith))
  | inr (slots, e) ↦ (
    rw (e, revoke),
    λ other j.
        ground
          (arith, lookup-insert task other (set slots slot none) t, slot_at_cleared slots slot j),
  )
]

-- After a revocation no check of that slot passes, whatever the rights asked for.
pub check-revoke :
    (t : Tables) (task slot : ℕ) (needed : Rights)
    → check (revoke t task slot).0 task slot needed ≡ false
unfolding check
check-revoke t task slot needed = ground (arith, (revoke_lem t task slot).1 task slot)
