-- ===== src/Capability/Find.antt =====
-- `find_object`, `check` and `check_role` (kernel/src/capability.rs) against the slots they search.
use pickle_os.Base.{
  ℕ, suc, zero, Bool, true, ◌≡◌, ◌↔◌, ◌&&◌, none, some, [], ◌∷◌, arith, is_some, Option-cases,
  Bool-cases, inl, inr,
}
use pickle_os.Base.Maps
use pickle_os.Base.Maps.{nat_key}
use pickle_os.Capability.Flags.{Rights, contains}
use pickle_os.Capability.{
  Object, role, Capability, CapTable, Tables, slot_at, lookup, check, find_slot, find_object,
  is_role, check_role,
}

-- Some slot holds a capability for such an object with at least the rights asked for.
abbrev pub Holds : Tables → ℕ → Rights → (Object → Bool) → Type 0
Holds t task needed pred =
    (slot : ℕ) × (cap : Capability) × (lookup t task slot ≡ some cap)
    × (contains cap.rights needed ≡ true)
    × (pred cap.object ≡ true)

find_slot_sound :
    (needed : Rights) (pred : Object → Bool) (slots : CapTable) (c : Capability)
    → find_slot needed pred slots ≡ some c
    → (slot : ℕ) × (slot_at slots slot ≡ some c)
      × (contains c.rights needed ≡ true)
      × (pred c.object ≡ true)
unfolding find_slot
find_slot_sound needed pred [] c h = absurd (ground arith)
find_slot_sound needed pred (none ∷ slots) c h =
    let (i, p, q, r) = find_slot_sound needed pred slots c h in (suc i, p, q, r)
find_slot_sound needed pred (some d ∷ slots) c h =
    elim (Bool-cases (contains d.rights needed && pred d.object)) [
      | inl hit ↦ (0, ground arith, ground arith, ground arith)
      | inr miss ↦
          (let later : find_slot needed pred slots ≡ some c = ground arith in
            let (i, p, q, r) = find_slot_sound needed pred slots c later in (suc i, p, q, r))
    ]

find_slot_complete :
    (needed : Rights) (pred : Object → Bool) (slots : CapTable) (slot : ℕ) (c : Capability)
    → slot_at slots slot ≡ some c
    → contains c.rights needed ≡ true
    → pred c.object ≡ true
    → is_some (find_slot needed pred slots) ≡ true
unfolding find_slot
find_slot_complete needed pred [] slot c e g p = absurd (ground arith)
find_slot_complete needed pred (none ∷ slots) zero c e g p = absurd (ground arith)
find_slot_complete needed pred (none ∷ slots) (suc slot) c e g p =
    find_slot_complete needed pred slots slot c e g p
find_slot_complete needed pred (some d ∷ slots) zero c e g p = ground arith
find_slot_complete needed pred (some d ∷ slots) (suc slot) c e g p =
    ground (arith, find_slot_complete needed pred slots slot c e g p)

-- The search of a task's table finds a capability exactly when some slot of that task holds one.
pub find_object_iff :
    (t : Tables) (task : ℕ) (needed : Rights) (pred : Object → Bool)
    → (is_some (find_object t task needed pred) ≡ true) ↔ Holds t task needed pred
unfolding find_object lookup
find_object_iff t task needed pred = elim (Option-cases (Maps.lookup task t)) [
  | inl e ↦ (λ h. absurd (ground arith), λ p. absurd (ground (arith, p.2)))
  | inr (slots, e) ↦ (
    (λ h. elim (Option-cases (find_slot needed pred slots)) [
      | inl n ↦ absurd (ground arith)
      | inr (c, s) ↦
          (let (i, p, q, r) = find_slot_sound needed pred slots c s in (i, c, rw e p, q, r))
    ]),
    λ p. rw e (find_slot_complete needed pred slots p.0 p.1 (ground (arith, p.2)) p.3 p.4),
  )
]

is_role-eq : (r : ℕ) (o : Object) → is_role r o ≡ true → o ≡ role r
unfolding is_role
is_role-eq r o h = ground arith

role-is_role : (r : ℕ) → is_role r (role r) ≡ true
unfolding is_role
role-is_role r = ground arith

-- A task passes the check for a role exactly when one of its slots passes the check for the rights
-- asked for and names that role.
pub check_role_iff :
    (t : Tables) (task r : ℕ) (needed : Rights)
    → (check_role t task r needed ≡ true) ↔ (
        (slot : ℕ) × (cap : Capability) × (lookup t task slot ≡ some cap)
        × (cap.object ≡ role r)
        × (check t task slot needed ≡ true))
unfolding check_role check
check_role_iff t task r needed = (
  (λ h.
      let (i, c, p, q, s) = (find_object_iff t task needed (is_role r)).0 h in
      (i, c, p, is_role-eq r c.object s, rw (p, check) q)),
  λ w.
      (find_object_iff t task needed (is_role r)).1
        (w.0, w.1, w.2, ground (arith, w.2, w.4), rw w.3 (role-is_role r)),
)
