-- ===== src/Capability/Slots.antt =====
-- What a write to one table does to every slot of every task (kernel/src/capability.rs).
use pickle_os.Base.{
  ℕ, suc, zero, ◌<◌, ◌-◌, ◌≡◌, refl, Option, none, some, [], ◌∷◌, ◌++◌, ◌&&◌, arith, ◌==◌,
  if◌then◌else◌, length, length-append, set, Option-cases, inl, inr,
}
use pickle_os.Base.Maps.{nat_key, lookup-insert}
use pickle_os.Capability.Flags.{Rights}
use pickle_os.Capability.{
  Object, Capability, CapTable, Tables, first_free, table_insert, entry, create_table, mint,
  slot_at, lookup,
}

slot_at-append :
    (slots : CapTable) (c : Capability) (j : ℕ)
    → slot_at (slots ++ some c ∷ []) j ≡ (if length slots == j then some c else slot_at slots j)
slot_at-append [] c zero = refl
slot_at-append [] c (suc j) = ground arith
slot_at-append (x ∷ slots) c zero = ground arith
slot_at-append (x ∷ slots) c (suc j) = ground (arith, slot_at-append slots c j)

pub slot_at-set :
    (slots : CapTable) (i : ℕ) (v : Option Capability) (j : ℕ)
    → i < length slots
    → slot_at (set slots i v) j ≡ (if i == j then v else slot_at slots j)
slot_at-set [] i v j h = elim h [ ]
slot_at-set (x ∷ slots) zero v zero h = ground arith
slot_at-set (x ∷ slots) zero v (suc j) h = ground arith
slot_at-set (x ∷ slots) (suc i) v zero h = ground arith
slot_at-set (x ∷ slots) (suc i) v (suc j) h = ground (arith, slot_at-set slots i v j (omega arith))

slot_at-length : (slots : CapTable) → slot_at slots (length slots) ≡ none
slot_at-length [] = refl
slot_at-length (x ∷ slots) = slot_at-length slots

first_free_lem :
    (slots : CapTable) (i : ℕ)
    → first_free slots ≡ some i
    → (i < length slots) × (slot_at slots i ≡ none)
unfolding first_free
first_free_lem [] i h = cc
first_free_lem (none ∷ slots) i h = ground arith
first_free_lem (some c ∷ slots) i h = elim (Option-cases (first_free slots)) [
  | inl e ↦ absurd (ground arith)
  | inr (k, e) ↦
      (let e' : i ≡ suc k = ground arith in rw e' (ground (arith, first_free_lem slots k e)))
]

length-append_pred :
    (slots : CapTable) (x : Option Capability) → length (slots ++ x ∷ []) - 1 ≡ length slots
length-append_pred slots x = omega (arith, length-append {0} slots (x ∷ []))

-- The new capability is in the slot returned, and no other slot changes.
pub table_insert-slot_at :
    (slots : CapTable) (c : Capability) (j : ℕ)
    → slot_at (table_insert slots c).0 j
      ≡ (if (table_insert slots c).1 == j then some c else slot_at slots j)
unfolding table_insert
table_insert-slot_at slots c j = elim (Option-cases (first_free slots)) [
  | inl e ↦ rw (e, table_insert) (rw (length-append_pred slots (some c)) (slot_at-append slots c j))
  | inr (i, e) ↦ rw (e, table_insert) (slot_at-set slots i (some c) j (first_free_lem slots i e).0)
]

-- The slot returned was free.
pub table_insert_free :
    (slots : CapTable) (c : Capability) → slot_at slots (table_insert slots c).1 ≡ none
unfolding table_insert
table_insert_free slots c = elim (Option-cases (first_free slots)) [
  | inl e ↦ rw (e, table_insert) (rw (length-append_pred slots (some c)) (slot_at-length slots))
  | inr (i, e) ↦ rw (e, table_insert) (first_free_lem slots i e).1
]

pub lookup-entry : (t : Tables) (task slot : ℕ) → slot_at (entry t task) slot ≡ lookup t task slot
unfolding lookup
lookup-entry t task slot = ground arith

pub lookup-mint :
    (t : Tables) (task : ℕ) (object : Object) (rights : Rights) (other j : ℕ)
    → lookup (mint t task object rights).0 other j ≡ (
        if task == other && (mint t task object rights).1 == j
        then some (record { object = object; rights = rights })
        else lookup t other j)
unfolding lookup mint
lookup-mint t task object rights other j = ground (
  arith,
  lookup-insert task other
      (table_insert (entry t task) (record { object = object; rights = rights })).0 t,
  table_insert-slot_at (entry t task) (record { object = object; rights = rights }) j,
)

pub mint_free :
    (t : Tables) (task : ℕ) (object : Object) (rights : Rights)
    → lookup t task (mint t task object rights).1 ≡ none
unfolding mint lookup
mint_free t task object rights =
    ground (arith, table_insert_free (entry t task) (record { object = object; rights = rights }))

pub lookup-create_table :
    (t : Tables) (task other j : ℕ) → lookup (create_table t task) other j ≡ lookup t other j
unfolding lookup create_table
lookup-create_table t task other j = ground (arith, lookup-insert task other (entry t task) t)
