-- ===== src/Capability.antt =====
-- kernel/src/capability.rs: per-task capability tables, and the calls that read and change them.
-- The state is the map `TABLES` once `init` has run; each call returns the new map and its result.
pub mod Flags
pub mod Sets
pub mod Slots
pub mod Grant
pub mod Revoke
pub mod Find
pub mod Authority
pub mod Tests
use pickle_os.Base.{
  ℕ, suc, ◌+◌, ◌-◌, Bool, true, false, ◌&&◌, Option, none, some, List, [], ◌∷◌, ◌++◌, ◌==◌, ◌>>=◌,
  is_some, if◌then◌else◌, length, get_elem?, set,
}
use pickle_os.Base.Maps
use pickle_os.Base.Maps.{Map, nat_key}
use Flags.{Rights, contains, intersect, grant_right}

pub data Object : Type 0 where
  endpoint : ℕ → Object
  memory : ℕ → ℕ → Object
  irq : ℕ → Object
  port : ℕ → ℕ → Object
  mmio : ℕ → ℕ → Object
  role : ℕ → Object

pub record Capability : Type 0 where
  pub object : Object
  pub rights : Rights

-- The slots of `CapTable`.
abbrev pub CapTable : Type 0
CapTable = List (Option Capability)

abbrev pub Tables : Type 0
Tables = Map ℕ CapTable

unfoldable pub init : Tables
init = []

-- `slots.iter().position(|s| s.is_none())`
unfoldable pub first_free : CapTable → Option ℕ
first_free [] = none
first_free (none ∷ slots) = some 0
first_free (some cap ∷ slots) = first_free slots >>= λ i. some (suc i)

-- `CapTable::insert`: the first free slot, or a new one at the end.
unfoldable pub table_insert : CapTable → Capability → CapTable × ℕ
unfolding first_free
table_insert slots cap = elim (first_free slots) [
  | some i ↦ (set slots i (some cap), i)
  | none ↦ (slots ++ some cap ∷ [], length (slots ++ some cap ∷ []) - 1)
]

-- `entry(task).or_insert_with(CapTable::new)`
abbrev pub entry : Tables → ℕ → CapTable
entry t task = elim (Maps.lookup task t) [ none ↦ [] | some slots ↦ slots ]

unfoldable pub create_table : Tables → ℕ → Tables
create_table t task = Maps.insert task (entry t task) t

unfoldable pub mint : Tables → ℕ → Object → Rights → Tables × ℕ
mint t task object rights =
    let (slots, slot) = table_insert (entry t task) (record { object = object; rights = rights }) in
    (Maps.insert task slots t, slot)

-- `.iter().flatten().find(..)` over the slots.
unfoldable pub find_slot : Rights → (Object → Bool) → CapTable → Option Capability
find_slot needed pred [] = none
find_slot needed pred (none ∷ slots) = find_slot needed pred slots
find_slot needed pred (some cap ∷ slots) =
    if contains cap.rights needed && pred cap.object then some cap else find_slot needed pred slots

unfoldable pub find_object : Tables → ℕ → Rights → (Object → Bool) → Option Capability
unfolding find_slot
find_object t task needed pred = Maps.lookup task t >>= find_slot needed pred

-- `slots.get(slot).copied().flatten()`
abbrev pub slot_at : CapTable → ℕ → Option Capability
slot_at slots slot = get_elem? slots slot >>= λ content. content

unfoldable pub lookup : Tables → ℕ → ℕ → Option Capability
lookup t task slot = Maps.lookup task t >>= λ slots. slot_at slots slot

unfoldable pub check : Tables → ℕ → ℕ → Rights → Bool
check t task slot needed = elim (lookup t task slot) [
  | some cap ↦ contains cap.rights needed
  | none ↦ false
]

-- `matches!(obj, Object::Role(r) if *r == role)`
unfoldable pub is_role : ℕ → Object → Bool
is_role r (role held) = held == r
is_role r (endpoint id) = false
is_role r (memory base len) = false
is_role r (irq line) = false
is_role r (port base count) = false
is_role r (mmio phys_base len) = false

unfoldable pub check_role : Tables → ℕ → ℕ → Rights → Bool
check_role t task r needed = is_some (find_object t task needed (is_role r))

unfoldable pub grant : Tables → ℕ → ℕ → ℕ → Rights → Tables × Option ℕ
grant t from_task from_slot to_task new_rights = elim (lookup t from_task from_slot) [
  | none ↦ (t, none)
  | some source ↦
      if contains source.rights grant_right
      then (let (t', slot) = mint t to_task source.object (intersect source.rights new_rights) in
          (t', some slot))
      else (t, none)
]

-- `slots.get_mut(slot).and_then(|s| s.take())`
unfoldable pub revoke : Tables → ℕ → ℕ → Tables × Option Capability
revoke t task slot = elim (Maps.lookup task t) [
  | none ↦ (t, none)
  | some slots ↦ (Maps.insert task (set slots slot none) t, slot_at slots slot)
]
