-- ===== src/Capability/Tests.antt =====
-- The theorems on capabilities at concrete tables (kernel/src/capability.rs).
use pickle_os.Base.{
  ℕ, true, false, ◌≡◌, refl, ◌↔◌, ◌&&◌, ◌==◌, Option, none, some, if◌then◌else◌, List, [], ◌∷◌,
}
use pickle_os.Base.Maps
use pickle_os.Base.Maps.{nat_key}
use pickle_os.Capability.Flags.{
  read_right, write_right, grant_right, all_rights, union, intersect, contains,
}
use pickle_os.Capability.Sets.{contains-union}
use pickle_os.Capability.Grant.{clamp, grant_clamps, grant_refused}
use pickle_os.Capability.Revoke.{revoke_lem, check-revoke}
use pickle_os.Capability.Find.{check_role_iff}
use pickle_os.Capability.Authority.{Authority, here, next, grants, run_call, Reach-Authority}
use pickle_os.Capability.{
  role, endpoint, Capability, Tables, mint, table_insert, first_free, lookup, check, check_role,
  grant, revoke,
}

-- Task 1 holds the file-system role with every right, and an endpoint without the grant right.
abbrev own_slots : List (Option Capability)
own_slots =
    some (record { object = role 2; rights = all_rights })
    ∷ some (record { object = endpoint 7; rights = read_right })
    ∷ []

abbrev demo : Tables
demo = (1, own_slots) ∷ []

-- After task 1 has granted task 2 the reading of the role.
abbrev shared : Tables
shared = (1, own_slots) ∷ (2, some (record { object = role 2; rights = read_right }) ∷ []) ∷ []

Reach-Authority_example : Authority demo (role 2) 2
unfolding run_call grant mint table_insert first_free lookup Maps.lookup Maps.insert contains
    intersect
Reach-Authority_example =
    Reach-Authority {s = demo} {t = run_call demo (grants 1 0 2 read_right)} (role 2) 2
      (next here (grants 1 0 2 read_right))
      (2, 0, record { object = role 2; rights = read_right }, refl, refl, refl)

grant_clamps_example :
    (source : Capability) × (lookup demo 1 0 ≡ some source)
    × (contains source.rights grant_right ≡ true)
    × (lookup demo 2 0 ≡ none)
    × ((task j : ℕ)
        → lookup shared task j
          ≡ (if 2 == task && 0 == j then some (clamp source read_right) else lookup demo task j))
unfolding grant mint table_insert first_free lookup Maps.lookup Maps.insert contains intersect
grant_clamps_example = grant_clamps demo shared 1 0 2 read_right 0 refl

grant_refused_example :
    (demo ≡ demo)
    × ((source : Capability)
        → lookup demo 1 1 ≡ some source
        → contains source.rights grant_right ≡ false)
unfolding grant lookup Maps.lookup contains
grant_refused_example = grant_refused demo demo 1 1 2 read_right refl

revoke_example :
    ((revoke demo 1 0).1 ≡ lookup demo 1 0)
    × ((other j : ℕ)
        → lookup (revoke demo 1 0).0 other j
          ≡ (if 1 == other && 0 == j then none else lookup demo other j))
revoke_example = revoke_lem demo 1 0

check-revoke_example : check (revoke demo 1 0).0 1 0 read_right ≡ false
check-revoke_example = check-revoke demo 1 0 read_right

check_role_example : (check_role demo 1 2 write_right ≡ true) ↔ (
    (slot : ℕ) × (cap : Capability) × (lookup demo 1 slot ≡ some cap)
    × (cap.object ≡ role 2)
    × (check demo 1 slot write_right ≡ true))
check_role_example = check_role_iff demo 1 2 write_right

contains-union_example :
    (contains all_rights (union read_right write_right) ≡ true)
    ↔ ((contains all_rights read_right ≡ true) × (contains all_rights write_right ≡ true))
contains-union_example = contains-union all_rights read_right write_right
