-- ===== src/Services/Registry.antt =====
-- kernel/src/services/registry.rs: the directory of service names, and the client's wrappers. The
-- boxes and their addresses in the message words are left out.
use pickle_os.Base.{
  ℕ, Bool, true, false, ◌≡◌, refl, Option, none, some, List, [], arith, if◌then◌else◌,
}
use pickle_os.Base.Maps
use pickle_os.Base.Maps.{Map, bytes_key, same_bytes, lookup-insert}

-- `NAMES`, empty until the first request.
abbrev pub Names : Type 0
Names = Map (List ℕ) ℕ

pub data RegRequest : Type 0 where
  register : List ℕ → ℕ → RegRequest
  lookup : List ℕ → RegRequest
  list : RegRequest

pub data RegResponse : Type 0 where
  ok : RegResponse
  endpoint : ℕ → RegResponse
  not_found : RegResponse
  list_response : List (List ℕ) → RegResponse

unfoldable pub handle : RegRequest → Names → Names × RegResponse
handle (register name ep) names = (Maps.insert name ep names, ok)
handle (lookup name) names = elim (Maps.lookup name names) [
  | some ep ↦ (names, endpoint ep)
  | none ↦ (names, not_found)
]
handle list names = (names, list_response (Maps.keys names))

-- The client's `register`, `lookup` and `list`, given what `request` returned.
unfoldable pub registered : Option RegResponse → Bool
registered (some ok) = true
registered _ = false

unfoldable pub resolved : Option RegResponse → Option ℕ
resolved (some (endpoint ep)) = some ep
resolved _ = none

unfoldable pub all_names : Option RegResponse → List (List ℕ)
all_names (some (list_response l)) = l
all_names _ = []

-- Registering is acknowledged, and afterwards the name resolves to the endpoint registered last,
-- and every other name to what it resolved to before.
resolve-register :
    (name other : List ℕ) (ep : ℕ) (names : Names)
    → (registered (some (handle (register name ep) names).1) ≡ true)
      × (resolved (some (handle (lookup other) (handle (register name ep) names).0).1) ≡ (
          if same_bytes name other
          then some ep
          else resolved (some (handle (lookup other) names).1)))
unfolding handle registered resolved
resolve-register name other ep names = (refl, ground (arith, lookup-insert name other ep names))
