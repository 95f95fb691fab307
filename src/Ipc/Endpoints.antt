-- ===== src/Ipc/Endpoints.antt =====
-- Endpoint ids and names (kernel/src/ipc.rs): they stay distinct, and a name always finds one endpoint.
use pickle_os.Base.{
  ℕ, ◌<◌, true, false, ◌≡◌, some, List, arith, if◌then◌else◌, Option-cases, inl, inr,
}
use pickle_os.Base.Maps
use pickle_os.Base.Maps.{
  nat_key, bytes_key, lookup-insert, lookup-insert_self, same_bytes_iff, contains_key,
}
use pickle_os.Ipc.{Ipc, new_endpoint, create_endpoint, create_named_endpoint, lookup}

pub record IsWellFormed (s : Ipc) : Type 0 where
  pub ids_below : (ep : ℕ) → contains_key ep s.endpoints ≡ true → ep < s.next_ep
  pub names_valid :
      (name : List ℕ) (id : ℕ) → lookup name s ≡ some id → contains_key id s.endpoints ≡ true
  pub names_distinct : (n m : List ℕ) (id : ℕ) → lookup n s ≡ some id → lookup m s ≡ some id → n ≡ m

-- A new endpoint has an id that no endpoint had.
pub create_endpoint_fresh :
    (s : Ipc) → IsWellFormed s → contains_key (create_endpoint s).1 s.endpoints ≡ false
unfolding create_endpoint
create_endpoint_fresh s v = ground (arith, v.ids_below s.next_ep)

pub create_endpoint-IsWellFormed : (s : Ipc) → IsWellFormed s → IsWellFormed (create_endpoint s).0
unfolding create_endpoint lookup
create_endpoint-IsWellFormed s v = record {
  ids_below =
      λ ep h. ground (arith, v.ids_below ep, lookup-insert s.next_ep ep new_endpoint s.endpoints);
  names_valid = λ name id h.
      ground (arith, v.names_valid name id h, lookup-insert s.next_ep id new_endpoint s.endpoints);
  names_distinct = λ n m id p q. v.names_distinct n m id p q;
}

-- Asking for a name gives its endpoint: the one that it had, or else a new one, which it keeps.
lookup-create_named_endpoint :
    (name other : List ℕ) (s : Ipc)
    → lookup other (create_named_endpoint name s).0 ≡ (
        if Maps.same_bytes name other
        then some (create_named_endpoint name s).1
        else lookup other s)
unfolding create_named_endpoint lookup
lookup-create_named_endpoint name other s = elim (Option-cases (Maps.lookup name s.names)) [
  | inl e ↦ rw (e, create_named_endpoint) (lookup-insert name other s.next_ep s.names)
  | inr (id, e) ↦ rw (e, create_named_endpoint) (ground (arith, same_bytes_iff name other))
]

-- Asking for a named endpoint keeps the tables well formed: every id is below the next one, every
-- name leads to an endpoint that exists, and no two names to the same one.
pub create_named_endpoint-IsWellFormed :
    (name : List ℕ) (s : Ipc) → IsWellFormed s → IsWellFormed (create_named_endpoint name s).0
unfolding create_named_endpoint lookup
create_named_endpoint-IsWellFormed name s v = elim (Option-cases (Maps.lookup name s.names)) [
  | inr (id, e) ↦ rw (e, create_named_endpoint) v
  | inl e ↦
      rw (e, create_named_endpoint)
        (record {
          ids_below = λ ep h.
              ground (arith, v.ids_below ep, lookup-insert s.next_ep ep new_endpoint s.endpoints);
          names_valid = λ n id h. ground (
            arith,
            v.names_valid n id,
            lookup-insert name n s.next_ep s.names,
            lookup-insert s.next_ep id new_endpoint s.endpoints,
          );
          names_distinct = λ n m id p q. ground (
            arith,
            v.names_distinct n m id,
            v.names_valid n id,
            v.names_valid m id,
            v.ids_below id,
            same_bytes_iff name n,
            same_bytes_iff name m,
            lookup-insert name n s.next_ep s.names,
            lookup-insert name m s.next_ep s.names,
          );
        })
]
