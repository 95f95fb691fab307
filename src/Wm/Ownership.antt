-- ===== src/Wm/Ownership.antt =====
-- Tearing down the windows of a task that has gone (kernel/src/wm.rs).
use pickle_os.Base.{
  ℕ, Bool, false, ◌≡◌, refl, subst, ◌+◌, Option, none, some, List, [], ◌∷◌, ◌++◌, arith, ◌==◌,
  ==_iff, if◌then◌else◌, Bool-cases, inl, inr, ltb, length,
}
use pickle_os.Base.Maps
use pickle_os.Base.Maps.{Map, nat_key, lookup-remove, Distinct, Distinct-remove}
use pickle_os.Base.Members.{member}
use pickle_os.Wm.{ServerWindow, Wm, u64, owned_ids, remove_all, destroy_windows_owned_by, is_owner}

lookup-remove_all :
    (ids : List ℕ) (id : ℕ) (ws : Map ℕ ServerWindow)
    → Maps.lookup id (remove_all ids ws) ≡ (if member id ids then none else Maps.lookup id ws)
unfolding remove_all member
lookup-remove_all [] id ws = refl
lookup-remove_all (x ∷ xs) id ws =
    ground (arith, lookup-remove_all xs id (Maps.remove x ws), lookup-remove x id ws)

-- An entry that the lookup does not see contributes no id.
absent-owned_ids :
    (owner id : ℕ) (ws : Map ℕ ServerWindow)
    → Maps.lookup id ws ≡ none
    → member id (owned_ids owner ws) ≡ false
unfolding owned_ids Maps.lookup member
absent-owned_ids owner id [] h = refl
absent-owned_ids owner id ((i, win) ∷ ws) h = ground (arith, absent-owned_ids owner id ws)

abbrev pub owned_by : ℕ → Option ServerWindow → Bool
owned_by owner none = false
owned_by owner (some win) = win.owner == owner

member-owned_ids :
    (owner id : ℕ) (ws : Map ℕ ServerWindow)
    → Distinct ws
    → member id (owned_ids owner ws) ≡ owned_by owner (Maps.lookup id ws)
unfolding owned_ids Maps.lookup member
member-owned_ids owner id [] d = refl
member-owned_ids owner id ((i, win) ∷ ws) d = elim (Bool-cases (i == id)) [
  | inl same ↦
      (let e : i ≡ id = (==_iff i id).0 same in
        let gone = absent-owned_ids owner i ws d.0 in
        let gone' = subst (λ j. member j (owned_ids owner ws) ≡ false) e gone in ground arith)
  | inr other ↦ ground (arith, member-owned_ids owner id ws d.1)
]

Distinct-remove_all :
    (ids : List ℕ) (ws : Map ℕ ServerWindow) → Distinct ws → Distinct (remove_all ids ws)
unfolding remove_all
Distinct-remove_all [] ws d = d
Distinct-remove_all (x ∷ xs) ws d =
    Distinct-remove_all xs (Maps.remove x ws) (Distinct-remove x ws d)

-- In a registry where no id stands twice: afterwards no window of that owner is registered, every other window is as it was, the ids torn
-- down are queued for the compositor behind those queued before, and the result is their number;
-- the scene is marked dirty exactly if there was one.
pub destroy_windows_owned_by_lem :
    (owner : ℕ) (s : Wm)
    → Distinct s.windows
    → ((id : ℕ)
        → Maps.lookup id (destroy_windows_owned_by owner s).0.windows
          ≡ (if is_owner id owner s then none else Maps.lookup id s.windows))
      × ((destroy_windows_owned_by owner s).0.pending_destroy
          ≡ s.pending_destroy ++ owned_ids owner s.windows)
      × ((destroy_windows_owned_by owner s).1 ≡ length (owned_ids owner s.windows))
      × ((destroy_windows_owned_by owner s).0.dirty
          ≡ (if ltb 0 (length (owned_ids owner s.windows)) then u64 (s.dirty + 1) else s.dirty))
unfolding destroy_windows_owned_by is_owner
destroy_windows_owned_by_lem owner s d = (
  (λ id. ground (
    arith,
    lookup-remove_all (owned_ids owner s.windows) id s.windows,
    member-owned_ids owner id s.windows d,
  )),
  ground arith,
  refl,
  ground arith,
)
