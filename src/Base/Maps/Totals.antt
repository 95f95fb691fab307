-- ===== src/Base/Maps/Totals.antt =====
-- Sums over the entries of a map, under insertion and removal.
use Prim.Native.Nat.{ℕ, ◌+◌}
use mathlib.Core.Path.{◌≡◌, refl}
use mathlib.Core.Logic.{inl, inr}
use mathlib.Core.Option.{Option, none, some}
use mathlib.Core.List.{List, [], ◌∷◌}
use native.Mathlib.Omega.{arith}
use pickle_os.Base.Tests.{Option-cases, Bool-cases}
use pickle_os.Base.Maps.{Key, Map, lookup, replace, add, insert, remove, values, Distinct}

module _ {K V : Type 0} ⦃key : Key K⦄ where
  abbrev pub total : (V → ℕ) → Map K V → ℕ
  total f [] = 0
  total f ((k, v) ∷ m) = f v + total f m

module _ {V : Type 0} where
  abbrev pub total_list : (V → ℕ) → List V → ℕ
  total_list f [] = 0
  total_list f (v ∷ vs) = f v + total_list f vs

  -- What a key contributes.
  abbrev pub share : (V → ℕ) → Option V → ℕ
  share f none = 0
  share f (some v) = f v

module _ {K V : Type 0} ⦃key : Key K⦄ where
  pub total_list-values : (f : V → ℕ) (m : Map K V) → total_list f (values m) ≡ total f m
  unfolding values
  total_list-values f [] = refl
  total_list-values f ((k, v) ∷ m) = ground (arith, total_list-values f m)

  total-replace :
      (f : V → ℕ) (k : K) (v w : V) (m : Map K V)
      → lookup k m ≡ some w
      → total f (replace k v m) + f w ≡ total f m + f v
  unfolding replace lookup
  total-replace f k v w [] h = absurd (ground arith)
  total-replace f k v w ((j, u) ∷ m) h = elim (Bool-cases (key.beq j k)) [
    | inl same ↦ (let e : u ≡ w = ground arith in rw (same, e) (omega arith))
    | inr other ↦ (let ih = total-replace f k v w m (ground arith) in rw other (omega (arith, ih)))
  ]

  total-add : (f : V → ℕ) (k : K) (v : V) (m : Map K V) → total f (add k v m) ≡ total f m + f v
  unfolding add
  total-add f k v [] = omega arith
  total-add f k v ((j, u) ∷ m) = elim (Bool-cases (key.before k j)) [
    | inl first ↦ rw first (omega arith)
    | inr later ↦ rw later (omega (arith, total-add f k v m))
  ]

  pub total-insert :
      (f : V → ℕ) (k : K) (v : V) (m : Map K V)
      → total f (insert k v m) + share f (lookup k m) ≡ total f m + f v
  unfolding insert
  total-insert f k v m = elim (Option-cases (lookup k m)) [
    | inl e ↦ rw (e, insert) (omega (arith, total-add f k v m))
    | inr (w, e) ↦ rw (e, insert) (total-replace f k v w m e)
  ]

  total-remove_absent :
      (f : V → ℕ) (k : K) (m : Map K V) → lookup k m ≡ none → total f (remove k m) ≡ total f m
  unfolding remove lookup
  total-remove_absent f k [] h = refl
  total-remove_absent f k ((j, u) ∷ m) h = elim (Bool-cases (key.beq j k)) [
    | inl same ↦ absurd (ground arith)
    | inr other ↦
        (let ih = total-remove_absent f k m (ground arith) in rw other (omega (arith, ih)))
  ]

  pub total-remove :
      (f : V → ℕ) (k : K) (m : Map K V)
      → Distinct m
      → total f (remove k m) + share f (lookup k m) ≡ total f m
  unfolding remove lookup
  total-remove f k [] d = refl
  total-remove f k ((j, u) ∷ m) d = elim (Bool-cases (key.beq j k)) [
    | inl same ↦
        (let e : j ≡ k = (key.beq_iff j k).0 same in
          let gone : lookup k m ≡ none = rw (← e) d.0 in
          rw same (omega (arith, total-remove_absent f k m gone)))
    | inr other ↦ (let ih = total-remove f k m d.1 in rw other (omega (arith, ih)))
  ]
