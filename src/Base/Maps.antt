-- ===== src/Base/Maps.antt =====
-- Rust's `BTreeMap`, of which the kernel uses lookups, insertions, removals and the ordered walk.
-- A map is an association list in the order of its keys; the first entry of a key is the one read.
pub mod Totals
use Prim.Native.Nat.{ℕ, suc, ◌≤◌}
use mathlib.Core.Path.{◌≡◌, refl}
use mathlib.Core.Logic.{◌↔◌, inl, inr}
use mathlib.Core.Bool.{Bool, true, false, ◌&&◌}
use mathlib.Core.Option.{Option, none, some}
use mathlib.Core.List.{List, [], ◌∷◌}
use native.Mathlib.Omega.{arith}
use pickle_os.Base.Tests.{ltb, ◌==◌, ==_iff, if◌then◌else◌, is_some, Option-cases, Bool-cases}
use pickle_os.Base.Lists.{length}

-- What a key offers: equality and the order.
pub record Key (K : Type 0) : Type 0 where
  pub beq : K → K → Bool
  pub before : K → K → Bool
  pub beq_iff : (a b : K) → (beq a b ≡ true) ↔ (a ≡ b)

instance abbrev pub nat_key : Key ℕ
nat_key = record { beq = ◌==◌; before = ltb; beq_iff = ==_iff }

abbrev pub same_bytes : List ℕ → List ℕ → Bool
same_bytes [] [] = true
same_bytes (a ∷ as') (b ∷ bs) = a == b && same_bytes as' bs
same_bytes _ _ = false

abbrev pub before_bytes : List ℕ → List ℕ → Bool
before_bytes [] [] = false
before_bytes [] (b ∷ bs) = true
before_bytes (a ∷ as') [] = false
before_bytes (a ∷ as') (b ∷ bs) = if a == b then before_bytes as' bs else ltb a b

pub same_bytes_iff : (a b : List ℕ) → (same_bytes a b ≡ true) ↔ (a ≡ b)
same_bytes_iff [] [] = ground arith
same_bytes_iff [] (b ∷ bs) = ground arith
same_bytes_iff (a ∷ as') [] = ground arith
same_bytes_iff (a ∷ as') (b ∷ bs) = ground (arith, same_bytes_iff as' bs)

instance abbrev pub bytes_key : Key (List ℕ)
bytes_key = record { beq = same_bytes; before = before_bytes; beq_iff = same_bytes_iff }

abbrev pub Map : Type 0 → Type 0 → Type 0
Map K V = List (K × V)

module _ {K V : Type 0} ⦃key : Key K⦄ where
  unfoldable pub lookup : K → Map K V → Option V
  lookup k [] = none
  lookup k ((j, v) ∷ m) = if key.beq j k then some v else lookup k m

  abbrev pub contains_key : K → Map K V → Bool
  contains_key k m = is_some (lookup k m)

  -- A key that the map has gets the new value; a new key goes to its place in the order.
  replace : K → V → Map K V → Map K V
  replace k v [] = []
  replace k v ((j, w) ∷ m) =
      let later = replace k v m in if key.beq j k then (k, v) ∷ m else (j, w) ∷ later

  add : K → V → Map K V → Map K V
  add k v [] = (k, v) ∷ []
  add k v ((j, w) ∷ m) =
      let later = add k v m in if key.before k j then (k, v) ∷ (j, w) ∷ m else (j, w) ∷ later

  unfoldable pub insert : K → V → Map K V → Map K V
  unfolding replace add lookup
  insert k v m = if contains_key k m then replace k v m else add k v m

  unfoldable pub remove : K → Map K V → Map K V
  remove k [] = []
  remove k ((j, v) ∷ m) = let rest = remove k m in if key.beq j k then rest else (j, v) ∷ rest

  unfoldable pub keys : Map K V → List K
  keys [] = []
  keys ((k, v) ∷ m) = k ∷ keys m

  unfoldable pub values : Map K V → List V
  values [] = []
  values ((k, v) ∷ m) = v ∷ values m

pub beq_self : {K : Type 0} ⦃key : Key K⦄ (k : K) → key.beq k k ≡ true
beq_self ⦃key⦄ k = (key.beq_iff k k).1 refl

module _ {K V : Type 0} ⦃key : Key K⦄ where
  lookup-replace :
      (k j : K) (v : V) (m : Map K V)
      → lookup j (replace k v m) ≡ (if key.beq k j && contains_key k m then some v else lookup j m)
  unfolding lookup replace
  lookup-replace k j v [] = ground arith
  lookup-replace k j v ((i, w) ∷ m) =
      ground (arith, key.beq_iff k j, key.beq_iff i k, key.beq_iff i j, lookup-replace k j v m)

  lookup-add :
      (k j : K) (v : V) (m : Map K V)
      → lookup k m ≡ none
      → lookup j (add k v m) ≡ (if key.beq k j then some v else lookup j m)
  unfolding lookup add
  lookup-add k j v [] h = ground arith
  lookup-add k j v ((i, w) ∷ m) h =
      ground (arith, key.beq_iff k j, key.beq_iff i k, key.beq_iff i j, lookup-add k j v m)

  pub lookup-insert :
      (k j : K) (v : V) (m : Map K V)
      → lookup j (insert k v m) ≡ (if key.beq k j then some v else lookup j m)
  unfolding insert
  lookup-insert k j v m = elim (Option-cases (lookup k m)) [
    | inl e ↦ rw (e, insert) (lookup-add k j v m e)
    | inr (w, e) ↦ rw (e, insert) (ground (arith, e, lookup-replace k j v m))
  ]

  length-replace : (k : K) (v : V) (m : Map K V) → length (replace k v m) ≡ length m
  unfolding replace
  length-replace k v [] = refl
  length-replace k v ((i, w) ∷ m) = ground (arith, length-replace k v m)

  length-add : (k : K) (v : V) (m : Map K V) → length (add k v m) ≡ suc (length m)
  unfolding add
  length-add k v [] = refl
  length-add k v ((i, w) ∷ m) = ground (arith, length-add k v m)

  pub length-insert :
      (k : K) (v : V) (m : Map K V)
      → length (insert k v m) ≡ (if contains_key k m then length m else suc (length m))
  unfolding insert
  length-insert k v m = ground (arith, length-replace k v m, length-add k v m)

  pub length-remove : (k : K) (m : Map K V) → length (remove k m) ≤ length m
  unfolding remove
  length-remove k [] = omega arith
  length-remove k ((i, w) ∷ m) = ground (arith, length-remove k m)

  pub lookup-remove :
      (k j : K) (m : Map K V) → lookup j (remove k m) ≡ (if key.beq k j then none else lookup j m)
  unfolding lookup remove
  lookup-remove k j [] = ground arith
  lookup-remove k j ((i, w) ∷ m) =
      ground (arith, key.beq_iff k j, key.beq_iff i k, key.beq_iff i j, lookup-remove k j m)

  pub lookup-insert_self : (k : K) (v : V) (m : Map K V) → lookup k (insert k v m) ≡ some v
  lookup-insert_self k v m = rw (lookup-insert k k v m, beq_self k)

  pub lookup-remove_self : (k : K) (m : Map K V) → lookup k (remove k m) ≡ none
  lookup-remove_self k m = rw (lookup-remove k k m, beq_self k)

module _ {K V : Type 0} ⦃key : Key K⦄ where
  -- No key stands twice, as in a `BTreeMap`.
  abbrev pub Distinct : Map K V → Type 0
  Distinct [] = Unit
  Distinct ((k, v) ∷ m) = (lookup k m ≡ none) × Distinct m

module _ {K V : Type 0} ⦃key : Key K⦄ where
  Distinct-replace : (k : K) (v : V) (m : Map K V) → Distinct m → Distinct (replace k v m)
  unfolding replace
  Distinct-replace k v [] d = tt
  Distinct-replace k v ((i, w) ∷ m) d = elim (Bool-cases (key.beq i k)) [
    | inl same ↦ rw same (rw (← (key.beq_iff i k).0 same) d.0, d.1)
    | inr other ↦ rw other (
      ground (arith, lookup-replace k i v m, key.beq_iff i k, key.beq_iff k i),
      Distinct-replace k v m d.1,
    )
  ]

  Distinct-add :
      (k : K) (v : V) (m : Map K V) → lookup k m ≡ none → Distinct m → Distinct (add k v m)
  unfolding add lookup
  Distinct-add k v [] h d = (refl, tt)
  Distinct-add k v ((i, w) ∷ m) h d = elim (Bool-cases (key.before k i)) [
    | inl first ↦ rw first (h, d)
    | inr later ↦ rw later (
      ground (arith, lookup-add k i v m, key.beq_iff i k, key.beq_iff k i),
      Distinct-add k v m (ground arith) d.1,
    )
  ]

  pub Distinct-insert : (k : K) (v : V) (m : Map K V) → Distinct m → Distinct (insert k v m)
  unfolding insert
  Distinct-insert k v m d = elim (Option-cases (lookup k m)) [
    | inl e ↦ rw (e, insert) (Distinct-add k v m e d)
    | inr (w, e) ↦ rw (e, insert) (Distinct-replace k v m d)
  ]

  pub Distinct-remove : (k : K) (m : Map K V) → Distinct m → Distinct (remove k m)
  unfolding remove
  Distinct-remove k [] d = tt
  Distinct-remove k ((i, w) ∷ m) d = elim (Bool-cases (key.beq i k)) [
    | inl same ↦ rw same (Distinct-remove k m d.1)
    | inr other ↦ rw other (ground (arith, lookup-remove k i m), Distinct-remove k m d.1)
  ]
