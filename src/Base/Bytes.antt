-- ===== src/Base/Bytes.antt =====
-- Rust's `str` and `[u8]` as lists of bytes, with the operations that the kernel uses.
use Prim.Native.Char.{code}
use Prim.Native.String.{String}
use Prim.Native.Nat.{ℕ, suc}
use mathlib.Core.Path.{◌≡◌, refl}
use mathlib.Core.Bool.{Bool, true, false, ◌&&◌, ◌||◌}
use mathlib.Core.Option.{Option, none, some}
use mathlib.Core.List.{List, [], ◌∷◌, ◌++◌}
use native.Mathlib.Omega.{arith}
use pickle_os.Base.Tests.{◌==◌, if◌then◌else◌}

-- The bytes of an ASCII text.
abbrev pub bytes : String → List ℕ
bytes String.[] = []
bytes (String.◌∷◌ c s) = code c ∷ bytes s

-- `strip_prefix`
unfoldable pub strip_prefix : List ℕ → List ℕ → Option (List ℕ)
strip_prefix [] s = some s
strip_prefix (c ∷ cs) [] = none
strip_prefix (c ∷ cs) (d ∷ s) = let later = strip_prefix cs s in if c == d then later else none

-- `starts_with`
unfoldable pub starts_with : List ℕ → List ℕ → Bool
starts_with [] s = true
starts_with (c ∷ cs) [] = false
starts_with (c ∷ cs) (d ∷ s) = c == d && starts_with cs s

-- `contains` of a byte
unfoldable pub has_byte : ℕ → List ℕ → Bool
has_byte b [] = false
has_byte b (c ∷ s) = c == b || has_byte b s

-- `rfind` of a byte
unfoldable pub rfind : ℕ → List ℕ → Option ℕ
rfind b [] = none
rfind b (c ∷ s) =
    let later = rfind b s in
    elim later [ some i ↦ some (suc i) | none ↦ if c == b then some 0 else none ]

-- `trim_end_matches` of a byte
unfoldable pub trim_end : ℕ → List ℕ → List ℕ
trim_end b [] = []
trim_end b (c ∷ s) =
    let later = trim_end b s in
    elim later [ [] ↦ if c == b then [] else c ∷ [] | d ∷ ds ↦ c ∷ d ∷ ds ]

pub starts_with-append : (p s : List ℕ) → starts_with p (p ++ s) ≡ true
unfolding starts_with
starts_with-append [] s = refl
starts_with-append (c ∷ p) s = ground (arith, starts_with-append p s)

-- A prefix is stripped exactly from the texts that have it.
pub strip_prefix-append : (p s : List ℕ) (r : List ℕ) → strip_prefix p s ≡ some r → s ≡ p ++ r
unfolding strip_prefix
strip_prefix-append [] s r h = ground arith
strip_prefix-append (c ∷ p) [] r h = absurd (ground arith)
strip_prefix-append (c ∷ p) (d ∷ s) r h = ground (arith, strip_prefix-append p s r)

pub append-strip_prefix : (p r : List ℕ) → strip_prefix p (p ++ r) ≡ some r
unfolding strip_prefix
append-strip_prefix [] r = refl
append-strip_prefix (c ∷ p) r = ground (arith, append-strip_prefix p r)
