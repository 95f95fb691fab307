-- ===== src/Base/Members.antt =====
-- Membership of numbers in lists: `contains`, `retain` and `extend_from_slice` of a `Vec<u64>`.
use Prim.Native.Nat.{ℕ}
use mathlib.Core.Path.{◌≡◌, refl}
use mathlib.Core.Bool.{Bool, false, not, ◌&&◌, ◌||◌}
use mathlib.Core.List.{List, [], ◌∷◌, ◌++◌}
use native.Mathlib.Omega.{arith}
use pickle_os.Base.Tests.{◌==◌, if◌then◌else◌}

unfoldable pub member : ℕ → List ℕ → Bool
member id [] = false
member id (x ∷ xs) = x == id || member id xs

-- `retain(|&x| x != id)`
unfoldable pub retain_ne : ℕ → List ℕ → List ℕ
retain_ne id [] = []
retain_ne id (x ∷ xs) = let later = retain_ne id xs in if x == id then later else x ∷ later

pub member-append :
    (id : ℕ) (xs ys : List ℕ) → member id (xs ++ ys) ≡ (member id xs || member id ys)
unfolding member
member-append id [] ys = refl
member-append id (x ∷ xs) ys = ground (arith, member-append id xs ys)

pub member-retain_ne :
    (id other : ℕ) (xs : List ℕ)
    → member other (retain_ne id xs) ≡ (member other xs && not (id == other))
unfolding member retain_ne
member-retain_ne id other [] = refl
member-retain_ne id other (x ∷ xs) = ground (arith, member-retain_ne id other xs)
