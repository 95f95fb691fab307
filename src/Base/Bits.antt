-- ===== src/Base/Bits.antt =====
-- Words as sets of bits: the native bit operations, read one bit at a time.
use Prim.Native.Nat.{
  ℕ, zero, suc, ◌+◌, ◌-◌, ◌<◌, ◌*◌, ◌/◌, ◌%◌, ◌^◌, ◌≤◌, min, max, bit_and, bit_or, digits,
  bit_and-bitwise, bit_or-bitwise,
}
use mathlib.Core.Path.{◌≡◌, refl, ap, subst}
use mathlib.Core.Bool.{Bool, false, not, ◌&&◌, ◌||◌}
use mathlib.Core.Logic.{inl, inr}
use native.Mathlib.Nat.{pow-suc, one-le-pow}
use native.Mathlib.Omega.{arith}
use pickle_os.Base.Tests.{◌==◌, ==_iff, ltb, Bool-cases}

-- Bit `k` of the word `n`.
abbrev pub test_bit : ℕ → ℕ → Bool
test_bit n zero = n % 2 == 1
test_bit n (suc k) = test_bit (n / 2) k

-- The native operations stand for a recursion on binary digits with fuel; here the fuel goes.
module _ (z : ℕ → ℕ) (f : ℕ → ℕ → ℕ) where
  fuel_irrelevant : (n m a b : ℕ) → a ≤ n → a ≤ m → digits z f n a b ≡ digits z f m a b
  fuel_irrelevant zero zero a b p q = refl
  fuel_irrelevant (suc n) zero zero b p q = refl
  fuel_irrelevant (suc n) zero (suc a) b p q = absurd (omega arith)
  fuel_irrelevant zero (suc m) zero b p q = refl
  fuel_irrelevant zero (suc m) (suc a) b p q = absurd (omega arith)
  fuel_irrelevant (suc n) (suc m) zero b p q = refl
  fuel_irrelevant (suc n) (suc m) (suc a) b p q =
      omega (arith, fuel_irrelevant n m (suc a / 2) (b / 2) (omega arith) (omega arith))

and_low : (a b : ℕ) → bit_and a b ≡ bit_and (a / 2) (b / 2) * 2 + min (a % 2) (b % 2)
and_low zero b = omega (arith, bit_and-bitwise 0 b, bit_and-bitwise 0 (b / 2))
and_low (suc a) b = omega (
  arith,
  bit_and-bitwise (suc a) b,
  bit_and-bitwise (suc a / 2) (b / 2),
  fuel_irrelevant (λ y. 0) min a (suc a / 2) (suc a / 2) (b / 2) (omega arith) (omega arith),
)

or_low : (a b : ℕ) → bit_or a b ≡ bit_or (a / 2) (b / 2) * 2 + max (a % 2) (b % 2)
or_low zero b = omega (arith, bit_or-bitwise 0 b, bit_or-bitwise 0 (b / 2))
or_low (suc a) b = omega (
  arith,
  bit_or-bitwise (suc a) b,
  bit_or-bitwise (suc a / 2) (b / 2),
  fuel_irrelevant (λ y. y) max a (suc a / 2) (suc a / 2) (b / 2) (omega arith) (omega arith),
)

pub test_bit-bit_and : (a b k : ℕ) → test_bit (bit_and a b) k ≡ (test_bit a k && test_bit b k)
test_bit-bit_and a b zero = ground (arith, and_low a b)
test_bit-bit_and a b (suc k) =
    let e : bit_and a b / 2 ≡ bit_and (a / 2) (b / 2) = omega (arith, and_low a b) in
    rw e (test_bit-bit_and (a / 2) (b / 2) k)

pub test_bit-bit_or : (a b k : ℕ) → test_bit (bit_or a b) k ≡ (test_bit a k || test_bit b k)
test_bit-bit_or a b zero = ground (arith, or_low a b)
test_bit-bit_or a b (suc k) =
    let e : bit_or a b / 2 ≡ bit_or (a / 2) (b / 2) = omega (arith, or_low a b) in
    rw e (test_bit-bit_or (a / 2) (b / 2) k)

pub test_bit-zero : (k : ℕ) → test_bit 0 k ≡ false
test_bit-zero zero = refl
test_bit-zero (suc k) = test_bit-zero k

-- The word `1 << j`.
pub test_bit-pow : (j k : ℕ) → test_bit (2 ^ j) k ≡ (j == k)
test_bit-pow zero zero = refl
test_bit-pow zero (suc k) = ground (arith, test_bit-zero k)
test_bit-pow (suc j) zero = ground (arith, pow-suc 2 j)
test_bit-pow (suc j) (suc k) =
    let e : 2 ^ suc j / 2 ≡ 2 ^ j = omega (arith, pow-suc 2 j) in
    rw e (ground (arith, test_bit-pow j k))

ext_fuel : (n a b : ℕ) → a ≤ n → b ≤ n → ((k : ℕ) → test_bit a k ≡ test_bit b k) → a ≡ b
ext_fuel zero a b p q h = omega arith
ext_fuel (suc n) zero zero p q h = refl
ext_fuel (suc n) a b p q h =
    ground (arith, h 0, ext_fuel n (a / 2) (b / 2) (omega arith) (omega arith) (λ k. h (suc k)))

-- Two words with the same bits are one word.
pub word_ext : (a b : ℕ) → ((k : ℕ) → test_bit a k ≡ test_bit b k) → a ≡ b
word_ext a b h = ext_fuel (a + b) a b (omega arith) (omega arith) h

ones_bits : (w k : ℕ) → test_bit (2 ^ w - 1) k ≡ ltb k w
ones_bits zero k = ground (arith, test_bit-zero k)
ones_bits (suc w) zero = ground (arith, pow-suc 2 w, one-le-pow w 2)
ones_bits (suc w) (suc k) =
    let e : (2 ^ suc w - 1) / 2 ≡ 2 ^ w - 1 = omega (arith, pow-suc 2 w, one-le-pow w 2) in
    rw e (ground (arith, ones_bits w k))

pow_lt : (j w : ℕ) → j < w → 2 * 2 ^ j ≤ 2 ^ w
pow_lt zero zero h = elim h [ ]
pow_lt (suc j) zero h = elim h [ ]
pow_lt zero (suc w) h = omega (arith, pow-suc 2 w, one-le-pow w 2)
pow_lt (suc j) (suc w) h = omega (arith, pow-suc 2 w, pow-suc 2 j, pow_lt j w (omega arith))

-- The complement `!(1 << j)` in a word of `w` bits.
pub test_bit-complement :
    (w j k : ℕ) → j < w → test_bit (2 ^ w - 1 - 2 ^ j) k ≡ (ltb k w && not (j == k))
test_bit-complement zero j k h = elim h [ ]
test_bit-complement (suc w) zero zero h = ground (arith, pow-suc 2 w, one-le-pow w 2)
test_bit-complement (suc w) zero (suc k) h =
    let e : (2 ^ suc w - 1 - 2 ^ 0) / 2 ≡ 2 ^ w - 1 = omega (arith, pow-suc 2 w, one-le-pow w 2) in
    rw e (ground (arith, ones_bits w k))
test_bit-complement (suc w) (suc j) zero h =
    ground (arith, pow-suc 2 w, pow-suc 2 j, one-le-pow j 2, pow_lt j w (omega arith))
test_bit-complement (suc w) (suc j) (suc k) h =
    let e : (2 ^ suc w - 1 - 2 ^ suc j) / 2 ≡ 2 ^ w - 1 - 2 ^ j =
      omega (arith, pow-suc 2 w, pow-suc 2 j, one-le-pow w 2, pow_lt j w (omega arith)) in
    rw e (ground (arith, test_bit-complement w j k (omega arith)))

bit_at : (a k j : ℕ) → test_bit a k ≡ false → (test_bit a j && (k == j)) ≡ false
bit_at a k j h = elim (Bool-cases (k == j)) [
  | inl same ↦
      (let e : k ≡ j = (==_iff k j).0 same in ground (arith, subst (λ i. test_bit a i ≡ false) e h))
  | inr other ↦ ground arith
]

-- `(w & (1 << k)) == 0` reads bit `k`.
pub masked_bit : (a k : ℕ) → (bit_and a (2 ^ k) == 0) ≡ not (test_bit a k)
masked_bit a k = elim (Bool-cases (test_bit a k)) [
  | inl on ↦ elim (Bool-cases (bit_and a (2 ^ k) == 0)) [
    | inl z ↦ absurd (
        ground (
          arith,
          on,
          ap (λ (w : ℕ). test_bit w k) ((==_iff _ 0).0 z),
          test_bit-bit_and a (2 ^ k) k,
          test_bit-pow k k,
          test_bit-zero k,
        ))
    | inr nz ↦ rw (on, nz)
  ]
  | inr off ↦
      (let z : bit_and a (2 ^ k) ≡ 0 = word_ext _ 0 λ j. ground (
        arith,
        test_bit-bit_and a (2 ^ k) j,
        test_bit-pow k j,
        test_bit-zero j,
        bit_at a k j off,
      ) in
        rw (z, off))
]
