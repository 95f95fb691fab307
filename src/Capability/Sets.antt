-- ===== src/Capability/Sets.antt =====
-- Rights read as sets of flags (kernel/src/capability.rs, `impl Rights`).
use pickle_os.Base.{ℕ, true, ◌&&◌, ◌||◌, ◌≡◌, ◌↔◌, ap, arith, ==_iff}
use pickle_os.Base.Bits.{test_bit, test_bit-bit_and, test_bit-bit_or, word_ext}
use pickle_os.Capability.Flags.{Rights, union, intersect, contains}

-- The rights that `a` lists are among those of `b`.
abbrev pub Subset : Rights → Rights → Type 0
Subset a b = (k : ℕ) → test_bit a k ≡ true → test_bit b k ≡ true

contains→Subset : (held needed : Rights) → contains held needed ≡ true → Subset needed held
unfolding contains
contains→Subset held needed h k b =
    let e = ap (λ (w : ℕ). test_bit w k) ((==_iff _ needed).0 h) in
    ground (arith, e, test_bit-bit_and held needed k)

Subset→contains : (held needed : Rights) → Subset needed held → contains held needed ≡ true
unfolding contains
Subset→contains held needed s =
    (==_iff _ needed).1 (word_ext _ needed λ k. ground (arith, s k, test_bit-bit_and held needed k))

-- `contains` decides inclusion of the sets.
contains_iff : (held needed : Rights) → (contains held needed ≡ true) ↔ Subset needed held
contains_iff held needed = (contains→Subset held needed, Subset→contains held needed)

pub test_bit-intersect : (a b k : ℕ) → test_bit (intersect a b) k ≡ (test_bit a k && test_bit b k)
unfolding intersect
test_bit-intersect a b k = test_bit-bit_and a b k

pub test_bit-union : (a b k : ℕ) → test_bit (union a b) k ≡ (test_bit a k || test_bit b k)
unfolding union
test_bit-union a b k = test_bit-bit_or a b k

-- A set of rights holds the union of two sets exactly when it holds both.
pub contains-union :
    (held a b : Rights)
    → (contains held (union a b) ≡ true) ↔ ((contains held a ≡ true) × (contains held b ≡ true))
contains-union held a b = (
  (λ h. (
    Subset→contains held a
        (λ k e. contains→Subset held (union a b) h k (ground (arith, test_bit-union a b k))),
    Subset→contains held b
        (λ k e. contains→Subset held (union a b) h k (ground (arith, test_bit-union a b k))),
  )),
  (λ p. Subset→contains held (union a b) (λ k e.
      ground
        (arith, test_bit-union a b k, contains→Subset held a p.0 k, contains→Subset held b p.1 k))),
)

-- An intersection is held by whoever holds either side's superset: both sides contain it.
pub intersect-Subset : (a b : Rights) → Subset (intersect a b) a × Subset (intersect a b) b
intersect-Subset a b = (
  (λ k h. ground (arith, test_bit-intersect a b k)),
  (λ k h. ground (arith, test_bit-intersect a b k)),
)
