-- ===== src/Services/MemFs/Paths.antt =====
-- Parents of paths (kernel/src/services/memfs.rs).
use pickle_os.Base.{
  ℕ, suc, zero, true, ◌≡◌, ◌≢◌, some, [], ◌∷◌, ◌++◌, arith, take, Option-cases, inl, inr,
}
use pickle_os.Base.Bytes.{starts_with, rfind}
use pickle_os.Services.MemFs.{slash, root, Bytes, parent_of}

-- The text up to the last such byte, with the byte, is a prefix.
rfind_prefix :
    (b : ℕ) (s : Bytes) (i : ℕ) → rfind b s ≡ some i → starts_with (take i s ++ b ∷ []) s ≡ true
unfolding rfind starts_with
rfind_prefix b [] i h = absurd (ground arith)
rfind_prefix b (c ∷ s) zero h = elim (Option-cases (rfind b s)) [
  | inl e ↦ ground arith
  | inr (j, e) ↦ absurd (ground arith)
]
rfind_prefix b (c ∷ s) (suc i) h = elim (Option-cases (rfind b s)) [
  | inl e ↦ absurd (ground arith)
  | inr (j, e) ↦ ground (arith, rfind_prefix b s i)
]

-- A path whose parent is not the root starts with that parent and a slash.
pub parent_of-prefix :
    (path : Bytes) → parent_of path ≢ root → starts_with (parent_of path ++ slash ∷ []) path ≡ true
unfolding parent_of
parent_of-prefix path ne = elim (Option-cases (rfind slash path)) [
  | inl e ↦ absurd (ne (rw (e, parent_of)))
  | inr (zero, e) ↦ absurd (ne (rw (e, parent_of)))
  | inr (suc j, e) ↦ rw (e, parent_of) (rfind_prefix slash path (suc j) e)
]
