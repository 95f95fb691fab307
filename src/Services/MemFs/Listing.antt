-- ===== src/Services/MemFs/Listing.antt =====
-- What `readdir` lists (kernel/src/services/memfs.rs).
use pickle_os.Base.{
  Bool, false, not, ◌&&◌, ◌||◌, ◌≡◌, refl, sym, ap, ◌∙◌, Option, none, some, List, [], ◌∷◌, ◌++◌,
  arith, Option-cases, Bool-cases, inl, inr, length, length-append,
}
use pickle_os.Base.Bytes.{strip_prefix, has_byte, strip_prefix-append, append-strip_prefix}
use pickle_os.Base.Maps
use pickle_os.Base.Maps.{Map, bytes_key, contains_key, same_bytes, same_bytes_iff, before_bytes}
use pickle_os.Services.MemFs.{
  Bytes, Fs, slash, root, leaf, child_prefix, children, normalize, readdir, readdir_at, dir, ok,
  insert_sorted, sort,
}

abbrev pub listed : Bytes → List Bytes → Bool
listed name [] = false
listed name (x ∷ xs) = same_bytes x name || listed name xs

listed-insert_sorted :
    (name x : Bytes) (l : List Bytes)
    → listed name (insert_sorted x l) ≡ (same_bytes x name || listed name l)
unfolding insert_sorted
listed-insert_sorted name x [] = ground arith
listed-insert_sorted name x (y ∷ l) = ground (arith, listed-insert_sorted name x l)

listed-sort : (name : Bytes) (l : List Bytes) → listed name (sort l) ≡ listed name l
unfolding sort
listed-sort name [] = refl
listed-sort name (x ∷ l) = ground (arith, listed-insert_sorted name x (sort l), listed-sort name l)

-- A name that a directory entry may have: not empty, and without a slash.
abbrev pub is_name : Bytes → Bool
is_name name = not (same_bytes name []) && not (has_byte slash name)

longer : (path name : Bytes) → child_prefix path ++ name ≡ path → is_name name ≡ false
longer path [] h = refl
longer path (x ∷ xs) h = elim (Bool-cases (same_bytes path root)) [
  | inl top ↦
      (let e : root ++ x ∷ xs ≡ path = ground arith in
        let at = (same_bytes_iff path root).0 top in
        let l = ap length (e ∙ at) in absurd (omega (arith, l, length-append root (x ∷ xs))))
  | inr inner ↦
      (let e : (path ++ slash ∷ []) ++ x ∷ xs ≡ path = ground arith in
        let l = ap length e in
        absurd (
          omega (
            arith,
            l,
            length-append (path ++ slash ∷ []) (x ∷ xs),
            length-append path (slash ∷ []),
          )))
]

abbrev named : Bytes → Option Bytes → Bool
named name none = false
named name (some n) = is_name n && same_bytes n name

-- Stripping a prefix finds the name exactly in the key that is the prefix and the name.
stripped :
    (prefix name key : Bytes)
    → named name (strip_prefix prefix key) ≡ (same_bytes key (prefix ++ name) && is_name name)
stripped prefix name key = elim (Option-cases (strip_prefix prefix key)) [
  | inl e ↦ elim (Bool-cases (same_bytes key (prefix ++ name))) [
    | inr off ↦ rw (e, off) refl
    | inl on ↦
        (let k = (same_bytes_iff key (prefix ++ name)).0 on in
          let s = ap (strip_prefix prefix) k ∙ append-strip_prefix prefix name in
          absurd (ground arith))
  ]
  | inr (r, e) ↦ elim (Bool-cases (same_bytes r name)) [
    | inl same ↦
        (let q : r ≡ name = (same_bytes_iff r name).0 same in
          let k = strip_prefix-append prefix key r e ∙ ap (λ n. prefix ++ n) q in
          let on = (same_bytes_iff key (prefix ++ name)).1 k in
          let same_name = ap is_name q in rw (e, on, same) (ground arith))
    | inr differs ↦ elim (Bool-cases (same_bytes key (prefix ++ name))) [
      | inr off ↦ rw (e, off, differs) (ground arith)
      | inl on ↦
          (let k = (same_bytes_iff key (prefix ++ name)).0 on in
            let s = ap (strip_prefix prefix) k ∙ append-strip_prefix prefix name in
            let q : r ≡ name = ground arith in
            let same = (same_bytes_iff r name).1 q in absurd (ground arith))
    ]
  ]
]

leaf-child :
    (path name key : Bytes)
    → (elim (leaf path key) [ none ↦ false | some n ↦ same_bytes n name ])
      ≡ (same_bytes key (child_prefix path ++ name) && is_name name)
leaf-child path name key = elim (Bool-cases (same_bytes key path)) [
  | inl own ↦ elim (Bool-cases (same_bytes key (child_prefix path ++ name))) [
    | inr off ↦ rw (own, off) refl
    | inl on ↦
        (let h = (same_bytes_iff key (child_prefix path ++ name)).0 on in
          let k = (same_bytes_iff key path).0 own in
          let n = longer path name (sym h ∙ k) in rw (own, on) (sym n))
  ]
  | inr other ↦
      rw (other, ← stripped (child_prefix path) name key)
        (elim (Option-cases (strip_prefix (child_prefix path) key)) [
          | inl e ↦ rw e refl
          | inr (r, e) ↦ rw e (ground arith)
        ])
]

listed-children :
    (path name : Bytes) (fs : Fs)
    → listed name (children path fs) ≡ (contains_key (child_prefix path ++ name) fs && is_name name)
unfolding children Maps.lookup
listed-children path name [] = ground arith
listed-children path name ((key, node) ∷ fs) = elim (Option-cases (leaf path key)) [
  | inl e ↦ rw (e, listed) (ground (arith, listed-children path name fs, leaf-child path name key))
  | inr (n, e) ↦
      rw (e, listed) (ground (arith, listed-children path name fs, leaf-child path name key))
]

-- A directory can be listed, and the names listed are those under which it has an entry, spelled
-- without a slash: nothing of it is left out, and nothing below or beside it is shown.
pub readdir_lem :
    (path p : Bytes) (fs : Fs)
    → normalize path ≡ ok p
    → Maps.lookup p fs ≡ some dir
    → (names : List Bytes) × (readdir path fs ≡ ok names)
      × ((name : Bytes)
          → listed name names ≡ (contains_key (child_prefix p ++ name) fs && is_name name))
unfolding readdir
readdir_lem path p fs h d = (
  sort (children p fs),
  rw (h, readdir) (rw (d, readdir_at) refl),
  λ name. listed-sort name (children p fs) ∙ listed-children p name fs,
)
