-- ===== src/Services/MemFs/Tree.antt =====
-- The file system is a tree of directories, whatever is asked of it (kernel/src/services).
use pickle_os.Base.{
  ℕ, true, false, ◌≡◌, refl, sym, subst, ◌∙◌, ◌≢◌, ◌⊎◌, none, some, List, [], ◌∷◌, ◌++◌, arith,
  Option-cases, Bool-cases, inl, inr, length,
}
use pickle_os.Base.Bytes.{bytes, rfind, starts_with}
use pickle_os.Base.Maps
use pickle_os.Base.Maps.{
  Map, bytes_key, contains_key, same_bytes, same_bytes_iff, lookup-insert, lookup-remove,
}
use pickle_os.Services.MemFs.Paths.{parent_of-prefix}
use pickle_os.Services.MemFs.{
  welcome_text, motd_text, Bytes, Node, file, dir, Fs, FsError, Result, ok, err, slash, root,
  parent_of, normalize, init, put_new, create, mkdir, write, remove, any_below, create_node,
  write_at, remove_at, written,
}
use pickle_os.Services.Vfs
use pickle_os.Services.Vfs.{VfsRequest, handle}

abbrev pub IsDir : Bytes → Fs → Type 0
IsDir path fs = Maps.lookup path fs ≡ some dir

-- The root is a directory, and so is the parent of everything there is.
pub record IsTree (fs : Fs) : Type 0 where
  pub root_dir : IsDir root fs
  pub parents : (path : Bytes) → contains_key path fs ≡ true → IsDir (parent_of path) fs

insert-IsDir :
    (path other : Bytes) (node : Node) (fs : Fs)
    → Maps.lookup path fs ≢ some dir
    → IsDir other fs
    → IsDir other (Maps.insert path node fs)
insert-IsDir path other node fs free d = elim (Bool-cases (same_bytes path other)) [
  | inl same ↦ absurd (free (subst (λ p. IsDir p fs) (sym ((same_bytes_iff path other).0 same)) d))
  | inr differs ↦ lookup-insert path other node fs ∙ rw differs d
]

-- Something put in below a directory, not in place of one.
insert-IsTree :
    (path : Bytes) (node : Node) (fs : Fs)
    → Maps.lookup path fs ≢ some dir
    → IsDir (parent_of path) fs
    → IsTree fs
    → IsTree (Maps.insert path node fs)
insert-IsTree path node fs free parent v = record {
  root_dir = insert-IsDir path root node fs free v.root_dir;
  parents = λ k h.
      insert-IsDir path (parent_of k) node fs free (elim (Bool-cases (same_bytes path k)) [
        | inl same ↦ subst (λ p. IsDir (parent_of p) fs) ((same_bytes_iff path k).0 same) parent
        | inr differs ↦ v.parents k (ground (arith, lookup-insert path k node fs))
      ]);
}

remove-IsTree :
    (path : Bytes) (fs : Fs)
    → path ≢ root
    → ((k : Bytes) → contains_key k fs ≡ true → parent_of k ≢ path)
    → IsTree fs
    → IsTree (Maps.remove path fs)
remove-IsTree path fs inner childless v = record {
  root_dir = kept root (λ e. inner (sym e)) v.root_dir;
  parents = λ k h.
      let there : contains_key k fs ≡ true = ground (arith, lookup-remove path k fs) in
      kept (parent_of k) (childless k there) (v.parents k there);
}
  where
    kept : (other : Bytes) → other ≢ path → IsDir other fs → IsDir other (Maps.remove path fs)
    kept other ne d = elim (Bool-cases (same_bytes path other)) [
      | inl same ↦ absurd (ne (sym ((same_bytes_iff path other).0 same)))
      | inr differs ↦ lookup-remove path other fs ∙ rw differs d
    ]

put_new-IsTree :
    (path : Bytes) (node : Node) (fs : Fs)
    → Maps.lookup path fs ≢ some dir
    → IsTree fs
    → IsTree (put_new path node fs).0
unfolding put_new
put_new-IsTree path node fs free v = elim (Option-cases (Maps.lookup (parent_of path) fs)) [
  | inl e ↦ rw (e, put_new) v
  | inr (file content, e) ↦ rw (e, put_new) v
  | inr (dir, e) ↦ rw (e, put_new) (insert-IsTree path node fs free e v)
]

create_node-IsTree :
    (node : Node) (path : Bytes) (fs : Fs) → IsTree fs → IsTree (create_node node path fs).0
create_node-IsTree node path fs v = elim (Option-cases (Maps.lookup path fs)) [
  | inl e ↦ rw e (put_new-IsTree path node fs (λ d. ground arith) v)
  | inr (old, e) ↦ rw e v
]

written-fst : (n : ℕ) (r : Fs × Result Unit) → (written n r).0 ≡ r.0
written-fst n (fs, ok x) = refl
written-fst n (fs, err e) = refl

write_at-IsTree : (path content : Bytes) (fs : Fs) → IsTree fs → IsTree (write_at path content fs).0
write_at-IsTree path content fs v = elim (Option-cases (Maps.lookup path fs)) [
  | inl e ↦
      rw (e, write_at)
        (subst IsTree (sym (written-fst (length content) (put_new path (file content) fs)))
          (put_new-IsTree path (file content) fs (λ d. ground arith) v))
  | inr (dir, e) ↦ rw (e, write_at) v
  | inr (file old, e) ↦
      rw (e, write_at)
        (insert-IsTree path (file content) fs (λ d. ground arith) (v.parents path (ground arith)) v)
]

none_below :
    (prefix k : Bytes) (fs : Fs)
    → any_below prefix fs ≡ false
    → contains_key k fs ≡ true
    → starts_with prefix k ≡ false
unfolding any_below Maps.lookup
none_below prefix k [] h c = absurd (ground arith)
none_below prefix k ((j, node) ∷ fs) h c = elim (Bool-cases (same_bytes j k)) [
  | inl same ↦
      subst (λ p. starts_with prefix p ≡ false) ((same_bytes_iff j k).0 same) (ground arith)
  | inr differs ↦ none_below prefix k fs (ground arith) (ground arith)
]

abbrev Childless : Bytes → Fs → Type 0
Childless path fs = (k : Bytes) → contains_key k fs ≡ true → parent_of k ≢ path

inner_path : (path : Bytes) → same_bytes path root ≡ false → path ≢ root
inner_path path inner e = let s = (same_bytes_iff path root).1 e in ground arith

file-Childless :
    (path content : Bytes) (fs : Fs)
    → IsTree fs
    → Maps.lookup path fs ≡ some (file content)
    → Childless path fs
file-Childless path content fs v e k c p =
    let d : IsDir path fs = subst (λ q. IsDir q fs) p (v.parents k c) in ground arith

empty-Childless :
    (path : Bytes) (fs : Fs)
    → path ≢ root
    → any_below (path ++ slash ∷ []) fs ≡ false
    → Childless path fs
empty-Childless path fs ne empty k c p =
    let below : starts_with (path ++ slash ∷ []) k ≡ true =
      subst (λ q. starts_with (q ++ slash ∷ []) k ≡ true) p
        (parent_of-prefix k (λ r. ne (sym p ∙ r))) in
    let off = none_below (path ++ slash ∷ []) k fs empty c in ground arith

remove_at-IsTree : (path : Bytes) (fs : Fs) → IsTree fs → IsTree (remove_at path fs).0
remove_at-IsTree path fs v = elim (Bool-cases (same_bytes path root)) [
  | inl at_root ↦ rw at_root v
  | inr inner ↦ elim (Option-cases (Maps.lookup path fs)) [
    | inl e ↦ rw (inner, e) v
    | inr (file content, e) ↦
        rw (inner, e)
          (remove-IsTree path fs (inner_path path inner) (file-Childless path content fs v e) v)
    | inr (dir, e) ↦ elim (Bool-cases (any_below (path ++ slash ∷ []) fs)) [
      | inl full ↦ rw (inner, e, full) v
      | inr empty ↦
          rw (inner, e, empty)
            (remove-IsTree path fs (inner_path path inner)
              (empty-Childless path fs (inner_path path inner) empty) v)
    ]
  ]
]

Result-cases : {A : Type 0} (r : Result A) → ((e : FsError) × (r ≡ err e)) ⊎ ((x : A) × (r ≡ ok x))
Result-cases (ok x) = inr (x, refl)
Result-cases (err e) = inl (e, refl)

handle-IsTree : (request : VfsRequest) (fs : Fs) → IsTree fs → IsTree (handle request fs).0
unfolding handle create mkdir write remove normalize starts_with
handle-IsTree (Vfs.create path) fs v = elim (Result-cases (normalize path)) [
  | inl (x, e) ↦ rw e v
  | inr (p, e) ↦ rw e (create_node-IsTree (file []) p fs v)
]
handle-IsTree (Vfs.mkdir path) fs v = elim (Result-cases (normalize path)) [
  | inl (x, e) ↦ rw e v
  | inr (p, e) ↦ rw e (create_node-IsTree dir p fs v)
]
handle-IsTree (Vfs.write path content) fs v = elim (Result-cases (normalize path)) [
  | inl (x, e) ↦ rw e v
  | inr (p, e) ↦ rw e (write_at-IsTree p content fs v)
]
handle-IsTree (Vfs.read path) fs v = v
handle-IsTree (Vfs.readdir path) fs v = v
handle-IsTree (Vfs.stat path) fs v = v
handle-IsTree (Vfs.remove path) fs v = elim (Result-cases (normalize path)) [
  | inl (x, e) ↦ rw e v
  | inr (p, e) ↦ rw e (remove_at-IsTree p fs v)
]

abbrev pub handle_all : List VfsRequest → Fs → Fs
handle_all [] fs = fs
handle_all (r ∷ rs) fs = handle_all rs (handle r fs).0

handle_all-kept : (rs : List VfsRequest) (fs : Fs) → IsTree fs → IsTree (handle_all rs fs)
handle_all-kept [] fs v = v
handle_all-kept (r ∷ rs) fs v = handle_all-kept rs (handle r fs).0 (handle-IsTree r fs v)

bare : Fs
bare = Maps.insert (bytes "/") dir []

bare-IsTree : IsTree bare
unfolding bare Maps.insert Maps.lookup parent_of rfind
bare-IsTree = record {
  root_dir = refl;
  parents = λ k h.
      let e : root ≡ k = (same_bytes_iff root k).0 (ground arith) in
      subst (λ p. IsDir (parent_of p) bare) e refl;
}

with_etc : Fs
with_etc = Maps.insert (bytes "/etc") dir bare

with_welcome : Fs
with_welcome = Maps.insert (bytes "/welcome.txt") (file welcome_text) with_etc

absent : (path : Bytes) (fs : Fs) → Maps.lookup path fs ≡ none → Maps.lookup path fs ≢ some dir
absent path fs h d = ground arith

init-IsTree : IsTree init
unfolding init bare with_etc with_welcome Maps.insert Maps.lookup parent_of rfind
init-IsTree =
    insert-IsTree (bytes "/etc/motd") (file motd_text) with_welcome
      (absent (bytes "/etc/motd") with_welcome refl) refl
      (insert-IsTree (bytes "/welcome.txt") (file welcome_text) with_etc
        (absent (bytes "/welcome.txt") with_etc refl) refl
        (insert-IsTree (bytes "/etc") dir bare (absent (bytes "/etc") bare refl) refl bare-IsTree))

-- Whatever requests the file server handles after start-up, in any order, the root is a directory
-- and so is the parent of every file and directory.
pub handle_all-IsTree : (rs : List VfsRequest) → IsTree (handle_all rs init)
handle_all-IsTree rs = handle_all-kept rs init init-IsTree
