-- ===== src/Services/MemFs.antt =====
-- kernel/src/services/memfs.rs: a file system in memory, a map from absolute paths to nodes.
-- The state is the map `FS` once `init` has run; paths and contents are lists of bytes.
pub mod Paths
pub mod Tree
pub mod Listing
pub mod Contents
use pickle_os.Base.{
  ℕ, suc, zero, Bool, true, false, not, ◌&&◌, ◌||◌, Option, none, some, List, [], ◌∷◌, ◌++◌, ◌==◌,
  if◌then◌else◌, length, take,
}
use pickle_os.Base.Bytes.{bytes, strip_prefix, starts_with, has_byte, rfind, trim_end}
use pickle_os.Base.Maps
use pickle_os.Base.Maps.{Map, bytes_key, contains_key, same_bytes, before_bytes}

abbrev pub Bytes : Type 0
Bytes = List ℕ

pub data Node : Type 0 where
  file : Bytes → Node
  dir : Node

pub data FsError : Type 0 where
  not_found already_exists not_a_directory is_a_directory invalid_path : FsError

pub data Result (A : Type 0) : Type 0 where
  ok : A → Result A
  err : FsError → Result A

pub record StatInfo : Type 0 where
  pub size : ℕ
  pub is_dir : Bool

abbrev pub Fs : Type 0
Fs = Map Bytes Node

abbrev pub slash : ℕ
slash = 47

abbrev pub root : Bytes
root = slash ∷ []

unfoldable pub normalize : Bytes → Result Bytes
normalize path =
    if not (starts_with root path)
    then err invalid_path
    else if same_bytes path root
    then ok root
    else ok (trim_end slash path)

unfoldable pub parent_of : Bytes → Bytes
parent_of path = elim (rfind slash path) [
  | none ↦ root
  | some i ↦ elim i [ zero ↦ root | suc j ↦ take (suc j) path ]
]

abbrev pub welcome_text : Bytes
welcome_text = bytes "Welcome to PICKLE OS Phase 2!\nFiles are served over IPC by the VFS server.\n"

abbrev pub motd_text : Bytes
motd_text = bytes "PICKLE OS :: capability-secured microkernel\n"

unfoldable pub init : Fs
init =
    let m = Maps.insert (bytes "/") dir [] in
    let m' = Maps.insert (bytes "/etc") dir m in
    let m'' = Maps.insert (bytes "/welcome.txt") (file welcome_text) m' in
    Maps.insert (bytes "/etc/motd") (file motd_text) m''

-- Put in a new node, for `create`, `mkdir` and `write` of a new file: its parent must be a directory.
unfoldable pub put_new : Bytes → Node → Fs → Fs × Result Unit
put_new path node fs = elim (Maps.lookup (parent_of path) fs) [
  | none ↦ (fs, err not_found)
  | some parent ↦ elim parent [
    | file content ↦ (fs, err not_a_directory)
    | dir ↦ (Maps.insert path node fs, ok tt)
  ]
]

abbrev pub create_node : Node → Bytes → Fs → Fs × Result Unit
create_node node path fs =
    if contains_key path fs then (fs, err already_exists) else put_new path node fs

unfoldable pub create : Bytes → Fs → Fs × Result Unit
create path fs = elim (normalize path) [ err e ↦ (fs, err e) | ok p ↦ create_node (file []) p fs ]

unfoldable pub mkdir : Bytes → Fs → Fs × Result Unit
mkdir path fs = elim (normalize path) [ err e ↦ (fs, err e) | ok p ↦ create_node dir p fs ]

-- The result of a write is the number of bytes.
abbrev pub written : ℕ → Fs × Result Unit → Fs × Result ℕ
written n (fs, ok x) = (fs, ok n)
written n (fs, err e) = (fs, err e)

abbrev pub write_at : Bytes → Bytes → Fs → Fs × Result ℕ
write_at path content fs = elim (Maps.lookup path fs) [
  | none ↦ written (length content) (put_new path (file content) fs)
  | some node ↦ elim node [
    | dir ↦ (fs, err is_a_directory)
    | file old ↦ (Maps.insert path (file content) fs, ok (length content))
  ]
]

unfoldable pub write : Bytes → Bytes → Fs → Fs × Result ℕ
write path content fs = elim (normalize path) [ err e ↦ (fs, err e) | ok p ↦ write_at p content fs ]

abbrev pub read_at : Bytes → Fs → Result Bytes
read_at path fs = elim (Maps.lookup path fs) [
  | none ↦ err not_found
  | some node ↦ elim node [ file content ↦ ok content | dir ↦ err is_a_directory ]
]

unfoldable pub read : Bytes → Fs → Result Bytes
read path fs = elim (normalize path) [ err e ↦ err e | ok p ↦ read_at p fs ]

-- `format!("{}/", path)`, and the root's own path.
abbrev pub child_prefix : Bytes → Bytes
child_prefix path = if same_bytes path root then root else path ++ slash ∷ []

-- The leaf name of a key that is an immediate child.
abbrev pub leaf : Bytes → Bytes → Option Bytes
leaf path key = if same_bytes key path then none else elim (strip_prefix (child_prefix path) key) [
  | none ↦ none
  | some name ↦ if not (same_bytes name []) && not (has_byte slash name) then some name else none
]

unfoldable pub children : Bytes → Fs → List Bytes
children path [] = []
children path ((key, node) ∷ fs) =
    let later = children path fs in elim (leaf path key) [ none ↦ later | some name ↦ name ∷ later ]

-- `sort`: by insertion, in the order of the bytes.
unfoldable pub insert_sorted : Bytes → List Bytes → List Bytes
insert_sorted x [] = x ∷ []
insert_sorted x (y ∷ ys) =
    let later = insert_sorted x ys in if before_bytes y x then y ∷ later else x ∷ y ∷ ys

unfoldable pub sort : List Bytes → List Bytes
unfolding insert_sorted
sort [] = []
sort (x ∷ xs) = insert_sorted x (sort xs)

abbrev pub readdir_at : Bytes → Fs → Result (List Bytes)
readdir_at path fs = elim (Maps.lookup path fs) [
  | none ↦ err not_found
  | some node ↦ elim node [
    | file content ↦ err not_a_directory
    | dir ↦ ok (sort (children path fs))
  ]
]

unfoldable pub readdir : Bytes → Fs → Result (List Bytes)
readdir path fs = elim (normalize path) [ err e ↦ err e | ok p ↦ readdir_at p fs ]

abbrev pub stat_at : Bytes → Fs → Result StatInfo
stat_at path fs = elim (Maps.lookup path fs) [
  | none ↦ err not_found
  | some node ↦ elim node [
    | file content ↦ ok (record { size = length content; is_dir = false })
    | dir ↦ ok (record { size = 0; is_dir = true })
  ]
]

unfoldable pub stat : Bytes → Fs → Result StatInfo
stat path fs = elim (normalize path) [ err e ↦ err e | ok p ↦ stat_at p fs ]

-- `fs.keys().any(|k| k.starts_with(&prefix))`
unfoldable pub any_below : Bytes → Fs → Bool
any_below prefix [] = false
any_below prefix ((key, node) ∷ fs) = starts_with prefix key || any_below prefix fs

-- A directory that has something below it stays.
abbrev pub remove_at : Bytes → Fs → Fs × Result Unit
remove_at path fs =
    if same_bytes path root then (fs, err invalid_path) else elim (Maps.lookup path fs) [
      | none ↦ (fs, err not_found)
      | some node ↦ elim node [
        | file content ↦ (Maps.remove path fs, ok tt)
        | dir ↦
            if any_below (path ++ slash ∷ []) fs
            then (fs, err not_a_directory)
            else (Maps.remove path fs, ok tt)
      ]
    ]

unfoldable pub remove : Bytes → Fs → Fs × Result Unit
remove path fs = elim (normalize path) [ err e ↦ (fs, err e) | ok p ↦ remove_at p fs ]
