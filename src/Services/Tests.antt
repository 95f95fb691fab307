-- ===== src/Services/Tests.antt =====
-- The theorems on the services at concrete file systems and names (kernel/src/services).
use pickle_os.Base.{false, ◌&&◌, ◌≡◌, refl, ◌≢◌, List, [], ◌∷◌, ◌++◌, length}
use pickle_os.Base.Bytes.{bytes, starts_with, trim_end}
use pickle_os.Base.Maps
use pickle_os.Base.Maps.{bytes_key, same_bytes, contains_key}
use pickle_os.Services.MemFs.{
  Bytes, Fs, file, dir, ok, normalize, init, readdir, write, read, stat, child_prefix, root,
}
use pickle_os.Services.MemFs.Tree.{IsTree, handle_all, handle_all-IsTree}
use pickle_os.Services.MemFs.Listing.{listed, is_name, readdir_lem}
use pickle_os.Services.MemFs.Contents.{read-write}
use pickle_os.Services.Vfs
use pickle_os.Services.Vfs.{VfsRequest}
use pickle_os.Services.Registry.{Names}

abbrev requests : List VfsRequest
requests =
    Vfs.mkdir (bytes "/a")
    ∷ Vfs.write (bytes "/a/b") (bytes "hi")
    ∷ Vfs.remove (bytes "/a")
    ∷ Vfs.remove (bytes "/a/b/")
    ∷ []

handle_all-IsTree_example : IsTree (handle_all requests init)
handle_all-IsTree_example = handle_all-IsTree requests

-- A root with one file and one directory.
abbrev small : Fs
small = (root, dir) ∷ (bytes "/d", dir) ∷ (bytes "/f", file (bytes "x")) ∷ []

readdir_example :
    (names : List Bytes) × (readdir root small ≡ ok names)
    × ((name : Bytes)
        → listed name names ≡ (contains_key (child_prefix root ++ name) small && is_name name))
unfolding normalize Maps.lookup starts_with
readdir_example = readdir_lem root root small refl refl

read-write_example :
    (2 ≡ length (bytes "hi"))
    × (read (bytes "/f") ((root, dir) ∷ (bytes "/d", dir) ∷ (bytes "/f", file (bytes "hi")) ∷ [])
        ≡ ok (bytes "hi"))
    × (stat (bytes "/f") ((root, dir) ∷ (bytes "/d", dir) ∷ (bytes "/f", file (bytes "hi")) ∷ [])
        ≡ ok (record { size = 2; is_dir = false }))
    × ((other : Bytes)
        → normalize other ≢ normalize (bytes "/f")
        → read other ((root, dir) ∷ (bytes "/d", dir) ∷ (bytes "/f", file (bytes "hi")) ∷ [])
          ≡ read other small)
unfolding write normalize Maps.lookup Maps.insert starts_with trim_end
read-write_example =
    read-write (bytes "/f") (bytes "hi") small
      ((root, dir) ∷ (bytes "/d", dir) ∷ (bytes "/f", file (bytes "hi")) ∷ []) 2 refl

abbrev names : Names
names = (bytes "vfs", 1) ∷ []
