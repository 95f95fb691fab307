-- ===== src/Services/Vfs/Wrappers.antt =====
-- The client's wrappers against the file system behind the server (kernel/src/services/vfs.rs).
use pickle_os.Base.{ℕ, ◌≡◌, refl, Option, some, List}
use pickle_os.Services.MemFs
use pickle_os.Services.MemFs.{Bytes, Fs, Result}
use pickle_os.Services.Vfs.{
  VfsRequest, VfsResponse, create, mkdir, write, read, readdir, stat, remove, handle, got_content,
  got_written, got_entries, got_stat, got_unit, respond, ok, content, entries, stat_info, written,
}

unit_back : (r : Result Unit) → got_unit (some (respond (λ _. ok) r)) ≡ r
unfolding got_unit
unit_back (MemFs.ok tt) = refl
unit_back (MemFs.err e) = refl

content_back : (r : Result Bytes) → got_content (some (respond content r)) ≡ r
unfolding got_content
content_back (MemFs.ok d) = refl
content_back (MemFs.err e) = refl

written_back : (r : Result ℕ) → got_written (some (respond written r)) ≡ r
unfolding got_written
written_back (MemFs.ok n) = refl
written_back (MemFs.err e) = refl

entries_back : (r : Result (List Bytes)) → got_entries (some (respond entries r)) ≡ r
unfolding got_entries
entries_back (MemFs.ok l) = refl
entries_back (MemFs.err e) = refl

stat_back :
    (r : Result MemFs.StatInfo)
    → got_stat (some (respond (λ info. stat_info info.size info.is_dir) r)) ≡ r
unfolding got_stat
stat_back (MemFs.ok info) = refl
stat_back (MemFs.err e) = refl

abbrev pub answer : VfsRequest → Fs → Option VfsResponse
answer request fs = some (handle request fs).1

-- Asking the server and unpacking its response gives what the file system's own operation returns,
-- its error included, for each of the seven requests.
handle-wrappers :
    (path bytes : Bytes) (fs : Fs)
    → (got_unit (answer (create path) fs) ≡ (MemFs.create path fs).1)
      × (got_unit (answer (mkdir path) fs) ≡ (MemFs.mkdir path fs).1)
      × (got_unit (answer (remove path) fs) ≡ (MemFs.remove path fs).1)
      × (got_written (answer (write path bytes) fs) ≡ (MemFs.write path bytes fs).1)
      × (got_content (answer (read path) fs) ≡ MemFs.read path fs)
      × (got_entries (answer (readdir path) fs) ≡ MemFs.readdir path fs)
      × (got_stat (answer (stat path) fs) ≡ MemFs.stat path fs)
unfolding handle
handle-wrappers path bytes fs = (
  unit_back (MemFs.create path fs).1,
  unit_back (MemFs.mkdir path fs).1,
  unit_back (MemFs.remove path fs).1,
  written_back (MemFs.write path bytes fs).1,
  content_back (MemFs.read path fs),
  entries_back (MemFs.readdir path fs),
  stat_back (MemFs.stat path fs),
)
