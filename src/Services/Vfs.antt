-- ===== src/Services/Vfs.antt =====
-- kernel/src/services/vfs.rs: the dispatch of the file server's requests, and what the client's
-- wrappers make of the response. The boxes and their addresses in the message words are left out.
pub mod Wrappers
use pickle_os.Base.{ℕ, Bool, Option, some, List}
use pickle_os.Services.MemFs
use pickle_os.Services.MemFs.{Bytes, Fs, FsError, Result, StatInfo, invalid_path}

pub data VfsRequest : Type 0 where
  create : Bytes → VfsRequest
  mkdir : Bytes → VfsRequest
  write : Bytes → Bytes → VfsRequest
  read : Bytes → VfsRequest
  readdir : Bytes → VfsRequest
  stat : Bytes → VfsRequest
  remove : Bytes → VfsRequest

pub data VfsResponse : Type 0 where
  ok : VfsResponse
  content : Bytes → VfsResponse
  entries : List Bytes → VfsResponse
  stat_info : ℕ → Bool → VfsResponse
  written : ℕ → VfsResponse
  error : FsError → VfsResponse

abbrev pub respond : {A : Type 0} → (A → VfsResponse) → Result A → VfsResponse
respond f (MemFs.ok x) = f x
respond f (MemFs.err e) = error e

unfoldable pub handle : VfsRequest → Fs → Fs × VfsResponse
handle (create path) fs = let (fs', r) = MemFs.create path fs in (fs', respond (λ _. ok) r)
handle (mkdir path) fs = let (fs', r) = MemFs.mkdir path fs in (fs', respond (λ _. ok) r)
handle (write path bytes) fs = let (fs', r) = MemFs.write path bytes fs in (fs', respond written r)
handle (read path) fs = (fs, respond content (MemFs.read path fs))
handle (readdir path) fs = (fs, respond entries (MemFs.readdir path fs))
handle (stat path) fs = (fs, respond (λ info. stat_info info.size info.is_dir) (MemFs.stat path fs))
handle (remove path) fs = let (fs', r) = MemFs.remove path fs in (fs', respond (λ _. ok) r)

-- The client's `read`, `write` and so on, given what `request` returned.
unfoldable pub got_content : Option VfsResponse → Result Bytes
got_content (some (content d)) = MemFs.ok d
got_content (some (error e)) = MemFs.err e
got_content _ = MemFs.err invalid_path

unfoldable pub got_written : Option VfsResponse → Result ℕ
got_written (some (written n)) = MemFs.ok n
got_written (some (error e)) = MemFs.err e
got_written _ = MemFs.err invalid_path

unfoldable pub got_entries : Option VfsResponse → Result (List Bytes)
got_entries (some (entries l)) = MemFs.ok l
got_entries (some (error e)) = MemFs.err e
got_entries _ = MemFs.err invalid_path

unfoldable pub got_stat : Option VfsResponse → Result StatInfo
got_stat (some (stat_info size is_dir)) = MemFs.ok (record { size = size; is_dir = is_dir })
got_stat (some (error e)) = MemFs.err e
got_stat _ = MemFs.err invalid_path

-- `create`, `mkdir` and `remove`
unfoldable pub got_unit : Option VfsResponse → Result Unit
got_unit (some ok) = MemFs.ok tt
got_unit (some (error e)) = MemFs.err e
got_unit _ = MemFs.err invalid_path
