-- ===== src/Files.antt =====
-- kernel/src/fs/vfs.rs, the part above the disk: file descriptors, pipes and credentials. The state
-- is the global maps; each call returns the new state and its result. A read or write that blocks
-- on a pipe is one function per round of its loop, so that other tasks' calls may come between.
pub mod Descriptors
pub mod Pipes
pub mod EndCounts
pub mod Accounting
pub mod Lifecycle
pub mod Allocation
pub mod Making
pub mod Histories
mod Tests
use pickle_os.Base.{
  ℕ, suc, zero, ◌+◌, ◌-◌, ◌%◌, ◌^◌, Bool, true, false, not, ◌&&◌, Option, none, some, List, [], ◌∷◌,
  ◌++◌, ◌==◌, leb, ltb, if◌then◌else◌, ◌>>=◌, length, take, drop, min,
}
use pickle_os.Base.Maps
use pickle_os.Base.Maps.{Map, nat_key, contains_key}

abbrev pub max_fds_per_task : ℕ
max_fds_per_task = 64

abbrev pub pipe_capacity : ℕ
pipe_capacity = 4096

pub record OpenFlags : Type 0 where
  pub read : Bool
  pub write : Bool
  pub create : Bool
  pub truncate : Bool
  pub append : Bool

abbrev pub rdonly : OpenFlags
rdonly = record { read = true; write = false; create = false; truncate = false; append = false }

abbrev pub wronly : OpenFlags
wronly = record { read = false; write = true; create = false; truncate = false; append = false }

abbrev pub rdwr : OpenFlags
rdwr = record { read = true; write = true; create = false; truncate = false; append = false }

pub data FileType : Type 0 where
  regular : ℕ → FileType
  console : FileType
  keyboard : FileType
  pipe : ℕ → Bool → FileType
  socket : ℕ → FileType

pub record OpenFile : Type 0 where
  pub file_type : FileType
  pub flags : OpenFlags
  pub pos : ℕ

abbrev pub console_file : Bool → OpenFile
console_file writable = record {
  file_type = console;
  flags = if writable then wronly else rdonly;
  pos = 0;
}

abbrev pub keyboard_file : OpenFile
keyboard_file = record { file_type = keyboard; flags = rdonly; pos = 0 }

abbrev pub pipe_file : ℕ → Bool → OpenFile
pipe_file id is_write = record {
  file_type = pipe id is_write;
  flags = if is_write then wronly else rdonly;
  pos = 0;
}

pub record Pipe : Type 0 where
  pub buf : List ℕ
  pub read_ends : ℕ
  pub write_ends : ℕ

abbrev pub PipeTable : Type 0
PipeTable = Map ℕ Pipe

unfoldable pub pipe_dup_end : ℕ → Bool → PipeTable → PipeTable
pipe_dup_end id is_write pipes = elim (Maps.lookup id pipes) [
  | none ↦ pipes
  | some p ↦
      Maps.insert id
        (if is_write
          then record p { write_ends = p.write_ends + 1 }
          else record p { read_ends = p.read_ends + 1 })
        pipes
]

-- `saturating_sub`, which the subtraction of natural numbers is.
abbrev pub drop_end : Bool → Pipe → Pipe
drop_end is_write p =
    if is_write
    then record p { write_ends = p.write_ends - 1 }
    else record p { read_ends = p.read_ends - 1 }

unfoldable pub pipe_close_end : ℕ → Bool → PipeTable → PipeTable
pipe_close_end id is_write pipes = elim (Maps.lookup id pipes) [
  | none ↦ pipes
  | some p ↦
      (let p' = drop_end is_write p in
        if p'.read_ends == 0 && p'.write_ends == 0
        then Maps.remove id pipes
        else Maps.insert id p' pipes)
]

pub record FdTable : Type 0 where
  pub files : Map ℕ OpenFile
  pub next_fd : ℕ

abbrev pub new_table : FdTable
new_table = record { files = []; next_fd = 3 }

-- The loop of `alloc_fd`: the first free number from `next_fd`, a word of 32 bits, on, going back to 3
-- at the limit.
unfoldable pub skip_used : ℕ → Map ℕ OpenFile → ℕ → Option ℕ
skip_used zero files fd = none
skip_used (suc fuel) files fd =
    let next = (fd + 1) % 2 ^ 32 in
    let rest = skip_used fuel files (if leb max_fds_per_task next then 3 else next) in
    if contains_key fd files then rest else some fd

-- `none` is `TooManyFiles`. The loop has fuel for one round more than a full table has entries.
unfoldable pub alloc_fd : OpenFile → FdTable → FdTable × Option ℕ
alloc_fd file t =
    if leb max_fds_per_task (length t.files)
    then (t, none)
    else elim (skip_used (max_fds_per_task + 1) t.files t.next_fd) [
      | none ↦ (t, none)
      | some fd ↦
          (record { files = Maps.insert fd file t.files; next_fd = (fd + 1) % 2 ^ 32 }, some fd)
    ]

unfoldable pub close_fd : ℕ → FdTable → FdTable × Bool
close_fd fd t =
    if contains_key fd t.files
    then (record t { files = Maps.remove fd t.files }, true)
    else (t, false)

pub record Credentials : Type 0 where
  pub uid : ℕ
  pub gid : ℕ

abbrev pub root : Credentials
root = record { uid = 0; gid = 0 }

-- `FD_TABLES`, `PIPES`, `NEXT_PIPE_ID` and `CREDENTIALS`, with the sockets given to `tcp_destroy`.
pub record Files : Type 0 where
  pub tables : Map ℕ FdTable
  pub pipes : PipeTable
  pub next_pipe : ℕ
  pub creds : Map ℕ Credentials
  pub destroyed : List ℕ

unfoldable pub credentials : ℕ → Files → Credentials
credentials task s = elim (Maps.lookup task s.creds) [ none ↦ root | some c ↦ c ]

unfoldable pub set_credentials : ℕ → ℕ → ℕ → Files → Files
set_credentials task uid gid s = record s {
  creds = Maps.insert task (record { uid = uid; gid = gid }) s.creds;
}

abbrev pub standard_table : FdTable
standard_table = record new_table {
  files =
      Maps.insert 2 (console_file true)
        (Maps.insert 1 (console_file true) (Maps.insert 0 keyboard_file []));
}

unfoldable pub init_task_fds : ℕ → Files → Files
init_task_fds task s = record s { tables = Maps.insert task standard_table s.tables }

-- What closing one file releases: a pipe's end, or a socket.
unfoldable pub release : FileType → Files → Files
release (pipe id is_write) s = record s { pipes = pipe_close_end id is_write s.pipes }
release (socket id) s = record s { destroyed = s.destroyed ++ id ∷ [] }
release (regular inode) s = s
release console s = s
release keyboard s = s

unfoldable pub release_all : List OpenFile → Files → Files
unfolding release
release_all [] s = s
release_all (f ∷ fs) s = release_all fs (release f.file_type s)

unfoldable pub cleanup_task_fds : ℕ → Files → Files
cleanup_task_fds task s =
    let removed = record s { tables = Maps.remove task s.tables } in
    let released : Files = elim (Maps.lookup task s.tables) [
      | none ↦ removed
      | some t ↦ release_all (Maps.values t.files) removed
    ] in
    record released { creds = Maps.remove task released.creds }

-- The child's copy of one file: only a pipe's end counts it.
unfoldable pub dup_file : FileType → PipeTable → PipeTable
dup_file (pipe id is_write) pipes = pipe_dup_end id is_write pipes
dup_file (regular inode) pipes = pipes
dup_file console pipes = pipes
dup_file keyboard pipes = pipes
dup_file (socket id) pipes = pipes

unfoldable pub dup_all : List OpenFile → PipeTable → PipeTable
unfolding dup_file
dup_all [] pipes = pipes
dup_all (f ∷ fs) pipes = dup_all fs (dup_file f.file_type pipes)

unfoldable pub clone_task_fds : ℕ → ℕ → Files → Files
clone_task_fds parent child s =
    let cloned : Files = elim (Maps.lookup parent s.tables) [
      | some t ↦ record s {
        pipes = dup_all (Maps.values t.files) s.pipes;
        tables = Maps.insert child t s.tables;
      }
      | none ↦ record s { tables = Maps.insert child standard_table s.tables }
    ] in
    record cloned { creds = Maps.insert child (credentials parent s) s.creds }

pub data CloseResult : Type 0 where
  closed invalid_operation bad_file_descriptor : CloseResult

unfoldable pub close : ℕ → ℕ → Files → Files × CloseResult
close task fd s = elim (Maps.lookup task s.tables) [
  | none ↦ (s, invalid_operation)
  | some t ↦ elim (Maps.lookup fd t.files) [
    | none ↦ (s, bad_file_descriptor)
    | some f ↦ (
      release f.file_type (record s {
        tables = Maps.insert task (record t { files = Maps.remove fd t.files }) s.tables;
      }),
      closed,
    )
  ]
]

-- `none` is an error: no table, or no descriptor left. The number of the pipe is used up, and if
-- the second descriptor fails the first stays.
unfoldable pub make_pipe : ℕ → Files → Files × Option (ℕ × ℕ)
make_pipe task s = elim (Maps.lookup task s.tables) [
  | none ↦ (s, none)
  | some t ↦
      (let (t', read_fd) = alloc_fd (pipe_file s.next_pipe false) t in
        let s' = record s { next_pipe = s.next_pipe + 1; tables = Maps.insert task t' s.tables } in
        elim read_fd [
          | none ↦ (s', none)
          | some r ↦
              (let (t'', write_fd) = alloc_fd (pipe_file s.next_pipe true) t' in
                let s'' = record s' { tables = Maps.insert task t'' s.tables } in
                elim write_fd [
                  | none ↦ (s'', none)
                  | some w ↦ (
                    record s'' {
                      pipes =
                          Maps.insert s.next_pipe
                            (record { buf = []; read_ends = 1; write_ends = 1 }) s.pipes;
                    },
                    some (r, w),
                  )
                ])
        ])
]

-- One round of `read` on a read end, for `n` bytes: what is delivered (nothing at the end of the
-- file), or `none` to yield and try again.
unfoldable pub read_round : ℕ → ℕ → PipeTable → PipeTable × Option (List ℕ)
read_round id n pipes = elim (Maps.lookup id pipes) [
  | none ↦ (pipes, some [])
  | some p ↦
      if not (length p.buf == 0)
      then (Maps.insert id (record p { buf = drop n p.buf }) pipes, some (take n p.buf))
      else if p.write_ends == 0
      then (pipes, some [])
      else (pipes, none)
]

pub data WriteRound : Type 0 where
  stops : WriteRound
  full : WriteRound
  wrote : ℕ → WriteRound

-- One round of `write` on a write end, for what is left to write.
unfoldable pub write_round : ℕ → List ℕ → PipeTable → PipeTable × WriteRound
write_round id left pipes = elim (Maps.lookup id pipes) [
  | none ↦ (pipes, stops)
  | some p ↦
      if p.read_ends == 0
      then (pipes, stops)
      else if pipe_capacity - length p.buf == 0
      then (pipes, full)
      else (
        Maps.insert id
            (record p {
              buf = p.buf ++ take (min (pipe_capacity - length p.buf) (length left)) left;
            })
            pipes,
        wrote (min (pipe_capacity - length p.buf) (length left)),
      )
]
