-- ===== src/Files/Tests.antt =====
-- The theorems on descriptors and pipes at concrete tables (kernel/src/fs/vfs.rs).
use pickle_os.Base.{
  ℕ, ◌<◌, true, false, ◌≡◌, refl, ◌⊎◌, none, some, List, [], ◌∷◌, ◌++◌, ◌==◌, arith, if◌then◌else◌,
  length,
}
use pickle_os.Base.Maps
use pickle_os.Base.Maps.{nat_key, contains_key}
use pickle_os.Files.Descriptors.{IsValid, alloc_fd_lem}
use pickle_os.Files.Pipes.{Op, reads, writes, dups, buffered, out_of, into, run, pipe_fifo}
use pickle_os.Files.EndCounts.{open_ends}
use pickle_os.Files.Histories.{boot, starts, begins, forks, pipes, Reach-ends}
use pickle_os.Files.{
  Files, make_pipe, init_task_fds, clone_task_fds, skip_used, dup_all, dup_file, pipe_dup_end,
  FdTable, PipeTable, pipe_file, keyboard_file, max_fds_per_task, alloc_fd,
}

abbrev table : FdTable
table = record { files = (0, keyboard_file) ∷ []; next_fd = 3 }

table-IsValid : IsValid table
unfolding Maps.lookup
table-IsValid = record { below = λ fd h. ground arith; few = omega arith }

alloc_fd_example :
    ((length table.files ≡ max_fds_per_task) × (alloc_fd (pipe_file 1 false) table ≡ (table, none)))
    ⊎ ((length table.files < max_fds_per_task)
        × ((alloc_fd (pipe_file 1 false) table).1 ≡ some 3)
        × (contains_key 3 table.files ≡ false)
        × ((fd : ℕ)
            → Maps.lookup fd (alloc_fd (pipe_file 1 false) table).0.files
              ≡ (if 3 == fd then some (pipe_file 1 false) else Maps.lookup fd table.files)))
alloc_fd_example = alloc_fd_lem (pipe_file 1 false) table table-IsValid

abbrev one_pipe : PipeTable
one_pipe = (1, record { buf = 7 ∷ []; read_ends = 1; write_ends = 1 }) ∷ []

abbrev ops : List Op
ops = writes 1 (8 ∷ 9 ∷ []) ∷ reads 1 2 ∷ dups 1 true ∷ reads 1 5 ∷ reads 1 5 ∷ []

pipe_fifo_example :
    out_of 1 one_pipe ops ++ buffered 1 (run one_pipe ops)
    ≡ buffered 1 one_pipe ++ into 1 one_pipe ops
pipe_fifo_example = pipe_fifo 1 one_pipe ops

-- Task 1 begins, makes a pipe and forks task 2.
abbrev forked : Files
forked = clone_task_fds 1 2 (make_pipe 1 (init_task_fds 1 boot)).0

Reach-ends_example :
    let two : ℕ = 2 in (two ≡ open_ends 1 false forked) × (two ≡ open_ends 1 true forked)
unfolding boot init_task_fds make_pipe clone_task_fds alloc_fd skip_used dup_all dup_file
    pipe_dup_end Maps.lookup Maps.insert Maps.values
Reach-ends_example =
    Reach-ends {s = forked} 1 (record { buf = []; read_ends = 2; write_ends = 2 })
      (forks (pipes (begins starts 1 refl) 1) 1 2 refl) refl
