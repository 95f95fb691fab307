-- ===== src/Files/Histories.antt =====
-- The end counts of pipes over whole histories (kernel/src/fs/vfs.rs).
use pickle_os.Base.{ℕ, true, false, ◌≡◌, none, some, [], arith}
use pickle_os.Base.Maps
use pickle_os.Base.Maps.{Map, nat_key, contains_key}
use pickle_os.Files.EndCounts.{open_ends}
use pickle_os.Files.Accounting.{Counted}
use pickle_os.Files.Lifecycle.{
  close-Counted, init_task_fds-Counted, clone_task_fds-Counted, cleanup_task_fds-Counted,
}
use pickle_os.Files.Making.{make_pipe-Counted}
use pickle_os.Files.{Files, Pipe, close, cleanup_task_fds, clone_task_fds, init_task_fds, make_pipe}

-- The statics at the start.
unfoldable pub boot : Files
boot = record { tables = []; pipes = []; next_pipe = 1; creds = []; destroyed = [] }

-- The states that the calls reach. A new task has no table yet when it begins or is forked.
pub data Reach : Files → Type 0 where
  starts : Reach boot
  begins :
      {s : Files}
      → Reach s
      → (task : ℕ) → Maps.lookup task s.tables ≡ none
      → Reach (init_task_fds task s)
  forks :
      {s : Files}
      → Reach s
      → (parent child : ℕ) → Maps.lookup child s.tables ≡ none
      → Reach (clone_task_fds parent child s)
  ends : {s : Files} → Reach s → (task : ℕ) → Reach (cleanup_task_fds task s)
  closes : {s : Files} → Reach s → (task fd : ℕ) → Reach (close task fd s).0
  pipes : {s : Files} → Reach s → (task : ℕ) → Reach (make_pipe task s).0

boot-Counted : Counted boot
unfolding boot Maps.lookup
boot-Counted = record {
  counted = λ id p h w. absurd (ground arith);
  pipes_below = λ id h. absurd (ground arith);
  ends_below = λ id w h. absurd (omega (arith, h));
  tables_distinct = tt;
  files_distinct = λ task t h. absurd (ground arith);
}

Reach-Counted : {s : Files} → Reach s → Counted s
Reach-Counted starts = boot-Counted
Reach-Counted (begins {s} r task e) = init_task_fds-Counted task s e (Reach-Counted r)
Reach-Counted (forks {s} r parent child e) =
    clone_task_fds-Counted parent child s e (Reach-Counted r)
Reach-Counted (ends {s} r task) = cleanup_task_fds-Counted task s (Reach-Counted r)
Reach-Counted (closes {s} r task fd) = close-Counted task fd s (Reach-Counted r)
Reach-Counted (pipes {s} r task) = make_pipe-Counted task s (Reach-Counted r)

-- In every state that tasks reach by beginning, forking, ending, closing descriptors and making
-- pipes, each pipe counts exactly the descriptors of all tasks that are its read end, and exactly
-- those that are its write end.
pub Reach-ends :
    {s : Files} (id : ℕ) (p : Pipe)
    → Reach s
    → Maps.lookup id s.pipes ≡ some p
    → (p.read_ends ≡ open_ends id false s) × (p.write_ends ≡ open_ends id true s)
Reach-ends {s} id p r h = let c = Reach-Counted r in (c.counted id p h false, c.counted id p h true)
