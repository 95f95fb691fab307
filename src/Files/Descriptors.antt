-- ===== src/Files/Descriptors.antt =====
-- Descriptor numbers (kernel/src/fs/vfs.rs).
use pickle_os.Base.{
  ℕ, suc, ◌+◌, ◌%◌, ◌^◌, ◌≤◌, ◌<◌, true, false, ◌≡◌, refl, ◌⊎◌, none, some, arith, ◌==◌, leb,
  if◌then◌else◌, length, Bool-cases, inl, inr,
}
use pickle_os.Base.Maps
use pickle_os.Base.Maps.{
  nat_key, contains_key, lookup-insert, lookup-remove, length-insert, length-remove,
}
use pickle_os.Files.{OpenFile, FdTable, max_fds_per_task, skip_used, alloc_fd, close_fd}

-- Every descriptor in use is below the next one, and at most 64 are in use.
pub record IsValid (t : FdTable) : Type 0 where
  pub below : (fd : ℕ) → contains_key fd t.files ≡ true → fd < t.next_fd
  pub few : length t.files ≤ max_fds_per_task

skip_none :
    (fuel fd : ℕ) (t : FdTable)
    → contains_key fd t.files ≡ false
    → skip_used (suc fuel) t.files fd ≡ some fd
unfolding skip_used
skip_none fuel fd t h = rw h refl

alloc_fd_next :
    (file : OpenFile) (t : FdTable)
    → IsValid t
    → length t.files < max_fds_per_task
    → alloc_fd file t ≡ (
      record { files = Maps.insert t.next_fd file t.files; next_fd = (t.next_fd + 1) % 2 ^ 32 },
      some t.next_fd,
    )
unfolding alloc_fd
alloc_fd_next file t v h =
    let room : leb max_fds_per_task (length t.files) ≡ false = ground arith in
    let free : contains_key t.next_fd t.files ≡ false = ground (arith, v.below t.next_fd) in
    rw (room, skip_none max_fds_per_task t.next_fd t free) refl

alloc_refused :
    (file : OpenFile) (t : FdTable)
    → leb max_fds_per_task (length t.files) ≡ true
    → alloc_fd file t ≡ (t, none)
unfolding alloc_fd
alloc_refused file t full = rw full refl

-- In a table with at most 64 descriptors, all below its next number, one is refused exactly when 64 are in use, which changes nothing. Otherwise the file
-- gets a number that was not in use, above all that are in use, and no other descriptor changes.
pub alloc_fd_lem :
    (file : OpenFile) (t : FdTable)
    → IsValid t
    → ((length t.files ≡ max_fds_per_task) × (alloc_fd file t ≡ (t, none)))
      ⊎ ((length t.files < max_fds_per_task)
          × ((alloc_fd file t).1 ≡ some t.next_fd)
          × (contains_key t.next_fd t.files ≡ false)
          × ((fd : ℕ)
              → Maps.lookup fd (alloc_fd file t).0.files
                ≡ (if t.next_fd == fd then some file else Maps.lookup fd t.files)))
alloc_fd_lem file t v = elim (Bool-cases (leb max_fds_per_task (length t.files))) [
  | inl full ↦ inl (ground (arith, v.few), alloc_refused file t full)
  | inr room ↦
      (let e = alloc_fd_next file t v (ground arith) in
        inr (
          ground arith,
          rw e refl,
          ground (arith, v.below t.next_fd),
          λ fd. rw e (lookup-insert t.next_fd fd file t.files),
        ))
]

-- The table stays valid until the counter is about to wrap.
pub alloc_fd-IsValid :
    (file : OpenFile) (t : FdTable)
    → t.next_fd + 1 < 2 ^ 32
    → IsValid t
    → IsValid (alloc_fd file t).0
unfolding alloc_fd
alloc_fd-IsValid file t word v = elim (Bool-cases (leb max_fds_per_task (length t.files))) [
  | inl full ↦ rw full v
  | inr room ↦ rw (alloc_fd_next file t v (ground arith)) (record {
    below = λ fd h.
        let same : (t.next_fd + 1) % 2 ^ 32 ≡ t.next_fd + 1 = omega (arith, word) in
        rw same (ground (arith, v.below fd, lookup-insert t.next_fd fd file t.files));
    few = ground (arith, length-insert t.next_fd file t.files);
  })
]

pub close_fd-IsValid : (fd : ℕ) (t : FdTable) → IsValid t → IsValid (close_fd fd t).0
unfolding close_fd
close_fd-IsValid fd t v = elim (Bool-cases (contains_key fd t.files)) [
  | inr absent ↦ rw absent v
  | inl present ↦ rw present (record {
    below = λ j h. v.below j (ground (arith, lookup-remove fd j t.files));
    few = omega (arith, v.few, length-remove fd t.files);
  })
]
