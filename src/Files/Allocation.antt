-- ===== src/Files/Allocation.antt =====
-- What an allocation of a descriptor does to a table (kernel/src/fs/vfs.rs).
use pickle_os.Base.{
  ℕ, suc, zero, ◌+◌, ◌%◌, ◌^◌, Bool, true, false, ◌≡◌, refl, ap, subst, ◌⊎◌, Option, none, some,
  arith, ◌==◌, if◌then◌else◌, is_some, Option-cases, Bool-cases, inl, inr, length, leb,
}
use pickle_os.Base.Maps
use pickle_os.Base.Maps.{
  Map, nat_key, beq_self, contains_key, lookup-insert, lookup-insert_self, Distinct,
  Distinct-insert,
}
use pickle_os.Base.Maps.Totals.{share, total-insert}
use pickle_os.Files.EndCounts.{same_end, is_end, in_table}
use pickle_os.Files.Lifecycle.{}
use pickle_os.Files.{FdTable, OpenFile, skip_used, alloc_fd, pipe_file, max_fds_per_task}

skip_used-free :
    (fuel : ℕ) (files : Map ℕ OpenFile) (fd r : ℕ)
    → skip_used fuel files fd ≡ some r
    → Maps.lookup r files ≡ none
unfolding skip_used
skip_used-free zero files fd r h = absurd (ground arith)
skip_used-free (suc fuel) files fd r h = elim (Option-cases (Maps.lookup fd files)) [
  | inl e ↦ (let at : fd ≡ r = ground arith in subst (λ i. Maps.lookup i files ≡ none) at e)
  | inr (f, e) ↦
      skip_used-free fuel files
        (if leb max_fds_per_task ((fd + 1) % 2 ^ 32) then 3 else (fd + 1) % 2 ^ 32) r (ground arith)
]

-- What an allocation does to the table, whichever number it finds.
Allocated : OpenFile → FdTable → FdTable × Option ℕ → Type 0
Allocated file t r =
    ((r.1 ≡ none) × (r.0 ≡ t))
    ⊎ ((fd : ℕ) × (r.1 ≡ some fd)
        × (Maps.lookup fd t.files ≡ none)
        × (r.0.files ≡ Maps.insert fd file t.files))

alloc_fd-Allocated : (file : OpenFile) (t : FdTable) → Allocated file t (alloc_fd file t)
unfolding alloc_fd Allocated
alloc_fd-Allocated file t = elim (Bool-cases (leb max_fds_per_task (length t.files))) [
  | inl full ↦ rw (full, alloc_fd) (inl (refl, refl))
  | inr room ↦ elim (Option-cases (skip_used (max_fds_per_task + 1) t.files t.next_fd)) [
    | inl e ↦ rw (room, e, alloc_fd) (inl (refl, refl))
    | inr (fd, e) ↦
        rw (room, e, alloc_fd)
          (inr (fd, refl, skip_used-free (max_fds_per_task + 1) t.files t.next_fd fd e, refl))
  ]
]

pub alloc_fd-ends :
    (file : OpenFile) (t : FdTable) (id : ℕ) (w : Bool)
    → in_table id w (alloc_fd file t).0
      ≡ in_table id w t + (if is_some (alloc_fd file t).1 then is_end id w file else 0)
unfolding Allocated
alloc_fd-ends file t id w = elim (alloc_fd-Allocated file t) [
  | inl (n, e) ↦ rw (n, e) (omega arith)
  | inr (fd, n, free, e) ↦
      rw (n, e)
        (omega (arith, total-insert (is_end id w) fd file t.files, ap (share (is_end id w)) free))
]

pub alloc_fd-Distinct :
    (file : OpenFile) (t : FdTable) → Distinct t.files → Distinct (alloc_fd file t).0.files
unfolding Allocated
alloc_fd-Distinct file t d = elim (alloc_fd-Allocated file t) [
  | inl (n, e) ↦ rw e d
  | inr (fd, n, free, e) ↦ rw e (Distinct-insert fd file t.files d)
]

pub other_pipe : (id n : ℕ) (v w : Bool) → (n == id) ≡ false → is_end id w (pipe_file n v) ≡ 0
other_pipe id n v w h = rw h refl

pub this_pipe : (n : ℕ) (v w : Bool) → is_end n w (pipe_file n v) ≡ (if same_end v w then 1 else 0)
this_pipe n v w = rw (beq_self n) refl

-- One end of each kind is one of either kind.
pub both_ends :
    (w : Bool) → (if same_end false w then 1 else 0) + (if same_end true w then 1 else 0) ≡ 1
both_ends true = refl
both_ends false = refl
