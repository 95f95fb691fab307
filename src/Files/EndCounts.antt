-- ===== src/Files/EndCounts.antt =====
-- The end counts of pipes against the open descriptors (kernel/src/fs/vfs.rs).
use pickle_os.Base.{
  ℕ, ◌+◌, ◌-◌, Bool, true, false, ◌&&◌, not, ◌≡◌, refl, sym, ◌∙◌, subst, some, List, [], ◌∷◌, arith,
  ◌==◌, ==_iff, if◌then◌else◌, Option-cases, Bool-cases, inl, inr,
}
use pickle_os.Base.Maps
use pickle_os.Base.Maps.{
  Map, nat_key, contains_key, lookup-insert, lookup-remove, lookup-remove_self, Distinct,
  Distinct-insert, Distinct-remove, values,
}
use pickle_os.Base.Maps.Totals.{total, total_list}
use pickle_os.Files.{
  Files, FdTable, OpenFile, FileType, regular, console, keyboard, pipe, socket, Pipe, PipeTable,
  pipe_dup_end, pipe_close_end, drop_end, release, release_all, dup_file, OpenFlags, dup_all,
}

abbrev pub same_end : Bool → Bool → Bool
same_end true w = w
same_end false w = not w

-- One descriptor is this end of this pipe, or not.
abbrev pub is_end : ℕ → Bool → OpenFile → ℕ
is_end id w f = elim f.file_type [
  | pipe i v ↦ if i == id && same_end v w then 1 else 0
  | regular inode ↦ 0
  | console ↦ 0
  | keyboard ↦ 0
  | socket i ↦ 0
]

-- The open descriptors of an end, in one table and in all.
abbrev pub in_table : ℕ → Bool → FdTable → ℕ
in_table id w t = total (is_end id w) t.files

abbrev pub open_ends : ℕ → Bool → Files → ℕ
open_ends id w s = total (in_table id w) s.tables

abbrev pub ends_of : Bool → Pipe → ℕ
ends_of w p = if w then p.write_ends else p.read_ends

ends_of-drop_end :
    (v w : Bool) (p : Pipe)
    → ends_of w (drop_end v p) ≡ ends_of w p - (if same_end v w then 1 else 0)
ends_of-drop_end true true p = ground arith
ends_of-drop_end true false p = ground arith
ends_of-drop_end false true p = ground arith
ends_of-drop_end false false p = ground arith

abbrev add_end : Bool → Pipe → Pipe
add_end v p =
    if v
    then record p { write_ends = p.write_ends + 1 }
    else record p { read_ends = p.read_ends + 1 }

ends_of-add_end :
    (v w : Bool) (p : Pipe)
    → ends_of w (add_end v p) ≡ ends_of w p + (if same_end v w then 1 else 0)
ends_of-add_end true true p = refl
ends_of-add_end true false p = ground arith
ends_of-add_end false true p = ground arith
ends_of-add_end false false p = refl

close_elsewhere :
    (i id : ℕ) (v : Bool) (pipes : PipeTable)
    → (i == id) ≡ false
    → Maps.lookup id (pipe_close_end i v pipes) ≡ Maps.lookup id pipes
unfolding pipe_close_end
close_elsewhere i id v pipes other = elim (Option-cases (Maps.lookup i pipes)) [
  | inl e ↦ rw (e, pipe_close_end) refl
  | inr (q, e) ↦
      rw (e, pipe_close_end)
        (ground (arith, lookup-insert i id (drop_end v q) pipes, lookup-remove i id pipes))
]

close_here :
    (id : ℕ) (v : Bool) (pipes : PipeTable) (p' : Pipe)
    → Maps.lookup id (pipe_close_end id v pipes) ≡ some p'
    → (p : Pipe) × (Maps.lookup id pipes ≡ some p) × (p' ≡ drop_end v p)
unfolding pipe_close_end
close_here id v pipes p' h = elim (Option-cases (Maps.lookup id pipes)) [
  | inl e ↦ absurd (ground arith)
  | inr (q, e) ↦
      (q, e, ground (arith, lookup-insert id id (drop_end v q) pipes, lookup-remove id id pipes))
]

close_end_lem :
    (i id : ℕ) (v : Bool) (pipes : PipeTable) (p' : Pipe)
    → Maps.lookup id (pipe_close_end i v pipes) ≡ some p'
    → (p : Pipe) × (Maps.lookup id pipes ≡ some p)
      × ((w : Bool) → ends_of w p' ≡ ends_of w p - (if i == id && same_end v w then 1 else 0))
close_end_lem i id v pipes p' h = elim (Bool-cases (i == id)) [
  | inr other ↦ (p', sym (close_elsewhere i id v pipes other) ∙ h, λ w. rw other (omega arith))
  | inl same ↦
      (let at : i ≡ id = (==_iff i id).0 same in
        let h' = subst (λ j. Maps.lookup id (pipe_close_end j v pipes) ≡ some p') at h in
        let (p, e, d) = close_here id v pipes p' h' in
        (p, e, λ w. rw (same, d) (ends_of-drop_end v w p)))
]

dup_elsewhere :
    (i id : ℕ) (v : Bool) (pipes : PipeTable)
    → (i == id) ≡ false
    → Maps.lookup id (pipe_dup_end i v pipes) ≡ Maps.lookup id pipes
unfolding pipe_dup_end
dup_elsewhere i id v pipes other = elim (Option-cases (Maps.lookup i pipes)) [
  | inl e ↦ rw (e, pipe_dup_end) refl
  | inr (q, e) ↦ rw (e, pipe_dup_end) (lookup-insert i id (add_end v q) pipes ∙ rw other refl)
]

dup_here :
    (id : ℕ) (v : Bool) (pipes : PipeTable) (p' : Pipe)
    → Maps.lookup id (pipe_dup_end id v pipes) ≡ some p'
    → (p : Pipe) × (Maps.lookup id pipes ≡ some p) × (p' ≡ add_end v p)
unfolding pipe_dup_end
dup_here id v pipes p' h = elim (Option-cases (Maps.lookup id pipes)) [
  | inl e ↦ absurd (ground arith)
  | inr (q, e) ↦ (q, e, ground (arith, lookup-insert id id (add_end v q) pipes))
]

dup_end_lem :
    (i id : ℕ) (v : Bool) (pipes : PipeTable) (p' : Pipe)
    → Maps.lookup id (pipe_dup_end i v pipes) ≡ some p'
    → (p : Pipe) × (Maps.lookup id pipes ≡ some p)
      × ((w : Bool) → ends_of w p' ≡ ends_of w p + (if i == id && same_end v w then 1 else 0))
dup_end_lem i id v pipes p' h = elim (Bool-cases (i == id)) [
  | inr other ↦ (p', sym (dup_elsewhere i id v pipes other) ∙ h, λ w. rw other (omega arith))
  | inl same ↦
      (let at : i ≡ id = (==_iff i id).0 same in
        let h' = subst (λ j. Maps.lookup id (pipe_dup_end j v pipes) ≡ some p') at h in
        let (p, e, d) = dup_here id v pipes p' h' in
        (p, e, λ w. rw (same, d) (ends_of-add_end v w p)))
]

pub release_lem :
    (f : OpenFile) (s : Files) (id : ℕ) (p' : Pipe)
    → Maps.lookup id (release f.file_type s).pipes ≡ some p'
    → (p : Pipe) × (Maps.lookup id s.pipes ≡ some p)
      × ((w : Bool) → ends_of w p' ≡ ends_of w p - is_end id w f)
unfolding release
release_lem f s id p' h = by_type f.file_type s id p' h
  where
    by_type :
        (ty : FileType) (s : Files) (id : ℕ) (p' : Pipe)
        → Maps.lookup id (release ty s).pipes ≡ some p'
        → (p : Pipe) × (Maps.lookup id s.pipes ≡ some p)
          × ((w : Bool)
              → ends_of w p'
                ≡ ends_of w p
                  - is_end id w (record { file_type = ty; flags = f.flags; pos = f.pos }))
    by_type (pipe i v) s id p' h = close_end_lem i id v s.pipes p' h
    by_type (regular inode) s id p' h = (p', h, λ w. omega arith)
    by_type console s id p' h = (p', h, λ w. omega arith)
    by_type keyboard s id p' h = (p', h, λ w. omega arith)
    by_type (socket i) s id p' h = (p', h, λ w. omega arith)

pub release_all_lem :
    (fs : List OpenFile) (s : Files) (id : ℕ) (p' : Pipe)
    → Maps.lookup id (release_all fs s).pipes ≡ some p'
    → (p : Pipe) × (Maps.lookup id s.pipes ≡ some p)
      × ((w : Bool) → ends_of w p' ≡ ends_of w p - total_list (is_end id w) fs)
unfolding release_all
release_all_lem [] s id p' h = (p', h, λ w. omega arith)
release_all_lem (f ∷ fs) s id p' h =
    let (q, e, n) = release_all_lem fs (release f.file_type s) id p' h in
    let (p, e', n') = release_lem f s id q e in (p, e', λ w. omega (arith, n w, n' w))

dup_file_lem :
    (ty : FileType) (flags : OpenFlags) (pos : ℕ) (pipes : PipeTable) (id : ℕ) (p' : Pipe)
    → Maps.lookup id (dup_file ty pipes) ≡ some p'
    → (p : Pipe) × (Maps.lookup id pipes ≡ some p)
      × ((w : Bool)
          → ends_of w p'
            ≡ ends_of w p + is_end id w (record { file_type = ty; flags = flags; pos = pos }))
unfolding dup_file
dup_file_lem (pipe i v) flags pos pipes id p' h = dup_end_lem i id v pipes p' h
dup_file_lem (regular inode) flags pos pipes id p' h = (p', h, λ w. omega arith)
dup_file_lem console flags pos pipes id p' h = (p', h, λ w. omega arith)
dup_file_lem keyboard flags pos pipes id p' h = (p', h, λ w. omega arith)
dup_file_lem (socket i) flags pos pipes id p' h = (p', h, λ w. omega arith)

pub dup_all_lem :
    (fs : List OpenFile) (pipes : PipeTable) (id : ℕ) (p' : Pipe)
    → Maps.lookup id (dup_all fs pipes) ≡ some p'
    → (p : Pipe) × (Maps.lookup id pipes ≡ some p)
      × ((w : Bool) → ends_of w p' ≡ ends_of w p + total_list (is_end id w) fs)
unfolding dup_all
dup_all_lem [] pipes id p' h = (p', h, λ w. omega arith)
dup_all_lem (f ∷ fs) pipes id p' h =
    let (q, e, n) = dup_all_lem fs (dup_file f.file_type pipes) id p' h in
    let (p, e', n') = dup_file_lem f.file_type f.flags f.pos pipes id q e in
    (p, e', λ w. omega (arith, n w, n' w))
