-- ===== src/Files/Accounting.antt =====
-- Every pipe counts exactly its open descriptors (kernel/src/fs/vfs.rs).
use pickle_os.Base.{
  ℕ, ◌+◌, ◌<◌, Bool, true, ◌≡◌, refl, sym, ap, ◌∙◌, subst, some, List, [], ◌∷◌, arith, ◌==◌,
  Option-cases, Bool-cases, inl, inr,
}
use pickle_os.Base.Maps
use pickle_os.Base.Maps.{
  Map, nat_key, contains_key, lookup-insert, lookup-remove, lookup-remove_self, Distinct,
  Distinct-insert, Distinct-remove, values,
}
use pickle_os.Base.Maps.Totals.{total, share, total-insert, total-remove}
use pickle_os.Files.EndCounts.{is_end, in_table, open_ends, ends_of, release_lem}
use pickle_os.Files.{
  Files, FdTable, OpenFile, FileType, regular, console, keyboard, pipe, socket, Pipe, release,
  release_all,
}

pub record Counted (s : Files) : Type 0 where
  pub counted :
      (id : ℕ) (p : Pipe)
      → Maps.lookup id s.pipes ≡ some p
      → (w : Bool) → ends_of w p ≡ open_ends id w s
  pub pipes_below : (id : ℕ) → contains_key id s.pipes ≡ true → id < s.next_pipe
  pub ends_below : (id : ℕ) (w : Bool) → 0 < open_ends id w s → id < s.next_pipe
  pub tables_distinct : Distinct s.tables
  pub files_distinct :
      (task : ℕ) (t : FdTable) → Maps.lookup task s.tables ≡ some t → Distinct t.files

-- What a change of descriptors must do to keep the counts.
pub record Tracks (s s' : Files) : Type 0 where
  pub same_next : s'.next_pipe ≡ s.next_pipe
  pub pipe_before :
      (id : ℕ) (p' : Pipe)
      → Maps.lookup id s'.pipes ≡ some p'
      → (p : Pipe) × (Maps.lookup id s.pipes ≡ some p)
        × ((w : Bool) → ends_of w p ≡ open_ends id w s → ends_of w p' ≡ open_ends id w s')
  pub none_new : (id : ℕ) (w : Bool) → 0 < open_ends id w s' → 0 < open_ends id w s
  pub distinct' : Distinct s'.tables
  pub files' : (task : ℕ) (t : FdTable) → Maps.lookup task s'.tables ≡ some t → Distinct t.files

pub Tracks-Counted : (s s' : Files) → Tracks s s' → Counted s → Counted s'
Tracks-Counted s s' k v = record {
  counted = λ id p' h w. let (p, e, n) = k.pipe_before id p' h in n w (v.counted id p e w);
  pipes_below = λ id h. elim (Option-cases (Maps.lookup id s'.pipes)) [
    | inl e ↦ absurd (ground arith)
    | inr (p', e) ↦
        (let (p, e', n) = k.pipe_before id p' e in
          let b = v.pipes_below id (ground arith) in omega (arith, b, k.same_next))
  ];
  ends_below =
      λ id w h. let b = v.ends_below id w (k.none_new id w h) in omega (arith, b, k.same_next);
  tables_distinct = k.distinct';
  files_distinct = k.files';
}

release-tables : (ty : FileType) (s : Files) → (release ty s).tables ≡ s.tables
unfolding release
release-tables (pipe i v) s = refl
release-tables (regular i) s = refl
release-tables console s = refl
release-tables keyboard s = refl
release-tables (socket i) s = refl

release-next_pipe : (ty : FileType) (s : Files) → (release ty s).next_pipe ≡ s.next_pipe
unfolding release
release-next_pipe (pipe i v) s = refl
release-next_pipe (regular i) s = refl
release-next_pipe console s = refl
release-next_pipe keyboard s = refl
release-next_pipe (socket i) s = refl

pub release_all-tables :
    (fs : List OpenFile) (s : Files)
    → ((release_all fs s).tables ≡ s.tables) × ((release_all fs s).next_pipe ≡ s.next_pipe)
unfolding release_all
release_all-tables [] s = (refl, refl)
release_all-tables (f ∷ fs) s =
    let (a, b) = release_all-tables fs (release f.file_type s) in
    (a ∙ release-tables f.file_type s, b ∙ release-next_pipe f.file_type s)

-- One table replaced by another: distinct files stay distinct.
pub files-insert :
    (task : ℕ) (t' : FdTable) (s : Files)
    → Counted s
    → Distinct t'.files
    → (other : ℕ) (t : FdTable) → Maps.lookup other (Maps.insert task t' s.tables) ≡ some t
    → Distinct t.files
files-insert task t' s v d other t h = elim (Bool-cases (task == other)) [
  | inl same ↦
      (let e : t' ≡ t = ground (arith, lookup-insert task other t' s.tables) in
        subst (λ (u : FdTable). Distinct u.files) e d)
  | inr differs ↦ v.files_distinct other t (ground (arith, lookup-insert task other t' s.tables))
]

pub close-Tracks :
    (task fd : ℕ) (s : Files) (t : FdTable) (f : OpenFile)
    → Counted s
    → Maps.lookup task s.tables ≡ some t
    → Maps.lookup fd t.files ≡ some f
    → let t' = record t { files = Maps.remove fd t.files } in
      Tracks s (release f.file_type (record s { tables = Maps.insert task t' s.tables }))
close-Tracks task fd s t f v e e' = record {
  same_next = release-next_pipe f.file_type s1;
  pipe_before = λ id p' h.
      let (p, at, n) = release_lem f s1 id p' h in
      (p, at, λ w c. omega (arith, n w, c, balance id w, after id w));
  none_new = λ id w h. omega (arith, balance id w, after id w);
  distinct' =
      subst Distinct (sym (release-tables f.file_type s1))
        (Distinct-insert task t' s.tables v.tables_distinct);
  files' = λ other u h.
      files-insert task t' s v (Distinct-remove fd t.files d) other u
        (subst (λ m. Maps.lookup other m ≡ some u) (release-tables f.file_type s1) h);
}
  where
    t' : FdTable
    t' = record t { files = Maps.remove fd t.files }

    s1 : Files
    s1 = record s { tables = Maps.insert task t' s.tables }

    d : Distinct t.files
    d = v.files_distinct task t e

    after : (id : ℕ) (w : Bool) → open_ends id w (release f.file_type s1) ≡ open_ends id w s1
    after id w = ap (total (in_table id w)) (release-tables f.file_type s1)

    balance : (id : ℕ) (w : Bool) → open_ends id w s1 + is_end id w f ≡ open_ends id w s
    balance id w = omega (
      arith,
      total-insert (in_table id w) task t' s.tables,
      total-remove (is_end id w) fd t.files d,
      ap (share (in_table id w)) e,
      ap (share (is_end id w)) e',
    )
