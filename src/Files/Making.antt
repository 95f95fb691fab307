-- ===== src/Files/Making.antt =====
-- The end counts when a pipe is made (kernel/src/fs/vfs.rs).
use pickle_os.Base.{
  ℕ, ◌+◌, Bool, true, false, ◌≡◌, refl, sym, ap, ◌∙◌, subst, ◌⊎◌, Option, some, [], arith, ◌==◌,
  ==_iff, Option-cases, Bool-cases, inl, inr,
}
use pickle_os.Base.Maps
use pickle_os.Base.Maps.{
  Map, nat_key, beq_self, contains_key, lookup-insert, lookup-insert_self, Distinct,
  Distinct-insert,
}
use pickle_os.Base.Maps.Totals.{total, share, total-insert}
use pickle_os.Files.EndCounts.{is_end, in_table, open_ends, ends_of}
use pickle_os.Files.Accounting.{Counted, files-insert}
use pickle_os.Files.Lifecycle.{}
use pickle_os.Files.{Files, FdTable, OpenFile, Pipe, PipeTable, alloc_fd, make_pipe, pipe_file}
use pickle_os.Files.Allocation.{alloc_fd-ends, alloc_fd-Distinct, other_pipe, this_pipe, both_ends}

-- A change of tables that concerns the next pipe alone, which uses up its number.
next-Counted :
    (s : Files) (tables : Map ℕ FdTable) (pipes : PipeTable)
    → ((id : ℕ) (w : Bool)
        → (s.next_pipe == id) ≡ false
        → total (in_table id w) tables ≡ open_ends id w s)
    → ((id : ℕ) (p : Pipe)
        → Maps.lookup id pipes ≡ some p
        → (((s.next_pipe == id) ≡ false) × (Maps.lookup id s.pipes ≡ some p))
          ⊎ ((s.next_pipe ≡ id) × ((w : Bool) → ends_of w p ≡ total (in_table id w) tables)))
    → Distinct tables
    → ((task : ℕ) (t : FdTable) → Maps.lookup task tables ≡ some t → Distinct t.files)
    → Counted s
    → Counted (record s { tables = tables; pipes = pipes; next_pipe = s.next_pipe + 1 })
next-Counted s tables pipes same known d fd v = record {
  counted = λ id p h w. elim (known id p h) [
    | inl (ne, at) ↦ v.counted id p at w ∙ sym (same id w ne)
    | inr (at, n) ↦ n w
  ];
  pipes_below = λ id h. elim (Option-cases (Maps.lookup id pipes)) [
    | inl e ↦ absurd (ground arith)
    | inr (p, e) ↦ elim (known id p e) [
      | inl (ne, at) ↦ (let b = v.pipes_below id (ground arith) in omega (arith, b))
      | inr (at, n) ↦ omega (arith, at)
    ]
  ];
  ends_below = λ id w h. elim (Bool-cases (s.next_pipe == id)) [
    | inl at ↦ ground arith
    | inr ne ↦ (let b = v.ends_below id w (omega (arith, same id w ne)) in omega (arith, b))
  ];
  tables_distinct = d;
  files_distinct = fd;
}

-- No end of the next pipe is open yet.
unused_number : (s : Files) (w : Bool) → Counted s → open_ends s.next_pipe w s ≡ 0
unused_number s w v = let b = v.ends_below s.next_pipe w in ground (arith, b)

module _ (task : ℕ) (s : Files) (v : Counted s) (t : FdTable)
    (at_task : Maps.lookup task s.tables ≡ some t) where
  abbrev first : FdTable × Option ℕ
  first = alloc_fd (pipe_file s.next_pipe false) t

  abbrev second : FdTable × Option ℕ
  second = alloc_fd (pipe_file s.next_pipe true) first.0

  table_total :
      (t' : FdTable) (id : ℕ) (w : Bool)
      → total (in_table id w) (Maps.insert task t' s.tables) + in_table id w t
        ≡ open_ends id w s + in_table id w t'
  table_total t' id w =
      omega
        (arith, total-insert (in_table id w) task t' s.tables, ap (share (in_table id w)) at_task)

  first_same :
      (id : ℕ) (w : Bool) → (s.next_pipe == id) ≡ false → in_table id w first.0 ≡ in_table id w t
  first_same id w ne = ground (
    arith,
    alloc_fd-ends (pipe_file s.next_pipe false) t id w,
    other_pipe id s.next_pipe false w ne,
  )

  second_same :
      (id : ℕ) (w : Bool) → (s.next_pipe == id) ≡ false → in_table id w second.0 ≡ in_table id w t
  second_same id w ne = ground (
    arith,
    alloc_fd-ends (pipe_file s.next_pipe true) first.0 id w,
    other_pipe id s.next_pipe true w ne,
    first_same id w ne,
  )

  tables_same :
      (t' : FdTable)
      → ((id : ℕ) (w : Bool) → (s.next_pipe == id) ≡ false → in_table id w t' ≡ in_table id w t)
      → (id : ℕ) (w : Bool) → (s.next_pipe == id) ≡ false
      → total (in_table id w) (Maps.insert task t' s.tables) ≡ open_ends id w s
  tables_same t' same id w ne = omega (arith, table_total t' id w, same id w ne)

  old_pipe : (id : ℕ) (p : Pipe) → Maps.lookup id s.pipes ≡ some p → (s.next_pipe == id) ≡ false
  old_pipe id p h = let b = v.pipes_below id (ground arith) in ground arith

  first_files : Distinct first.0.files
  first_files = alloc_fd-Distinct (pipe_file s.next_pipe false) t (v.files_distinct task t at_task)

  second_files : Distinct second.0.files
  second_files = alloc_fd-Distinct (pipe_file s.next_pipe true) first.0 first_files

  -- A failure leaves the pipes alone.
  failed-Counted :
      (t' : FdTable)
      → Distinct t'.files
      → ((id : ℕ) (w : Bool) → (s.next_pipe == id) ≡ false → in_table id w t' ≡ in_table id w t)
      → Counted (record s { tables = Maps.insert task t' s.tables; next_pipe = s.next_pipe + 1 })
  failed-Counted t' d same =
      next-Counted s (Maps.insert task t' s.tables) s.pipes (tables_same t' same)
        (λ id p h. inl (old_pipe id p h, h)) (Distinct-insert task t' s.tables v.tables_distinct)
        (files-insert task t' s v d) v

  one_each :
      (r r' : ℕ)
      → first.1 ≡ some r
      → second.1 ≡ some r'
      → (w : Bool) → total (in_table s.next_pipe w) (Maps.insert task second.0 s.tables) ≡ 1
  one_each r r' a b w = omega (
    arith,
    table_total second.0 s.next_pipe w,
    unused_number s w v,
    both_ends w,
    added (pipe_file s.next_pipe false) t r a w
        ∙ ap (λ k. in_table s.next_pipe w t + k) (this_pipe s.next_pipe false w),
    added (pipe_file s.next_pipe true) first.0 r' b w
        ∙ ap (λ k. in_table s.next_pipe w first.0 + k) (this_pipe s.next_pipe true w),
  )
    where
      added :
          (file : OpenFile) (u : FdTable) (r : ℕ)
          → (alloc_fd file u).1 ≡ some r
          → (w : Bool)
          → in_table s.next_pipe w (alloc_fd file u).0
            ≡ in_table s.next_pipe w u + is_end s.next_pipe w file
      added file u r a w = ground (arith, alloc_fd-ends file u s.next_pipe w)

  abbrev fresh : Pipe
  fresh = record { buf = []; read_ends = 1; write_ends = 1 }

  fresh_ends : (w : Bool) → ends_of w fresh ≡ 1
  fresh_ends true = refl
  fresh_ends false = refl

  made-Counted :
      (r r' : ℕ)
      → first.1 ≡ some r
      → second.1 ≡ some r'
      → Counted (record s {
        tables = Maps.insert task second.0 s.tables;
        pipes = Maps.insert s.next_pipe fresh s.pipes;
        next_pipe = s.next_pipe + 1;
      })
  made-Counted r r' a b =
      next-Counted s (Maps.insert task second.0 s.tables) (Maps.insert s.next_pipe fresh s.pipes)
        (tables_same second.0 second_same) known
        (Distinct-insert task second.0 s.tables v.tables_distinct)
        (files-insert task second.0 s v second_files) v
    where
      known :
          (id : ℕ) (p : Pipe)
          → Maps.lookup id (Maps.insert s.next_pipe fresh s.pipes) ≡ some p
          → (((s.next_pipe == id) ≡ false) × (Maps.lookup id s.pipes ≡ some p))
            ⊎ ((s.next_pipe ≡ id)
                × ((w : Bool)
                    → ends_of w p ≡ total (in_table id w) (Maps.insert task second.0 s.tables)))
      known id p h = elim (Bool-cases (s.next_pipe == id)) [
        | inr ne ↦ inl (ne, ground (arith, lookup-insert s.next_pipe id fresh s.pipes))
        | inl same ↦
            (let at : s.next_pipe ≡ id = (==_iff s.next_pipe id).0 same in
              let new : fresh ≡ p = ground (arith, lookup-insert s.next_pipe id fresh s.pipes) in
              inr (
                at,
                λ w.
                    subst
                      (λ (q : Pipe).
                        ends_of w q ≡ total (in_table id w) (Maps.insert task second.0 s.tables))
                      new
                      (fresh_ends w
                        ∙ sym (
                            subst
                              (λ (i : ℕ).
                                total (in_table i w) (Maps.insert task second.0 s.tables) ≡ 1)
                              at (one_each r r' a b w))),
              ))
      ]

pub make_pipe-Counted : (task : ℕ) (s : Files) → Counted s → Counted (make_pipe task s).0
unfolding make_pipe
make_pipe-Counted task s v = elim (Option-cases (Maps.lookup task s.tables)) [
  | inl e ↦ rw (e, make_pipe) v
  | inr (t, e) ↦ elim (Option-cases (first task s v t e).1) [
    | inl a ↦
        rw (e, a, make_pipe)
          (failed-Counted task s v t e (first task s v t e).0 (first_files task s v t e)
            (first_same task s v t e))
    | inr (r, a) ↦ elim (Option-cases (second task s v t e).1) [
      | inl b ↦
          rw (e, a, b, make_pipe)
            (failed-Counted task s v t e (second task s v t e).0 (second_files task s v t e)
              (second_same task s v t e))
      | inr (r', b) ↦ rw (e, a, b, make_pipe) (made-Counted task s v t e r r' a b)
    ]
  ]
]
