-- ===== src/Files/Lifecycle.antt =====
-- The end counts when tasks begin and end, and when a pipe is made (kernel/src/fs/vfs.rs).
use pickle_os.Base.{
  ℕ, ◌+◌, ◌≤◌, ◌<◌, Bool, ◌≡◌, refl, sym, ap, subst, none, some, arith, Option-cases, inl, inr,
}
use pickle_os.Base.Maps
use pickle_os.Base.Maps.{
  Map, nat_key, contains_key, lookup-insert, lookup-remove, lookup-remove_self, Distinct,
  Distinct-insert, Distinct-remove, values,
}
use pickle_os.Base.Maps.Totals.{total, share, total_list-values, total-insert, total-remove}
use pickle_os.Files.EndCounts.{is_end, in_table, open_ends, ends_of, release_all_lem, dup_all_lem}
use pickle_os.Files.{
  Credentials, Files, FdTable, Pipe, PipeTable, release_all, close, cleanup_task_fds, dup_all,
  clone_task_fds, init_task_fds, standard_table, credentials,
}
use pickle_os.Files.Accounting.{
  Counted, Tracks, Tracks-Counted, files-insert, close-Tracks, release_all-tables,
}

pub close-Counted : (task fd : ℕ) (s : Files) → Counted s → Counted (close task fd s).0
unfolding close
close-Counted task fd s v = elim (Option-cases (Maps.lookup task s.tables)) [
  | inl e ↦ rw (e, close) v
  | inr (t, e) ↦ elim (Option-cases (Maps.lookup fd t.files)) [
    | inl e' ↦ rw (e, e', close) v
    | inr (f, e') ↦ rw (e, e', close) (Tracks-Counted s _ (close-Tracks task fd s t f v e e') v)
  ]
]

-- A new table for a task that had none.
insert-Counted :
    (task : ℕ) (t : FdTable) (pipes : PipeTable) (s : Files)
    → Maps.lookup task s.tables ≡ none
    → Distinct t.files
    → ((id : ℕ) (w : Bool) → 0 < in_table id w t → 0 < open_ends id w s)
    → ((id : ℕ) (p' : Pipe)
        → Maps.lookup id pipes ≡ some p'
        → (p : Pipe) × (Maps.lookup id s.pipes ≡ some p)
          × ((w : Bool) → ends_of w p' ≡ ends_of w p + in_table id w t))
    → Counted s
    → Counted (record s { tables = Maps.insert task t s.tables; pipes = pipes })
insert-Counted task t pipes s e d inherited dup v =
    Tracks-Counted s _
      (record {
        same_next = refl;
        pipe_before = λ id p' h.
            let (p, at, n) = dup id p' h in (p, at, λ w c. omega (arith, n w, c, balance id w));
        none_new = λ id w h. ground (arith, balance id w, inherited id w);
        distinct' = Distinct-insert task t s.tables v.tables_distinct;
        files' = files-insert task t s v d;
      })
      v
  where
    balance :
        (id : ℕ) (w : Bool)
        → total (in_table id w) (Maps.insert task t s.tables) ≡ open_ends id w s + in_table id w t
    balance id w =
        omega (arith, total-insert (in_table id w) task t s.tables, ap (share (in_table id w)) e)

standard-none : (id : ℕ) (w : Bool) → in_table id w standard_table ≡ 0
unfolding Maps.insert Maps.lookup
standard-none id w = refl

standard-Distinct : Distinct standard_table.files
unfolding Maps.insert Maps.lookup
standard-Distinct = (refl, (refl, (refl, tt)))

pub init_task_fds-Counted :
    (task : ℕ) (s : Files)
    → Maps.lookup task s.tables ≡ none
    → Counted s
    → Counted (init_task_fds task s)
unfolding init_task_fds
init_task_fds-Counted task s e v =
    insert-Counted task standard_table s.pipes s e standard-Distinct
      (λ id w h. ground (arith, standard-none id w))
      (λ id p' h. (p', h, λ w. omega (arith, standard-none id w))) v

share-le :
    (f : FdTable → ℕ) (task : ℕ) (m : Map ℕ FdTable) (t : FdTable)
    → Distinct m
    → Maps.lookup task m ≡ some t
    → f t ≤ total f m
share-le f task m t d e = omega (arith, total-remove f task m d, ap (share f) e)

creds-Counted : (c : Map ℕ Credentials) (s : Files) → Counted s → Counted (record s { creds = c })
creds-Counted c s v = record {
  counted = v.counted;
  pipes_below = v.pipes_below;
  ends_below = v.ends_below;
  tables_distinct = v.tables_distinct;
  files_distinct = v.files_distinct;
}

pub clone_task_fds-Counted :
    (parent child : ℕ) (s : Files)
    → Maps.lookup child s.tables ≡ none
    → Counted s
    → Counted (clone_task_fds parent child s)
unfolding clone_task_fds init_task_fds
clone_task_fds-Counted parent child s e v = elim (Option-cases (Maps.lookup parent s.tables)) [
  | inl e' ↦
      rw (e', clone_task_fds)
        (creds-Counted c (init_task_fds child s) (init_task_fds-Counted child s e v))
  | inr (t, e') ↦
      rw (e', clone_task_fds)
        (creds-Counted c
          (record s {
            pipes = dup_all (values t.files) s.pipes;
            tables = Maps.insert child t s.tables;
          })
          (insert-Counted child t (dup_all (values t.files) s.pipes) s e
            (v.files_distinct parent t e')
            (λ id w h.
              omega (arith, share-le (in_table id w) parent s.tables t v.tables_distinct e'))
            (λ id p' h.
              let (p, at, n) = dup_all_lem (values t.files) s.pipes id p' h in
              (p, at, λ w. omega (arith, n w, total_list-values (is_end id w) t.files)))
            v))
]
  where
    c : Map ℕ Credentials
    c = Maps.insert child (credentials parent s) s.creds

cleanup-Tracks :
    (task : ℕ) (s : Files) (t : FdTable)
    → Counted s
    → Maps.lookup task s.tables ≡ some t
    → Tracks s (release_all (values t.files) (record s { tables = Maps.remove task s.tables }))
cleanup-Tracks task s t v e = record {
  same_next = kept.1;
  pipe_before = λ id p' h.
      let (p, at, n) = release_all_lem (values t.files) s1 id p' h in
      (
        p,
        at,
        λ w c.
            omega
              (arith, n w, c, balance id w, after id w, total_list-values (is_end id w) t.files),
      );
  none_new = λ id w h. omega (arith, balance id w, after id w);
  distinct' = subst Distinct (sym kept.0) (Distinct-remove task s.tables v.tables_distinct);
  files' = λ other u h. v.files_distinct other u (
      let h' = subst (λ m. Maps.lookup other m ≡ some u) kept.0 h in
      ground (arith, lookup-remove task other s.tables));
}
  where
    s1 : Files
    s1 = record s { tables = Maps.remove task s.tables }

    kept :
        ((release_all (values t.files) s1).tables ≡ s1.tables)
        × ((release_all (values t.files) s1).next_pipe ≡ s1.next_pipe)
    kept = release_all-tables (values t.files) s1

    after :
        (id : ℕ) (w : Bool) → open_ends id w (release_all (values t.files) s1) ≡ open_ends id w s1
    after id w = ap (total (in_table id w)) kept.0

    balance : (id : ℕ) (w : Bool) → open_ends id w s1 + in_table id w t ≡ open_ends id w s
    balance id w = omega (
      arith,
      total-remove (in_table id w) task s.tables v.tables_distinct,
      ap (share (in_table id w)) e,
    )

removed-Tracks :
    (task : ℕ) (s : Files)
    → Counted s
    → Maps.lookup task s.tables ≡ none
    → Tracks s (record s { tables = Maps.remove task s.tables })
removed-Tracks task s v e = record {
  same_next = refl;
  pipe_before = λ id p' h. (p', h, λ w c. omega (arith, c, balance id w));
  none_new = λ id w h. omega (arith, balance id w);
  distinct' = Distinct-remove task s.tables v.tables_distinct;
  files' =
      λ other u h. v.files_distinct other u (ground (arith, lookup-remove task other s.tables));
}
  where
    balance :
        (id : ℕ) (w : Bool) → total (in_table id w) (Maps.remove task s.tables) ≡ open_ends id w s
    balance id w = omega (
      arith,
      total-remove (in_table id w) task s.tables v.tables_distinct,
      ap (share (in_table id w)) e,
    )

pub cleanup_task_fds-Counted :
    (task : ℕ) (s : Files) → Counted s → Counted (cleanup_task_fds task s)
unfolding cleanup_task_fds
cleanup_task_fds-Counted task s v = elim (Option-cases (Maps.lookup task s.tables)) [
  | inl e ↦
      rw (e, cleanup_task_fds)
        (creds-Counted _ _ (Tracks-Counted s _ (removed-Tracks task s v e) v))
  | inr (t, e) ↦
      rw (e, cleanup_task_fds)
        (creds-Counted _ _ (Tracks-Counted s _ (cleanup-Tracks task s t v e) v))
]
