-- ===== src/Services/MemFs/Contents.antt =====
-- What a write leaves to be read (kernel/src/services/memfs.rs).
use pickle_os.Base.{
  ℕ, false, ◌≡◌, refl, sym, ap, ◌∙◌, ◌≢◌, ◌⊎◌, some, arith, Option-cases, Bool-cases, inl, inr,
  length,
}
use pickle_os.Base.Maps
use pickle_os.Base.Maps.{bytes_key, same_bytes, same_bytes_iff, lookup-insert, lookup-insert_self}
use pickle_os.Services.MemFs.{
  Bytes, file, dir, Fs, FsError, Result, ok, err, normalize, parent_of, put_new, write, write_at,
  read, stat, read_at, stat_at,
}

Result-cases : {A : Type 0} (r : Result A) → ((e : FsError) × (r ≡ err e)) ⊎ ((x : A) × (r ≡ ok x))
Result-cases (ok x) = inr (x, refl)
Result-cases (err e) = inl (e, refl)

-- A write that succeeds is an insertion, and returns the length.
write_at-ok :
    (p content : Bytes) (fs fs' : Fs) (n : ℕ)
    → write_at p content fs ≡ (fs', ok n)
    → (fs' ≡ Maps.insert p (file content) fs) × (n ≡ length content)
unfolding put_new
write_at-ok p content fs fs' n h = elim (Option-cases (Maps.lookup p fs)) [
  | inl e ↦ elim (Option-cases (Maps.lookup (parent_of p) fs)) [
    | inl e' ↦ absurd (ground arith)
    | inr (file old, e') ↦ absurd (ground arith)
    | inr (dir, e') ↦ ground arith
  ]
  | inr (dir, e) ↦ absurd (ground arith)
  | inr (file old, e) ↦ ground arith
]

write_at_path :
    (path p content : Bytes) (fs : Fs)
    → normalize path ≡ ok p
    → write path content fs ≡ write_at p content fs
unfolding write
write_at_path path p content fs e = rw (e, write) refl

read_at_path : (path p : Bytes) (fs : Fs) → normalize path ≡ ok p → read path fs ≡ read_at p fs
unfolding read
read_at_path path p fs e = rw (e, read) refl

read_elsewhere :
    (path other content : Bytes) (p : Bytes) (fs : Fs)
    → normalize path ≡ ok p
    → normalize other ≢ normalize path
    → read other (Maps.insert p (file content) fs) ≡ read other fs
unfolding read
read_elsewhere path other content p fs e ne = elim (Result-cases (normalize other)) [
  | inl (x, e') ↦ rw (e', read) refl
  | inr (q, e') ↦ elim (Bool-cases (same_bytes p q)) [
    | inl same ↦
        absurd (ne (e' ∙ ap (λ r. Result.ok r) (sym ((same_bytes_iff p q).0 same)) ∙ sym e))
    | inr apart ↦ rw (e', read) (rw (read_at, lookup-insert p q (file content) fs, apart) refl)
  ]
]

-- After a write that succeeds, its path reads back the bytes written and has their number as its
-- size and as the write's result; every path that is not another spelling of it reads as before.
pub read-write :
    (path content : Bytes) (fs fs' : Fs) (n : ℕ)
    → write path content fs ≡ (fs', ok n)
    → (n ≡ length content)
      × (read path fs' ≡ ok content)
      × (stat path fs' ≡ ok (record { size = n; is_dir = false }))
      × ((other : Bytes) → normalize other ≢ normalize path → read other fs' ≡ read other fs)
unfolding write stat
read-write path content fs fs' n h = elim (Result-cases (normalize path)) [
  | inl (x, e) ↦ absurd (ground arith)
  | inr (p, e) ↦
      (let w : write_at p content fs ≡ (fs', ok n) = sym (write_at_path path p content fs e) ∙ h in
        let (at, len) = write_at-ok p content fs fs' n w in
        let there : Maps.lookup p fs' ≡ some (file content) =
          rw at (lookup-insert_self p (file content) fs) in
        (
          len,
          read_at_path path p fs' e ∙ rw (there, read_at) refl,
          rw (e, stat) (rw (there, stat_at) (rw len refl)),
          λ other ne. rw at (read_elsewhere path other content p fs e ne),
        ))
]
