-- ===== src/Capability/Authority.antt =====
-- Capability discipline as a whole (kernel/src/capability.rs): tasks may create tables, grant and
-- revoke in any order; only the kernel mints.
use pickle_os.Base.{
  ℕ, true, ◌≡◌, ap, ◌&&◌, Option, some, arith, ◌==◌, Option-cases, Bool-cases, inl, inr,
}
use pickle_os.Base.Bits.{test_bit}
use pickle_os.Capability.Flags.{Rights, intersect}
use pickle_os.Capability.Sets.{test_bit-intersect}
use pickle_os.Capability.Slots.{lookup-create_table}
use pickle_os.Capability.Grant.{grant_clamps, grant_refused}
use pickle_os.Capability.Revoke.{revoke_lem}
use pickle_os.Capability.{Object, Capability, Tables, create_table, lookup, grant, revoke}

-- Someone holds the right with flag `k` over an object.
abbrev pub Authority : Tables → Object → ℕ → Type 0
Authority t object k =
    (task : ℕ) × (slot : ℕ) × (cap : Capability) × (lookup t task slot ≡ some cap)
    × (cap.object ≡ object)
    × (test_bit cap.rights k ≡ true)

-- The calls that a task can make; their arguments are arbitrary.
pub data Call : Type 0 where
  creates : ℕ → Call
  grants : ℕ → ℕ → ℕ → Rights → Call
  revokes : ℕ → ℕ → Call

unfoldable pub run_call : Tables → Call → Tables
run_call t (creates task) = create_table t task
run_call t (grants from_task from_slot to_task rights) =
    (grant t from_task from_slot to_task rights).0
run_call t (revokes task slot) = (revoke t task slot).0

pub data Reach (s : Tables) : Tables → Type 0 where
  here : Reach s s
  next : {t : Tables} → Reach s t → (c : Call) → Reach s (run_call t c)

Authority-grant :
    (t : Tables) (from_task from_slot to_task : ℕ) (rights : Rights) (object : Object) (k : ℕ)
    → Authority (grant t from_task from_slot to_task rights).0 object k
    → Authority t object k
Authority-grant t from_task from_slot to_task rights object k (task, j, c, e, o, b) =
    elim (Option-cases result.1) [
      | inl n ↦
          (let same =
              (grant_refused t result.0 from_task from_slot to_task rights
                (ap (λ r. (result.0, r)) n)).0 in
            (task, j, c, rw same at e, o, b))
      | inr (slot, s) ↦
          (let (source, held, g, free, after) =
              grant_clamps t result.0 from_task from_slot to_task rights slot
                (ap (λ r. (result.0, r)) s) in
            elim (Bool-cases (to_task == task && slot == j)) [
              | inl hit ↦
                  (let same : c ≡ record {
                    object = source.object;
                    rights = intersect source.rights rights;
                  } =
                      ground (arith, after task j) in
                    (
                      from_task,
                      from_slot,
                      source,
                      held,
                      ground arith,
                      ground (arith, test_bit-intersect source.rights rights k),
                    ))
              | inr miss ↦ (task, j, c, ground (arith, after task j), o, b)
            ])
    ]
  where
    result : Tables × Option ℕ
    result = grant t from_task from_slot to_task rights

Authority-call :
    (t : Tables) (c : Call) (object : Object) (k : ℕ)
    → Authority (run_call t c) object k
    → Authority t object k
unfolding run_call
Authority-call t (creates task) object k (other, j, c, e, o, b) =
    (other, j, c, ground (arith, lookup-create_table t task other j), o, b)
Authority-call t (grants from_task from_slot to_task rights) object k h =
    Authority-grant t from_task from_slot to_task rights object k h
Authority-call t (revokes task slot) object k (other, j, c, e, o, b) =
    (other, j, c, ground (arith, (revoke_lem t task slot).1 other j), o, b)

-- However the tasks create tables, grant and revoke, in any number and order, each right that
-- somebody holds over an object afterwards was held over that object by somebody before.
pub Reach-Authority :
    {s t : Tables} (object : Object) (k : ℕ)
    → Reach s t
    → Authority t object k
    → Authority s object k
Reach-Authority object k here h = h
Reach-Authority object k (next r c) h = Reach-Authority object k r (Authority-call _ c object k h)
