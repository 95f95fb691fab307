-- ===== src/Process/Nodes/Adds.antt =====
-- A new task in the task list and in the process tree (kernel/src/task.rs, `Scheduler::add_task`).
use pickle_os.Base.{
  ℕ, ◌≡◌, subst, ◌≢◌, ◌⊎◌, ◌≤◌, refl, ◌∙◌, ◌==◌, true, ◌++◌, ltb, none, some, List, [], ◌∷◌, arith,
  Bool-cases, inl, inr, if◌then◌else◌, length, ==_iff,
}
use pickle_os.Base.Members.{member}
use pickle_os.Task.{Task, Scheduler, is_dead, find_task, modify_at, free_index, add_task}
use pickle_os.Process.Nodes.{ids, Distinct, find_task-ids, ids-find_task}

-- The task list with `new` in the first dead slot, or at the end.
unfoldable pub placed : Task → List Task → List Task
placed new [] = new ∷ []
placed new (t ∷ ts) = let later = t ∷ placed new ts in if is_dead t.state then new ∷ ts else later

placed_lem :
    (new : Task) (ts : List Task)
    → (if ltb (free_index ts) (length ts)
        then modify_at (free_index ts) (λ _. new) ts
        else ts ++ new ∷ [])
      ≡ placed new ts
unfolding free_index modify_at placed
placed_lem new [] = refl
placed_lem new (t ∷ ts) = elim (Bool-cases (is_dead t.state)) [
  | inl h ↦ rw h (ground arith)
  | inr h ↦ rw h (ground (arith, placed_lem new ts))
]

pub add_task-placed : (new : Task) (s : Scheduler) → (add_task new s).0.tasks ≡ placed new s.tasks
unfolding add_task
add_task-placed new s = placed_lem new s.tasks

pub length-placed : (new : Task) (ts : List Task) → length ts ≤ length (placed new ts)
unfolding placed
length-placed new [] = ground arith
length-placed new (t ∷ ts) = ground (arith, length-placed new ts)

pub find_task-placed :
    (new : Task) (ts : List Task)
    → find_task new.id ts ≡ none
    → find_task new.id (placed new ts) ≡ some new
unfolding placed find_task
find_task-placed new [] e = ground arith
find_task-placed new (t ∷ ts) e = ground (arith, e, find_task-placed new ts)

-- Another id is found as before, or was that of a dead task.
pub find_task-placed_other :
    (new : Task) (ts : List Task) (j : ℕ)
    → Distinct (ids ts)
    → j ≢ new.id
    → (find_task j (placed new ts) ≡ find_task j ts)
      ⊎ ((find_task j (placed new ts) ≡ none)
          × (t : Task) × (find_task j ts ≡ some t)
          × (is_dead t.state ≡ true))
unfolding placed find_task ids Distinct
find_task-placed_other new [] j d other = inl (ground (arith, other))
find_task-placed_other new (t ∷ ts) j d other = elim (Bool-cases (is_dead t.state)) [
  | inl h ↦ elim (Bool-cases (t.id == j)) [
    | inl at ↦
        let absent : find_task j ts ≡ none =
          subst (λ i. find_task i ts ≡ none) ((==_iff t.id j).0 at) (ids-find_task t.id ts d.0) in
        inr (ground (arith, h, other, absent), t, ground (arith, at), h)
    | inr away ↦ inl (ground (arith, h, away, other))
  ]
  | inr h ↦ elim (Bool-cases (t.id == j)) [
    | inl at ↦ inl (ground (arith, h, at))
    | inr away ↦ elim (find_task-placed_other new ts j d.1 other) [
      | inl same ↦ inl (ground (arith, h, away, same))
      | inr (gone, u, e, f) ↦ inr (ground (arith, h, away, gone), u, ground (arith, away, e), f)
    ]
  ]
]

pub Distinct-placed :
    (new : Task) (ts : List Task)
    → find_task new.id ts ≡ none
    → Distinct (ids ts)
    → Distinct (ids (placed new ts))
unfolding placed find_task ids Distinct member
Distinct-placed new [] e d = (refl, tt)
Distinct-placed new (t ∷ ts) e d = elim (Bool-cases (is_dead t.state)) [
  | inl h ↦ rw h (find_task-ids new.id ts (ground (arith, e)), d.1)
  | inr h ↦
      let apart : t.id ≢ new.id = λ same. ground (arith, e, same) in
      let absent : find_task t.id ts ≡ none = ids-find_task t.id ts d.0 in
      let still : find_task t.id (placed new ts) ≡ none =
        elim (find_task-placed_other new ts t.id d.1 apart) [
          | inl same ↦ same ∙ absent
          | inr (gone, _, _, _) ↦ gone
        ] in
      rw h
        (find_task-ids t.id (placed new ts) still, Distinct-placed new ts (ground (arith, e)) d.1)
]
