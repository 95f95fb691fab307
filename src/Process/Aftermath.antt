-- ===== src/Process/Aftermath.antt =====
-- The tasks after the end of one of them (kernel/src/task.rs, `do_exit`).
use pickle_os.Base.{
  ℕ, ◌≡◌, refl, ◌∙◌, Bool, ◌==◌, Option, none, some, List, [], ◌∷◌, arith, Bool-cases, inl, inr,
  get_elem?-lt, if◌then◌else◌,
}
use pickle_os.Base.Maps.{nat_key}
use pickle_os.Base.Members.{member}
use pickle_os.Task.{Task, find_task, update_task}
use pickle_os.Task.Find.{find_task-update_task}
use pickle_os.Process.{
  Kernel, retire, set_parent, reparent, adopt, update_option, hand_over, child_died, do_exit,
}
use pickle_os.Process.Tree.{is_option}
use pickle_os.Process.Nodes.{ids, Distinct, modify_at-update_task, length-ids_same}
use pickle_os.Process.Nodes.Ends.{ended, ids-ended}
use pickle_os.Process.Moved.{Moved, find_task-schedule}
use pickle_os.Process.Sound.{Runs, IsValid}

abbrev pub when : Bool → (Task → Task) → Task → Task
when b f x = if b then f x else x

-- A found task, after the update of a task by id.
pub find_task-changed :
    (id j : ℕ) (f : Task → Task) (ts : List Task) (x : Task)
    → ((t : Task) → (f t).id ≡ t.id)
    → find_task j ts ≡ some x
    → find_task j (update_task id f ts) ≡ some (when (id == j) f x)
find_task-changed id j f ts x keep e = ground (arith, e, find_task-update_task id j f ts keep)

find_task-reparent :
    (r : Option ℕ) (cs : List ℕ) (j : ℕ) (ts : List Task) (x : Task)
    → find_task j ts ≡ some x
    → find_task j (reparent r cs ts) ≡ some (when (member j cs) (set_parent r) x)
unfolding reparent member
find_task-reparent r [] j ts x e = e
find_task-reparent r (c ∷ cs) j ts x e =
    let first = find_task-changed c j (set_parent r) ts x (λ t. refl) e in
    let rest =
      find_task-reparent r cs j (update_task c (set_parent r) ts) (when (c == j) (set_parent r) x)
        first in
    elim (Bool-cases (c == j)) [
      | inl h ↦ elim (Bool-cases (member j cs)) [
        | inl m ↦ rest ∙ rw (h, m) refl
        | inr m ↦ rest ∙ rw (h, m) refl
      ]
      | inr h ↦ ground (arith, h, rest)
    ]

find_task-update_option :
    (o : Option ℕ) (j : ℕ) (f : Task → Task) (ts : List Task) (x : Task)
    → ((t : Task) → (f t).id ≡ t.id)
    → find_task j ts ≡ some x
    → find_task j (update_option o f ts) ≡ some (when (is_option o j) f x)
find_task-update_option none j f ts x keep e = e
find_task-update_option (some id) j f ts x keep e = find_task-changed id j f ts x keep e

-- What a task's end makes of task `j`.
abbrev pub ended_task : ℕ → ℕ → Option ℕ → Task → ℕ → Task → Task
ended_task p status r t j x = when (is_option t.parent j) child_died (
    when (is_option r j) (adopt t.children)
      (when (member j t.children) (set_parent r) (when (p == j) (retire status) x)))

pub find_task-ended :
    (p status : ℕ) (r : Option ℕ) (t : Task) (ts : List Task) (j : ℕ) (x : Task)
    → find_task j ts ≡ some x
    → find_task j (ended p status r t ts) ≡ some (ended_task p status r t j x)
unfolding hand_over
find_task-ended p status r t ts j x e =
    let ts1 = update_task p (retire status) ts in
    let ts2 = reparent r t.children ts1 in
    let ts3 = update_option r (adopt t.children) ts2 in
    find_task-update_option t.parent j child_died ts3 _ (λ u. refl)
      (find_task-update_option r j (adopt t.children) ts2 _ (λ u. refl)
        (find_task-reparent r t.children j ts1 _
          (find_task-changed p j (retire status) ts x (λ u. refl) e)))

-- A task after the exit of the running task `t`.
pub after_exit :
    (status : ℕ) (k : Kernel) (t : Task)
    → Runs k t
    → IsValid k
    → (j : ℕ) (x : Task) → find_task j k.sched.tasks ≡ some x
    → (u : Task) × (find_task j (do_exit status k).sched.tasks ≡ some u)
      × Moved (ended_task t.id status k.reaper t j x) u
unfolding do_exit
after_exit status k t (at, up) v j x e =
    let d : Distinct (ids k.sched.tasks) = v.forest.distinct in
    let ts = ended t.id status k.reaper t k.sched.tasks in
    rw (at, do_exit)
      (rw (modify_at-update_task k.sched.current (retire status) k.sched.tasks t d at) (
        find_task-schedule (record k.sched { tasks = ts }) j (ended_task t.id status k.reaper t j x)
          (omega (
            arith,
            get_elem?-lt k.sched.tasks k.sched.current t at,
            length-ids_same ts k.sched.tasks (ids-ended t.id status k.reaper t k.sched.tasks),
          ))
          (find_task-ended t.id status k.reaper t k.sched.tasks j x e)))
