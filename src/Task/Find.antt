-- ===== src/Task/Find.antt =====
-- The task list by id and by index (kernel/src/task.rs): what the in-place updates do.
use pickle_os.Base.{
  ℕ, suc, zero, ◌≡◌, refl, Option, some, List, [], ◌∷◌, arith, ◌==◌, ◌>>=◌, if◌then◌else◌, length,
  get_elem?, ap,
}
use pickle_os.Task.{
  Task, Scheduler, find_task, update_task, modify_at, current_task, modify_current,
}

pub length-modify_at :
    (i : ℕ) (f : Task → Task) (ts : List Task) → length (modify_at i f ts) ≡ length ts
unfolding modify_at
length-modify_at i f [] = refl
length-modify_at zero f (t ∷ ts) = refl
length-modify_at (suc i) f (t ∷ ts) = ap suc (length-modify_at i f ts)

abbrev pub map_option : (Task → Task) → Option Task → Option Task
map_option f o = o >>= λ t. some (f t)

pub get_elem?-modify_at :
    (i j : ℕ) (f : Task → Task) (ts : List Task)
    → get_elem? (modify_at i f ts) j
      ≡ (if i == j then map_option f (get_elem? ts j) else get_elem? ts j)
unfolding modify_at
get_elem?-modify_at i j f [] = ground arith
get_elem?-modify_at zero zero f (t ∷ ts) = ground arith
get_elem?-modify_at zero (suc j) f (t ∷ ts) = ground arith
get_elem?-modify_at (suc i) zero f (t ∷ ts) = ground arith
get_elem?-modify_at (suc i) (suc j) f (t ∷ ts) = ground (arith, get_elem?-modify_at i j f ts)

pub length-update_task :
    (id : ℕ) (f : Task → Task) (ts : List Task) → length (update_task id f ts) ≡ length ts
unfolding update_task
length-update_task id f [] = refl
length-update_task id f (t ∷ ts) = ground (arith, length-update_task id f ts)

-- An update that keeps ids shows under that id alone.
pub find_task-update_task :
    (id j : ℕ) (f : Task → Task) (ts : List Task)
    → ((t : Task) → (f t).id ≡ t.id)
    → find_task j (update_task id f ts)
      ≡ (if id == j then map_option f (find_task j ts) else find_task j ts)
unfolding find_task update_task
find_task-update_task id j f [] keep = ground arith
find_task-update_task id j f (t ∷ ts) keep =
    ground (arith, keep t, find_task-update_task id j f ts keep)

-- The current task after a change of it.
pub current_task-modify_current :
    (f : Task → Task) (s : Scheduler) (t : Task)
    → current_task s ≡ some t
    → current_task (modify_current f s) ≡ some (f t)
current_task-modify_current f s t e =
    ground (arith, e, get_elem?-modify_at s.current s.current f s.tasks)
