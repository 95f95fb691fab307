-- ===== src/Process/Nodes/Scheduling.antt =====
-- The scheduler leaves the process tree alone (kernel/src/task.rs, `schedule`).
use pickle_os.Base.{
  ℕ, ◌≡◌, refl, ◌<◌, true, false, ◌||◌, if◌then◌else◌, ap, List, get_elem?-lt, some, arith,
  get_elem?, length, Bool-cases, inl, inr,
}
use pickle_os.Task.{
  is_blocked, wake, blocked, zombie, dead, Task, Scheduler, State, runnable, running, keep_running,
  resume, demote, set_state, modify_at, schedule, is_dead, is_running, is_runnable,
}
use pickle_os.Task.Find.{length-modify_at, get_elem?-modify_at}
use pickle_os.Task.Running.{schedule_cases, runnable_at-some}
use pickle_os.Process.Kill.{raise}
use pickle_os.Process.Nodes.{node, Alike, Alike-trans, Alike-modify_at}

-- A change of state that neither ends nor revives a task.
pub set_state_keeps :
    (st : State) (t : Task)
    → is_dead st ≡ is_dead t.state
    → ((set_state st t).id ≡ t.id) × (node (set_state st t) ≡ node t)
set_state_keeps st t e =
    (refl, ap (λ g. record { parent = t.parent; children = t.children; gone = g }) e)

running_live : (st : State) → (is_running st || is_runnable st) ≡ true → false ≡ is_dead st
running_live runnable h = refl
running_live running h = refl
running_live blocked h = refl
running_live zombie h = refl
running_live dead h = absurd (ground (arith, h))

keep_running_keeps : (t : Task) → ((keep_running t).id ≡ t.id) × (node (keep_running t) ≡ node t)
keep_running_keeps t = elim (Bool-cases (is_running t.state || is_runnable t.state)) [
  | inl h ↦ rw (h, keep_running) (set_state_keeps running t (running_live t.state h))
  | inr h ↦ rw (h, keep_running) (refl, refl)
]

resume_keeps : (t : Task) → ((resume t).id ≡ t.id) × (node (resume t) ≡ node t)
resume_keeps t = elim (Bool-cases (is_dead t.state)) [
  | inl h ↦
      rw (h, resume)
        (refl, ap (λ g. record { parent = t.parent; children = t.children; gone = g }) h)
  | inr h ↦ rw (h, resume) (refl, refl)
]

demote_keeps : (t : Task) → ((demote t).id ≡ t.id) × (node (demote t) ≡ node t)
demote_keeps t = elim (Bool-cases (is_running t.state)) [
  | inl h ↦ rw (h, demote) (set_state_keeps runnable t (running_live t.state (ground (arith, h))))
  | inr h ↦ rw (h, demote) (refl, refl)
]

awake_live : (st : State) → is_dead (if is_blocked st then runnable else st) ≡ is_dead st
awake_live runnable = refl
awake_live running = refl
awake_live blocked = refl
awake_live zombie = refl
awake_live dead = refl

pub raise-node : (sig : ℕ) (t : Task) → node (raise sig t) ≡ node t
raise-node sig t =
    ap (λ g. record { parent = t.parent; children = t.children; gone = g }) (awake_live t.state)

wake_keeps : (t : Task) → ((wake t).id ≡ t.id) × (node (wake t) ≡ node t)
wake_keeps t = elim (Bool-cases (is_blocked t.state)) [
  | inl h ↦ rw (h, wake) (set_state_keeps runnable t (ground (arith, awake_live t.state, h)))
  | inr h ↦ rw (h, wake) (refl, refl)
]

pub wake-id : (t : Task) → (wake t).id ≡ t.id
wake-id t = (wake_keeps t).0

pub wake-node : (t : Task) → node (wake t) ≡ node t
wake-node t = (wake_keeps t).1

-- `schedule` keeps ids and nodes, and its current index is a task's.
pub Alike-schedule :
    (s : Scheduler)
    → s.current < length s.tasks
    → Alike (schedule s).tasks s.tasks × ((schedule s).current < length (schedule s).tasks)
Alike-schedule s h =
    schedule_cases (λ r. Alike r.tasks s.tasks × (r.current < length r.tasks)) s h
      (λ _. (
        Alike-modify_at s.current keep_running s.tasks (λ t _. keep_running_keeps t),
        omega (arith, length-modify_at s.current keep_running s.tasks),
      ))
      (λ _ own. (
        Alike-modify_at s.current resume s.tasks (λ t e. resume_keeps t),
        omega (arith, length-modify_at s.current resume s.tasks),
      ))
      (λ next _ away up.
        let ts : List Task = modify_at s.current demote s.tasks in
        let target : (t : Task) × (get_elem? s.tasks next ≡ some t) × (t.state ≡ runnable) =
          runnable_at-some s.tasks next up in
        (
          Alike-trans (modify_at next (set_state running) ts) ts s.tasks
              (Alike-modify_at next (set_state running) ts (λ t e. set_state_keeps running t (
                ground (
                  arith,
                  e,
                  target.1,
                  target.2,
                  away,
                  get_elem?-modify_at s.current next demote s.tasks,
                ))))
              (Alike-modify_at s.current demote s.tasks (λ t _. demote_keeps t)),
          omega (
            arith,
            length-modify_at next (set_state running) ts,
            length-modify_at s.current demote s.tasks,
            get_elem?-lt s.tasks next target.0 target.1,
          ),
        ))
