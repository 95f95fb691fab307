-- ===== src/Process/Moved.antt =====
-- What scheduling does to one task (kernel/src/task.rs, `schedule`): no more than a change of a live
-- task's state.
use pickle_os.Base.{
  ℕ, suc, zero, ◌≡◌, ◌<◌, refl, sym, ◌∙◌, ap, subst, true, false, ◌||◌, ◌==◌, some, List, [], ◌∷◌,
  arith, Bool-cases, inl, inr, get_elem?, length,
}
use pickle_os.Task.{
  Task, Scheduler, State, runnable, running, blocked, zombie, dead, is_blocked, is_zombie, is_dead,
  is_running, is_runnable, find_task, modify_at, set_state, keep_running, resume, demote, switch_to,
  schedule,
}
use pickle_os.Task.Find.{get_elem?-modify_at}
use pickle_os.Task.Running.{schedule_cases, runnable_at-some}

-- `u` is `t` with another state: not blocked unless `t` was, and the same if `t` is a zombie
-- or blocked.
pub record Moved (t u : Task) : Type 0 where
  pub only_state : u ≡ set_state u.state t
  pub not_blocked : is_blocked t.state ≡ false → is_blocked u.state ≡ false
  pub zombie_stays : is_zombie t.state ≡ true → u ≡ t
  pub blocked_stays : is_blocked t.state ≡ true → u ≡ t

pub Moved-refl : (t : Task) → Moved t t
Moved-refl t = record {
  only_state = refl;
  not_blocked = λ h. h;
  zombie_stays = λ _. refl;
  blocked_stays = λ _. refl;
}

pub Moved-trans : (t u v : Task) → Moved t u → Moved u v → Moved t v
Moved-trans t u v a b = record {
  only_state = b.only_state ∙ ap (set_state v.state) a.only_state;
  not_blocked = λ h. b.not_blocked (a.not_blocked h);
  zombie_stays = λ h.
      let same : u ≡ t = a.zombie_stays h in
      b.zombie_stays (subst (λ x. is_zombie x.state ≡ true) (sym same) h) ∙ same;
  blocked_stays = λ h.
      let same : u ≡ t = a.blocked_stays h in
      b.blocked_stays (subst (λ x. is_blocked x.state ≡ true) (sym same) h) ∙ same;
}

Moved-set_state :
    (st : State) (t : Task)
    → is_blocked st ≡ false
    → is_zombie t.state ≡ false
    → is_blocked t.state ≡ false
    → Moved t (set_state st t)
Moved-set_state st t h live awake = record {
  only_state = refl;
  not_blocked = λ _. h;
  zombie_stays = λ z. absurd (ground (arith, z, live));
  blocked_stays = λ z. absurd (ground (arith, z, awake));
}

awake_not_zombie : (st : State) → (is_running st || is_runnable st) ≡ true → is_zombie st ≡ false
awake_not_zombie runnable h = refl
awake_not_zombie running h = refl
awake_not_zombie blocked h = refl
awake_not_zombie zombie h = absurd (ground (arith, h))
awake_not_zombie dead h = refl

awake_not_blocked : (st : State) → (is_running st || is_runnable st) ≡ true → is_blocked st ≡ false
awake_not_blocked runnable h = refl
awake_not_blocked running h = refl
awake_not_blocked blocked h = absurd (ground (arith, h))
awake_not_blocked zombie h = refl
awake_not_blocked dead h = refl

Moved-keep_running : (t : Task) → Moved t (keep_running t)
Moved-keep_running t = elim (Bool-cases (is_running t.state || is_runnable t.state)) [
  | inl h ↦
      rw (h, keep_running)
        (Moved-set_state running t refl (awake_not_zombie t.state h) (awake_not_blocked t.state h))
  | inr h ↦ rw (h, keep_running) (Moved-refl t)
]

Moved-demote : (t : Task) → Moved t (demote t)
Moved-demote t = elim (Bool-cases (is_running t.state)) [
  | inl h ↦
      rw (h, demote)
        (Moved-set_state runnable t refl (awake_not_zombie t.state (ground (arith, h)))
          (awake_not_blocked t.state (ground (arith, h))))
  | inr h ↦ rw (h, demote) (Moved-refl t)
]

Moved-resume : (t : Task) → t.state ≡ runnable → Moved t (resume t)
Moved-resume t up =
    let live : is_dead t.state ≡ false = rw up refl in
    rw (live, resume) (Moved-set_state running t refl (rw up refl) (rw up refl))

-- A task is found with its change, if the change at the index is a move.
find_task-modify_at :
    (i j : ℕ) (f : Task → Task) (ts : List Task) (t : Task)
    → ((u : Task) → get_elem? ts i ≡ some u → Moved u (f u))
    → find_task j ts ≡ some t
    → (u : Task) × (find_task j (modify_at i f ts) ≡ some u) × Moved t u
unfolding find_task modify_at
find_task-modify_at i j f [] t m e = absurd (ground (arith, e))
find_task-modify_at zero j f (v ∷ ts) t m e =
    let k : Moved v (f v) = m v refl in
    let same : (f v).id ≡ v.id = ap (λ u. u.id) k.only_state in
    elim (Bool-cases (v.id == j)) [
      | inl h ↦
          (let v_t : v ≡ t = ground (arith, e, h) in
            (f v, ground (arith, h, same), subst (λ x. Moved x (f v)) v_t k))
      | inr h ↦ (t, ground (arith, h, same, e), Moved-refl t)
    ]
find_task-modify_at (suc i) j f (v ∷ ts) t m e = elim (Bool-cases (v.id == j)) [
  | inl h ↦ (t, ground (arith, e, h), Moved-refl t)
  | inr h ↦
      let later : (u : Task) × (find_task j (modify_at i f ts) ≡ some u) × Moved t u =
        find_task-modify_at i j f ts t m (ground (arith, e, h)) in
      (later.0, ground (arith, h, later.1), later.2)
]

pub find_task-schedule :
    (s : Scheduler) (j : ℕ) (t : Task)
    → s.current < length s.tasks
    → find_task j s.tasks ≡ some t
    → (u : Task) × (find_task j (schedule s).tasks ≡ some u) × Moved t u
find_task-schedule s j t h e =
    schedule_cases (λ r. (u : Task) × (find_task j r.tasks ≡ some u) × Moved t u) s h
      (λ _. find_task-modify_at s.current j keep_running s.tasks t (λ u _. Moved-keep_running u) e)
      (λ _ own.
        find_task-modify_at s.current j resume s.tasks t
          (λ u at. Moved-resume u (
            let r : (v : Task) × (get_elem? s.tasks s.current ≡ some v) × (v.state ≡ runnable) =
              runnable_at-some s.tasks s.current own in
            ground (arith, at, r.1, r.2)))
          e)
      (λ next _ away up.
        let one : (u : Task) × (find_task j (modify_at s.current demote s.tasks) ≡ some u)
            × Moved t u =
          find_task-modify_at s.current j demote s.tasks t (λ u _. Moved-demote u) e in
        let two : (u : Task) × (find_task j (switch_to next s).tasks ≡ some u) × Moved one.0 u =
          find_task-modify_at next j (set_state running) (modify_at s.current demote s.tasks) one.0
            (λ u at.
              let r : (v : Task) × (get_elem? s.tasks next ≡ some v) × (v.state ≡ runnable) =
                runnable_at-some s.tasks next up in
              let ready : u.state ≡ runnable =
                ground
                  (arith, at, r.1, r.2, away, get_elem?-modify_at s.current next demote s.tasks) in
              Moved-set_state running u refl (rw ready refl) (rw ready refl))
            one.1 in
        (two.0, two.1, Moved-trans t one.0 two.0 one.2 two.2))
