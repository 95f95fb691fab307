-- ===== src/Process/Wait.antt =====
-- One round of `wait` (kernel/src/task.rs, `do_wait`).
use pickle_os.Base.{
  ℕ, ◌≡◌, ◌⊎◌, refl, sym, ◌∙◌, ap, subst, Bool, true, false, ◌==◌, ==_iff, Option, none, some, List,
  [], ◌∷◌, arith, Bool-cases, Option-cases, inl, inr, get_elem?-lt, length, if◌then◌else◌,
}
use pickle_os.Base.Members.{member, retain_ne}
use pickle_os.Task.{
  Task, dead, blocked, is_zombie, find_task, update_task, set_state, modify_current, modify_at,
  schedule,
}
use pickle_os.Task.Find.{length-modify_at}
use pickle_os.Process.{
  Kernel, WaitRound, no_children, reaped, sleeps, first_zombie, forget, wait_round,
}
use pickle_os.Process.Nodes.{find_task-get_elem?, modify_at-update_task}
use pickle_os.Process.Aftermath.{when, find_task-changed}
use pickle_os.Process.Moved.{Moved, find_task-schedule}
use pickle_os.Process.Sound.{Runs, IsValid}

none_zombie :
    (cs : List ℕ) (ts : List Task)
    → first_zombie cs ts ≡ none
    → (c : ℕ) (x : Task) → member c cs ≡ true
    → find_task c ts ≡ some x
    → is_zombie x.state ≡ false
unfolding first_zombie member
none_zombie [] ts e c x m f = absurd (ground (arith, m))
none_zombie (d ∷ cs) ts e c x m f = elim (Bool-cases (d == c)) [
  | inl own ↦
      let at : find_task d ts ≡ some x =
        subst (λ i. find_task i ts ≡ some x) (sym ((==_iff d c).0 own)) f in
      elim (Bool-cases (is_zombie x.state)) [
        | inl z ↦ absurd (ground (arith, e, at, z))
        | inr z ↦ z
      ]
  | inr other ↦
      none_zombie cs ts (later (first_zombie cs ts) (find_task d ts) e) c x
        (ground (arith, m, other)) f
]
  where
    later :
        (rest : Option (ℕ × ℕ)) (o : Option Task)
        → (elim o [
          | none ↦ rest
          | some t ↦ if is_zombie t.state then some (d, t.exit_status) else rest
        ])
          ≡ none
        → rest ≡ none
    later rest none h = h
    later rest (some t) h = elim (Bool-cases (is_zombie t.state)) [
      | inl z ↦ absurd (ground (arith, h, z))
      | inr z ↦ ground (arith, h, z)
    ]

abbrev ChildZombie : List ℕ → List Task → ℕ → ℕ → Type 0
ChildZombie cs ts c status =
    (x : Task) × (member c cs ≡ true)
    × (find_task c ts ≡ some x)
    × (is_zombie x.state ≡ true)
    × (x.exit_status ≡ status)

some_zombie :
    (cs : List ℕ) (ts : List Task) (c status : ℕ)
    → first_zombie cs ts ≡ some (c, status)
    → ChildZombie cs ts c status
unfolding first_zombie member
some_zombie [] ts c status e = absurd (ground (arith, e))
some_zombie (d ∷ cs) ts c status e = elim (Option-cases (find_task d ts)) [
  | inl h ↦ further (some_zombie cs ts c status (ground (arith, e, h)))
  | inr (t, h) ↦ elim (Bool-cases (is_zombie t.state)) [
    | inl z ↦
        let same : d ≡ c = ground (arith, e, h, z) in
        (
          t,
          ground (arith, same),
          subst (λ i. find_task i ts ≡ some t) same h,
          z,
          ground (arith, e, h, z),
        )
    | inr z ↦ further (some_zombie cs ts c status (ground (arith, e, h, z)))
  ]
]
  where
    further : ChildZombie cs ts c status → ChildZombie (d ∷ cs) ts c status
    further (x, m, f, z, s) = (x, ground (arith, m), f, z, s)

length_zero : (xs : List ℕ) → (length xs == 0) ≡ true → xs ≡ []
length_zero [] h = refl
length_zero (x ∷ xs) h = absurd (ground (arith, h))

abbrev waiting : Task → Task
waiting u = record u { wait_blocked = true; state = blocked }

-- A round that sleeps.
sleeping_lem :
    (k : Kernel) (t : Task)
    → Runs k t
    → IsValid k
    → (u : Task) × (find_task t.id (schedule (modify_current waiting k.sched)).tasks ≡ some u)
      × (u.wait_blocked ≡ true)
      × (u.state ≡ blocked)
sleeping_lem k t (at, up) v =
    let here : find_task t.id k.sched.tasks ≡ some t =
      find_task-get_elem? k.sched.current k.sched.tasks t v.forest.distinct at in
    let one : find_task t.id (modify_at k.sched.current waiting k.sched.tasks) ≡ some (waiting t) =
      ap (find_task t.id)
        (modify_at-update_task k.sched.current waiting k.sched.tasks t v.forest.distinct at)
      ∙ find_task-changed t.id t.id waiting k.sched.tasks t (λ u. refl) here
      ∙ ground arith in
    let r : (u : Task) × (find_task t.id (schedule (modify_current waiting k.sched)).tasks ≡ some u)
        × Moved (waiting t) u =
      find_task-schedule (modify_current waiting k.sched) t.id (waiting t)
        (omega (
          arith,
          get_elem?-lt k.sched.tasks k.sched.current t at,
          length-modify_at k.sched.current waiting k.sched.tasks,
        ))
        one in
    let same : r.0 ≡ waiting t = r.2.blocked_stays refl in
    (r.0, r.1, ap (λ u. u.wait_blocked) same, ap (λ u. u.state) same)

-- The tasks after a child is reaped.
reaped_lem :
    (c j : ℕ) (k : Kernel) (t x : Task)
    → Runs k t
    → IsValid k
    → find_task j k.sched.tasks ≡ some x
    → find_task j
        (update_task c (set_state dead) (modify_at k.sched.current (forget c) k.sched.tasks))
      ≡ some (when (c == j) (set_state dead) (when (t.id == j) (forget c) x))
reaped_lem c j k t x (at, up) v e =
    rw (modify_at-update_task k.sched.current (forget c) k.sched.tasks t v.forest.distinct at) (
      find_task-changed c j (set_state dead) (update_task t.id (forget c) k.sched.tasks) _
        (λ u. refl) (find_task-changed t.id j (forget c) k.sched.tasks x (λ u. refl) e))

died : (c : ℕ) (x : Task) → (when (c == c) (set_state dead) x).state ≡ dead
died c x = ground arith

forgot :
    (c : ℕ) (t : Task) (own : Bool)
    → (when own (set_state dead) (when (t.id == t.id) (forget c) t)).children
      ≡ retain_ne c t.children
forgot c t true = ground arith
forgot c t false = ground arith

-- The three ends of a round by task `t`.
abbrev pub RoundDone : Kernel → Task → Type 0
RoundDone k t =
    let r : Kernel × WaitRound = wait_round k in
    ((t.children ≡ []) × (r ≡ (k, no_children)))
    ⊎ ((c : ℕ) × (x : Task) × (member c t.children ≡ true)
        × (find_task c k.sched.tasks ≡ some x)
        × (is_zombie x.state ≡ true)
        × (r.1 ≡ reaped c x.exit_status)
        × ((u : Task) × (find_task c r.0.sched.tasks ≡ some u) × (u.state ≡ dead))
        × ((u : Task) × (find_task t.id r.0.sched.tasks ≡ some u)
            × (u.children ≡ retain_ne c t.children)))
    ⊎ (((c : ℕ) (x : Task)
          → member c t.children ≡ true
          → find_task c k.sched.tasks ≡ some x
          → is_zombie x.state ≡ false)
        × (r.1 ≡ sleeps)
        × ((u : Task) × (find_task t.id r.0.sched.tasks ≡ some u)
            × (u.wait_blocked ≡ true)
            × (u.state ≡ blocked)))

-- A round of `wait` by the running task `t` ends in one of three ways. It has no child; or it reaps
-- a child that is a zombie, returns its id and its status, leaves its slot dead, and no longer lists
-- it; or no child is a zombie, and it sleeps: it is blocked after the switch to another task, and
-- marked as waiting, so that the end of a child wakes it.
pub wait_round_lem : (k : Kernel) (t : Task) → Runs k t → IsValid k → RoundDone k t
unfolding wait_round
wait_round_lem k t (at, up) v = elim (Bool-cases (length t.children == 0)) [
  | inl empty ↦ inl (length_zero t.children empty, rw (at, empty, wait_round) refl)
  | inr some_left ↦ elim (Option-cases (first_zombie t.children k.sched.tasks)) [
    | inl none_left ↦ inr (
        inr (
          none_zombie t.children k.sched.tasks none_left,
          rw (at, some_left, none_left, wait_round) refl,
          rw (at, some_left, none_left, wait_round) (sleeping_lem k t (at, up) v),
        ))
    | inr ((c, status), e) ↦
        let z : ChildZombie t.children k.sched.tasks c status =
          some_zombie t.children k.sched.tasks c status e in
        let here : find_task t.id k.sched.tasks ≡ some t =
          find_task-get_elem? k.sched.current k.sched.tasks t v.forest.distinct at in
        let dies : Task = when (c == c) (set_state dead) (when (t.id == c) (forget c) z.0) in
        let waits : Task = when (c == t.id) (set_state dead) (when (t.id == t.id) (forget c) t) in
        inr (
          inl (
            c,
            z.0,
            z.1,
            z.2,
            z.3,
            rw (at, some_left, e, z.4, wait_round) refl,
            (
              dies,
              rw (at, some_left, e, wait_round) (reaped_lem c c k t z.0 (at, up) v z.2),
              died c (when (t.id == c) (forget c) z.0),
            ),
            (
              waits,
              rw (at, some_left, e, wait_round) (reaped_lem c t.id k t t (at, up) v here),
              forgot c t (c == t.id),
            ),
          ))
  ]
]
