-- ===== src/Task/Running.antt =====
-- Which tasks run: the invariant of the scheduler and what `schedule` picks (kernel/src/task.rs).
use pickle_os.Base.{
  ℕ, ◌+◌, ◌%◌, ◌≤◌, ◌<◌, true, false, ◌≡◌, refl, sym, subst, ◌∙◌, ◌≢◌, ◌⊎◌, Option, none, some,
  List, arith, ◌==◌, ==_iff, length, get_elem?, get_elem?-lt, Bool-cases, Option-cases, inl, inr,
}
use pickle_os.Task.Find.{length-modify_at, get_elem?-modify_at, map_option}
use pickle_os.Task.Scan.{Nearest, Scanned, scan_lem}
use pickle_os.Task.{
  Task, Scheduler, State, runnable, running, runnable_at, scan, keep_running, resume, demote,
  set_state, switch_to, modify_at, modify_current, schedule,
}

-- The current index is a task's, and no other task runs.
pub record OnlyCurrentRuns (s : Scheduler) : Type 0 where
  pub in_range : s.current < length s.tasks
  pub alone : (i : ℕ) (t : Task) → get_elem? s.tasks i ≡ some t → t.state ≡ running → i ≡ s.current

pub runnable_at-some :
    (ts : List Task) (i : ℕ)
    → runnable_at ts i ≡ true
    → (t : Task) × (get_elem? ts i ≡ some t) × (t.state ≡ runnable)
runnable_at-some ts i h = elim (Option-cases (get_elem? ts i)) [
  | inl e ↦ absurd (ground arith)
  | inr (t, e) ↦ (t, e, ground arith)
]

-- No task can run.
abbrev pub NoneRunnable : Scheduler → Type 0
NoneRunnable s =
    (e : ℕ)
    → 0 < e
    → e ≤ length s.tasks
    → runnable_at s.tasks ((s.current + e) % length s.tasks) ≡ false

-- `next` is the nearest runnable task after the current one, in cyclic order.
abbrev pub IsNext : Scheduler → ℕ → Type 0
IsNext s next =
    (d : ℕ) × (0 < d)
    × (d ≤ length s.tasks)
    × (next ≡ (s.current + d) % length s.tasks)
    × Nearest (length s.tasks) s.current s.tasks d

-- The three ends of `schedule`.
pub schedule_cases :
    (P : Scheduler → Type 0) (s : Scheduler)
    → s.current < length s.tasks
    → (NoneRunnable s → P (modify_current keep_running s))
    → (IsNext s s.current → runnable_at s.tasks s.current ≡ true → P (modify_current resume s))
    → ((next : ℕ)
        → IsNext s next
        → next ≢ s.current
        → runnable_at s.tasks next ≡ true
        → P (switch_to next s))
    → P (schedule s)
unfolding schedule
schedule_cases P s h idle own other =
    pick (scan (length s.tasks) (length s.tasks) s.current s.tasks) refl
      (scan_lem (length s.tasks) (length s.tasks) s.current s.tasks)
  where
    busy : (length s.tasks == 0) ≡ false
    busy = ground arith

    pick :
        (r : Option ℕ)
        → scan (length s.tasks) (length s.tasks) s.current s.tasks ≡ r
        → Scanned (length s.tasks) (length s.tasks) s.current s.tasks r
        → P (schedule s)
    pick none e off = rw (busy, e, schedule) (idle off)
    pick (some next) e (d, lo, hi, same, near) = elim (Bool-cases (next == s.current)) [
      | inl at ↦
          (let here : next ≡ s.current = (==_iff next s.current).0 at in
            rw (busy, e, schedule)
              (rw at (
                own (d, lo, hi, sym here ∙ same, near)
                  (subst (λ i. runnable_at s.tasks i ≡ true) (sym same ∙ here) near.0))))
      | inr away ↦
          rw (busy, e, schedule)
            (rw away (
              other next (d, lo, hi, same, near) (λ same'. ground (arith, away, same'))
                (subst (λ i. runnable_at s.tasks i ≡ true) (sym same) near.0)))
    ]

abbrev pub AtCurrent : Scheduler → State → Type 0
AtCurrent s st = (t : Task) × (get_elem? s.tasks s.current ≡ some t) × (t.state ≡ st)

resume_runs :
    (s : Scheduler)
    → runnable_at s.tasks s.current ≡ true
    → AtCurrent (modify_current resume s) running
resume_runs s on =
    let (t, e, r) = runnable_at-some s.tasks s.current on in
    (
      set_state running t,
      ground (arith, get_elem?-modify_at s.current s.current resume s.tasks),
      refl,
    )

switch_runs :
    (s : Scheduler) (next : ℕ)
    → next ≢ s.current
    → runnable_at s.tasks next ≡ true
    → AtCurrent (switch_to next s) running
switch_runs s next ne on =
    let (t, e, r) = runnable_at-some s.tasks next on in
    (
      set_state running t,
      ground (
        arith,
        get_elem?-modify_at next next (set_state running) (modify_at s.current demote s.tasks),
        get_elem?-modify_at s.current next demote s.tasks,
      ),
      refl,
    )

-- With a current index in range, `schedule` hands the processor to the nearest runnable task after the current one, in cyclic
-- order, and that task runs afterwards; if no task is runnable, the current task stays current.
pub schedule_round_robin :
    (s : Scheduler)
    → s.current < length s.tasks
    → (NoneRunnable s × ((schedule s).current ≡ s.current))
      ⊎ (IsNext s (schedule s).current × AtCurrent (schedule s) running)
schedule_round_robin s h =
    schedule_cases
      (λ s'.
        (NoneRunnable s × (s'.current ≡ s.current)) ⊎ (IsNext s s'.current × AtCurrent s' running))
      s h (λ off. inl (off, refl)) (λ near on. inr (near, resume_runs s on))
      (λ next near ne on. inr (near, switch_runs s next ne on))

resume_alone :
    (s : Scheduler) (f : Task → Task) → OnlyCurrentRuns s → OnlyCurrentRuns (modify_current f s)
resume_alone s f v = record {
  in_range = omega (arith, v.in_range, length-modify_at s.current f s.tasks);
  alone = λ i t e r. elim (Bool-cases (s.current == i)) [
    | inl own ↦ sym ((==_iff s.current i).0 own)
    | inr other ↦ v.alone i t (ground (arith, get_elem?-modify_at s.current i f s.tasks)) r
  ];
}

-- The outgoing task no longer runs.
demoted : (o : Option Task) (t : Task) → t.state ≡ running → map_option demote o ≡ some t → ⊥
demoted none t r e = cc
demoted (some u) t r e = ground arith

switch_alone :
    (s : Scheduler) (next : ℕ)
    → OnlyCurrentRuns s
    → runnable_at s.tasks next ≡ true
    → OnlyCurrentRuns (switch_to next s)
switch_alone s next v on = record {
  in_range =
      let (t, e, r) = runnable_at-some s.tasks next on in
      omega (
        arith,
        get_elem?-lt s.tasks next t e,
        length-modify_at s.current demote s.tasks,
        length-modify_at next (set_state running) (modify_at s.current demote s.tasks),
      );
  alone = λ i t e r. elim (Bool-cases (next == i)) [
    | inl own ↦ sym ((==_iff next i).0 own)
    | inr other ↦ absurd (outgoing i t e r other)
  ];
}
  where
    outgoing :
        (i : ℕ) (t : Task)
        → get_elem? (switch_to next s).tasks i ≡ some t
        → t.state ≡ running
        → (next == i) ≡ false
        → ⊥
    outgoing i t e r other =
        let e' : get_elem? (modify_at s.current demote s.tasks) i ≡ some t = ground (
          arith,
          get_elem?-modify_at next i (set_state running) (modify_at s.current demote s.tasks),
        ) in
        elim (Bool-cases (s.current == i)) [
          | inl own ↦
              demoted (get_elem? s.tasks i) t r
                (ground (arith, get_elem?-modify_at s.current i demote s.tasks))
          | inr away ↦
              (let at =
                  v.alone i t (ground (arith, get_elem?-modify_at s.current i demote s.tasks)) r in
                absurd (ground arith))
        ]

-- If the current index is in range and no task but the current one runs, the same holds after
-- `schedule`.
pub schedule-OnlyCurrentRuns : (s : Scheduler) → OnlyCurrentRuns s → OnlyCurrentRuns (schedule s)
schedule-OnlyCurrentRuns s v =
    schedule_cases OnlyCurrentRuns s v.in_range (λ _. resume_alone s keep_running v)
      (λ _ _. resume_alone s resume v) (λ next _ _ on. switch_alone s next v on)
