-- ===== src/Task/Progress.antt =====
-- No starvation under the round-robin `schedule` (kernel/src/task.rs).
use native.Mathlib.Decide.{dec_lt}
use native.Mathlib.Nat.{mod-eq_of_lt}
use pickle_os.Base.{
  ℕ, suc, zero, ◌+◌, ◌-◌, ◌%◌, ◌≤◌, ◌<◌, true, false, ◌≡◌, refl, sym, ap, subst, ◌∙◌, ◌≢◌, ◌⊎◌,
  Option, none, some, List, arith, ◌==◌, ==_iff, if◌then◌else◌, ltb, length, get_elem?, Bool-cases,
  inl, inr,
}
use pickle_os.Task.Find.{length-modify_at, get_elem?-modify_at, map_option}
use pickle_os.Task.Scan.{Nearest}
use pickle_os.Task.Running.{IsNext, NoneRunnable, schedule_cases}
use pickle_os.Task.{
  Task, Scheduler, keep_running, resume, runnable_at, is_runnable, demote, set_state, running,
  switch_to, modify_at, schedule,
}

-- How many steps after the current task, cyclically, task `i` stands.
abbrev pub ahead : Scheduler → ℕ → ℕ
ahead s i = if ltb s.current i then i - s.current else i + length s.tasks - s.current

wrap :
    (n c d : ℕ)
    → c < n
    → d ≤ n
    → ((c + d) % n ≡ c + d) × (c + d < n) ⊎ ((c + d) % n ≡ c + d - n) × (n ≤ c + d)
wrap n c d h k = elim (dec_lt (c + d) n) [
  | yes p ↦ inl (mod-eq_of_lt p, p)
  | no p ↦ inr (grind arith, omega arith)
]

reaches : (n c i : ℕ) → c < n → i < n → (c + (if ltb c i then i - c else i + n - c)) % n ≡ i
reaches n c i h k = elim (dec_lt c i) [
  | yes p ↦
      (let e : ltb c i ≡ true = ground arith in
        rw e (let e' : c + (i - c) ≡ i = omega arith in rw e' (mod-eq_of_lt k)))
  | no p ↦
      (let e : ltb c i ≡ false = ground arith in
        rw e (let e' : c + (i + n - c) ≡ i + n = omega arith in rw e' (grind arith)))
]

-- The nearest runnable task is not further than a runnable task `i`.
next_not_beyond :
    (s : Scheduler) (i d : ℕ)
    → s.current < length s.tasks
    → i < length s.tasks
    → runnable_at s.tasks i ≡ true
    → Nearest (length s.tasks) s.current s.tasks d
    → d ≤ ahead s i
next_not_beyond s i d h k on near = elim (dec_lt (ahead s i) d) [
  | no p ↦ omega arith
  | yes p ↦
      (let off = near.1 (ahead s i) (ground arith) p in
        let at : runnable_at s.tasks ((s.current + ahead s i) % length s.tasks) ≡ true =
          subst (λ j. runnable_at s.tasks j ≡ true) (sym (reaches (length s.tasks) s.current i h k))
            on in
        absurd (ground arith))
]

-- A task other than the one changed stays runnable.
runnable_at-modify_at :
    (ts : List Task) (i j : ℕ) (f : Task → Task)
    → i ≢ j
    → runnable_at (modify_at i f ts) j ≡ runnable_at ts j
runnable_at-modify_at ts i j f ne = ground (arith, get_elem?-modify_at i j f ts)

demote_runnable :
    (o : Option Task)
    → elim (map_option demote o) [ none ↦ false | some t ↦ is_runnable t.state ] ≡ true
      ⊎ (elim o [ none ↦ false | some t ↦ is_runnable t.state ] ≡ false)
demote_runnable none = inr refl
demote_runnable (some t) = ground arith

runnable_at-demote :
    (s : Scheduler) (i : ℕ)
    → runnable_at s.tasks i ≡ true
    → runnable_at (modify_at s.current demote s.tasks) i ≡ true
runnable_at-demote s i on =
    ground
      (arith, get_elem?-modify_at s.current i demote s.tasks, demote_runnable (get_elem? s.tasks i))

-- One scheduling decision brings a runnable task `i` to the processor, or nearer to it, and then
-- it is still runnable.
abbrev Nearer : ℕ → Scheduler → Scheduler → Type 0
Nearer i s t =
    (t.current ≡ i)
    ⊎ ((runnable_at t.tasks i ≡ true)
        × (ahead t i < ahead s i)
        × (t.current < length t.tasks)
        × (length t.tasks ≡ length s.tasks))

schedule_idle :
    (s : Scheduler) (i : ℕ)
    → s.current < length s.tasks
    → i < length s.tasks
    → runnable_at s.tasks i ≡ true
    → NoneRunnable s
    → ⊥
schedule_idle s i h k on off =
    let e = reaches (length s.tasks) s.current i h k in
    let o = off (ahead s i) (ground arith) (ground arith) in
    let on' = subst (λ j. runnable_at s.tasks j ≡ true) (sym e) on in absurd (ground arith)

-- If the search comes round to the current task, no other task can run.
only_current :
    (s : Scheduler) (i : ℕ)
    → s.current < length s.tasks
    → i < length s.tasks
    → runnable_at s.tasks i ≡ true
    → IsNext s s.current
    → s.current ≡ i
only_current s i h k on (d, lo, hi, same, near) =
    ground (arith, next_not_beyond s i d h k on near, wrap (length s.tasks) s.current d h hi)

ahead-next :
    (s : Scheduler) (i next : ℕ)
    → s.current < length s.tasks
    → i < length s.tasks
    → runnable_at s.tasks i ≡ true
    → IsNext s next
    → next ≢ i
    → (if ltb next i then i - next else i + length s.tasks - next) < ahead s i
ahead-next s i next h k on (d, lo, hi, same, near) ne =
    ground (arith, next_not_beyond s i d h k on near, wrap (length s.tasks) s.current d h hi)

length-switch_to : (s : Scheduler) (next : ℕ) → length (switch_to next s).tasks ≡ length s.tasks
length-switch_to s next =
    length-modify_at next (set_state running) (modify_at s.current demote s.tasks)
    ∙ length-modify_at s.current demote s.tasks

next-lt :
    (s : Scheduler) (next : ℕ) → s.current < length s.tasks → IsNext s next → next < length s.tasks
next-lt s next h (d, lo, hi, same, near) = ground (arith, wrap (length s.tasks) s.current d h hi)

pub schedule-keeps :
    (s : Scheduler)
    → s.current < length s.tasks
    → ((schedule s).current < length (schedule s).tasks)
      × (length (schedule s).tasks ≡ length s.tasks)
schedule-keeps s h =
    schedule_cases (λ r. (r.current < length r.tasks) × (length r.tasks ≡ length s.tasks)) s h
      (λ _. let l = length-modify_at s.current keep_running s.tasks in (omega (arith, l, h), l))
      (λ _ _. let l = length-modify_at s.current resume s.tasks in (omega (arith, l, h), l))
      (λ next near _ _.
        let l = length-switch_to s next in
        let lt = next-lt s next h near in (omega (arith, l, lt), l))

schedule-Nearer :
    (s : Scheduler) (i : ℕ)
    → s.current < length s.tasks
    → i < length s.tasks
    → runnable_at s.tasks i ≡ true
    → Nearer i s (schedule s)
schedule-Nearer s i h k on =
    schedule_cases (Nearer i s) s h (λ off. absurd (schedule_idle s i h k on off))
      (λ near at. inl (only_current s i h k on near))
      (λ next near ne at. elim (Bool-cases (next == i)) [
        | inl same ↦ inl ((==_iff next i).0 same)
        | inr other ↦
            (let apart : next ≢ i = λ e. ground arith in
              inr (
                runnable_at-modify_at (modify_at s.current demote s.tasks) next i
                      (set_state running) apart
                    ∙ runnable_at-demote s i on,
                rw (length-switch_to s next) (ahead-next s i next h k on near apart),
                rw (length-switch_to s next) (next-lt s next h near),
                length-switch_to s next,
              ))
      ])

-- What may happen between two decisions: the running task and interrupts change tasks and start new
-- ones, whose places follow the others'; the current index stays, and task `i` stays runnable.
pub record Between (i : ℕ) (s t : Scheduler) : Type 0 where
  pub same_current : t.current ≡ s.current
  pub no_shorter : length s.tasks ≤ length t.tasks
  pub still_runnable : runnable_at s.tasks i ≡ true → runnable_at t.tasks i ≡ true

-- A history of scheduling decisions, with such changes before each. The list of tasks never gets
-- longer than `bound`.
pub record Turns (i bound : ℕ) (history : ℕ → Scheduler) : Type 0 where
  pub before_decision : ℕ → Scheduler
  pub between : (m : ℕ) → Between i (history m) (before_decision m)
  pub decides : (m : ℕ) → history (suc m) ≡ schedule (before_decision m)
  pub bounded : (m : ℕ) → length (before_decision m).tasks ≤ bound

Turns-tail :
    (i bound : ℕ) (history : ℕ → Scheduler)
    → Turns i bound history
    → Turns i bound (λ m. history (suc m))
Turns-tail i bound history v = record {
  before_decision = λ m. v.before_decision (suc m);
  between = λ m. v.between (suc m);
  decides = λ m. v.decides (suc m);
  bounded = λ m. v.bounded (suc m);
}

-- How far task `i` is at most, in a list of up to `bound` tasks. Tasks that are added do not put it
-- further away.
abbrev ahead_within : ℕ → ℕ → ℕ → ℕ
ahead_within bound current i = if ltb current i then i - current else i + bound - current

-- A step forward that does not pass `i` brings it nearer, in the longest list as well.
within_nearer :
    (n bound c next i : ℕ)
    → n ≤ bound
    → c < n
    → next < n
    → i < n
    → (if ltb next i then i - next else i + n - next) < (if ltb c i then i - c else i + n - c)
    → ahead_within bound next i < ahead_within bound c i
within_nearer n bound c next i fits h k l less = ground arith

scheduled_fuel :
    (fuel i bound : ℕ) (history : ℕ → Scheduler)
    → Turns i bound history
    → (history 0).current < length (history 0).tasks
    → i < length (history 0).tasks
    → runnable_at (history 0).tasks i ≡ true
    → ahead_within bound (history 0).current i ≤ fuel
    → (m : ℕ) × (0 < m) × (m ≤ fuel) × ((history m).current ≡ i)
scheduled_fuel zero i bound history v h k on le =
    let b = v.between 0 in absurd (ground (arith, v.bounded 0, b.no_shorter))
scheduled_fuel (suc fuel) i bound history v h k on le =
    let b = v.between 0 in
    let t : Scheduler = v.before_decision 0 in
    let near : Nearer i t (history 1) = subst (Nearer i t) (sym (v.decides 0)) (
      schedule-Nearer t i (omega (arith, b.same_current, b.no_shorter))
        (omega (arith, b.no_shorter)) (b.still_runnable on)) in
    elim near [
      | inl there ↦ (1, omega arith, omega arith, there)
      | inr (on', closer, h', len) ↦
          (let nearer : ahead_within bound (history 1).current i < ahead_within bound t.current i =
              within_nearer (length t.tasks) bound t.current (history 1).current i (v.bounded 0)
                (omega (arith, b.same_current, b.no_shorter)) (omega (arith, h', len))
                (omega (arith, b.no_shorter))
                (subst
                  (λ n.
                    (if ltb (history 1).current i
                      then i - (history 1).current
                      else i + n - (history 1).current)
                    < ahead t i)
                  len closer) in
            let here : ahead_within bound t.current i ≡ ahead_within bound (history 0).current i =
              ap (λ c. ahead_within bound c i) b.same_current in
            let (m, lo, hi, at) =
              scheduled_fuel fuel i bound (λ m. history (suc m)) (Turns-tail i bound history v) h'
                (omega (arith, b.no_shorter, len)) on' (omega (arith, nearer, here, le)) in
            (suc m, omega arith, omega arith, at))
    ]

-- No starvation: while task `i` of the list stays runnable, the current index is in range and changes
-- with the decisions only, and the list does not get shorter, task `i` becomes the current task within
-- as many scheduling decisions as the bound on the length of the list, whatever the tasks that run in
-- between do to others, and however many they start within that bound.
pub no_starvation :
    (i bound : ℕ) (history : ℕ → Scheduler)
    → Turns i bound history
    → (history 0).current < length (history 0).tasks
    → i < length (history 0).tasks
    → runnable_at (history 0).tasks i ≡ true
    → (m : ℕ) × (0 < m) × (m ≤ bound) × ((history m).current ≡ i)
no_starvation i bound history v h k on =
    scheduled_fuel bound i bound history v h k on
      (let b = v.between 0 in ground (arith, v.bounded 0, b.no_shorter))
