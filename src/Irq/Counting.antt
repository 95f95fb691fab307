-- ===== src/Irq/Counting.antt =====
-- No interrupt is lost (kernel/src/driver/irq.rs).
use pickle_os.Base.{
  ℕ, ◌+◌, ◌%◌, ◌^◌, Bool, true, ◌≡◌, ap, Option, none, some, List, [], ◌∷◌, arith, ◌==◌,
  if◌then◌else◌, get_elem?, Option-cases, inl, inr, is_some,
}
use pickle_os.Task.{Scheduler, current_id, schedule}
use pickle_os.Irq.Ownership.{get_elem?-set}
use pickle_os.Irq.{Lines, u64, register, wait_step, wake_step, notify_from_isr}

abbrev pub pending_of : ℕ → Lines → ℕ
pending_of irq ls = elim (get_elem? ls irq) [ none ↦ 0 | some line ↦ line.pending ]

abbrev pub exists : ℕ → Lines → Bool
exists irq ls = is_some (get_elem? ls irq)

-- What happens to the lines, in any order.
pub data Event : Type 0 where
  interrupts : ℕ → Event
  waits : ℕ → Event
  wakes : ℕ → Event
  registers : ℕ → ℕ → Event
  preempts : Event

abbrev pub step : Event → Lines × Scheduler → Lines × Scheduler
step (interrupts irq) w = notify_from_isr irq w
step (waits irq) w = (wait_step irq w).0
step (wakes irq) (ls, s) = (wake_step irq ls, s)
step (registers irq task) (ls, s) = ((register irq task ls).0, s)
step preempts (ls, s) = (ls, schedule s)

abbrev count_of : Option ℕ → ℕ
count_of none = 0
count_of (some n) = n

-- The interrupts that one event hands to a driver of the line, and those that it raises.
abbrev pub served_by : ℕ → Lines × Scheduler → Event → ℕ
served_by irq w (interrupts i) = 0
served_by irq w (waits i) = if i == irq then count_of (wait_step i w).1 else 0
served_by irq w (wakes i) = 0
served_by irq w (registers i task) = 0
served_by irq w preempts = 0

abbrev pub raised_by : ℕ → Event → ℕ
raised_by irq (interrupts i) = if i == irq then 1 else 0
raised_by irq (waits i) = 0
raised_by irq (wakes i) = 0
raised_by irq (registers i task) = 0
raised_by irq preempts = 0

abbrev pub run : Lines × Scheduler → List Event → Lines × Scheduler
run w [] = w
run w (e ∷ es) = run (step e w) es

abbrev pub served : ℕ → Lines × Scheduler → List Event → ℕ
served irq w [] = 0
served irq w (e ∷ es) = served_by irq w e + served irq (step e w) es

abbrev pub raised : ℕ → List Event → ℕ
raised irq [] = 0
raised irq (e ∷ es) = raised_by irq e + raised irq es

same_line : (irq i : ℕ) (ls : Lines) → i ≡ irq → get_elem? ls i ≡ get_elem? ls irq
same_line irq i ls p = ap (get_elem? ls) p

step-exists :
    (irq : ℕ) (e : Event) (ls : Lines) (s : Scheduler)
    → exists irq ls ≡ true
    → exists irq (step e (ls, s)).0 ≡ true
unfolding wait_step wake_step notify_from_isr register
step-exists irq (interrupts i) ls s h = elim (Option-cases (get_elem? ls i)) [
  | inl e ↦ rw (e, notify_from_isr) h
  | inr (line, e) ↦
      (let l =
          get_elem?-set ls i irq line
            (record line { pending = u64 (line.pending + 1); count = u64 (line.count + 1) }) e in
        rw (e, notify_from_isr) (ground arith))
]
step-exists irq (waits i) ls s h = elim (Option-cases (get_elem? ls i)) [
  | inl e ↦ rw (e, step, wait_step) h
  | inr (line, e) ↦
      (let served = get_elem?-set ls i irq line (record line { pending = 0 }) e in
        let slept = get_elem?-set ls i irq line (record line { waiter = current_id s }) e in
        rw (e, step, wait_step) (ground arith))
]
step-exists irq (wakes i) ls s h = elim (Option-cases (get_elem? ls i)) [
  | inl e ↦ rw (e, wake_step) h
  | inr (line, e) ↦
      (let l = get_elem?-set ls i irq line (record line { waiter = 0 }) e in
        rw (e, wake_step) (ground arith))
]
step-exists irq (registers i task) ls s h = elim (Option-cases (get_elem? ls i)) [
  | inl e ↦ rw (e, register) h
  | inr (line, e) ↦
      (let l = get_elem?-set ls i irq line (record line { owner = task }) e in
        rw (e, register) (ground arith))
]
step-exists irq preempts ls s h = h

-- One event balances, up to the wrap-around of the counter.
step-balance :
    (irq : ℕ) (e : Event) (ls : Lines) (s : Scheduler)
    → exists irq ls ≡ true
    → (served_by irq (ls, s) e + pending_of irq (step e (ls, s)).0) % 2 ^ 64
      ≡ (pending_of irq ls + raised_by irq e) % 2 ^ 64
unfolding wait_step wake_step notify_from_isr register
step-balance irq (interrupts i) ls s h = elim (Option-cases (get_elem? ls i)) [
  | inl e ↦ rw (e, notify_from_isr) (ground (arith, same_line irq i ls))
  | inr (line, e) ↦
      (let l =
          get_elem?-set ls i irq line
            (record line { pending = u64 (line.pending + 1); count = u64 (line.count + 1) }) e in
        rw (e, notify_from_isr) (ground (arith, same_line irq i ls)))
]
step-balance irq (waits i) ls s h = elim (Option-cases (get_elem? ls i)) [
  | inl e ↦ rw (e, wait_step) (ground (arith, same_line irq i ls))
  | inr (line, e) ↦
      (let served = get_elem?-set ls i irq line (record line { pending = 0 }) e in
        let slept = get_elem?-set ls i irq line (record line { waiter = current_id s }) e in
        rw (e, wait_step) (ground (arith, same_line irq i ls)))
]
step-balance irq (wakes i) ls s h = elim (Option-cases (get_elem? ls i)) [
  | inl e ↦ rw (e, wake_step) (ground arith)
  | inr (line, e) ↦
      (let l = get_elem?-set ls i irq line (record line { waiter = 0 }) e in
        rw (e, wake_step) (ground (arith, same_line irq i ls)))
]
step-balance irq (registers i task) ls s h = elim (Option-cases (get_elem? ls i)) [
  | inl e ↦ rw (e, register) (ground arith)
  | inr (line, e) ↦
      (let l = get_elem?-set ls i irq line (record line { owner = task }) e in
        rw (e, register) (ground (arith, same_line irq i ls)))
]
step-balance irq preempts ls s h = ground arith

-- No interrupt is lost or made up: over any history of interrupts, waits, wake-ups, registrations
-- and preemptions on all lines, the interrupts that the drivers of a line that exists are told of and those
-- still pending add up to those pending at first and those raised, modulo the 64 bits of the counter.
pub interrupts_balance :
    (irq : ℕ) (es : List Event) (ls : Lines) (s : Scheduler)
    → exists irq ls ≡ true
    → (served irq (ls, s) es + pending_of irq (run (ls, s) es).0) % 2 ^ 64
      ≡ (pending_of irq ls + raised irq es) % 2 ^ 64
interrupts_balance irq [] ls s h = omega arith
interrupts_balance irq (e ∷ es) ls s h =
    let now = step-balance irq e ls s h in
    let later =
      interrupts_balance irq es (step e (ls, s)).0 (step e (ls, s)).1 (step-exists irq e ls s h) in
    omega arith
