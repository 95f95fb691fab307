-- ===== src/Irq/Ownership.antt =====
-- The single owner of an interrupt line (kernel/src/driver/irq.rs).
use pickle_os.Base.{
  ℕ, ◌+◌, false, ◌&&◌, ◌||◌, ◌≡◌, refl, sym, ap, subst, Option, none, some, arith, ◌==◌, ==_iff,
  if◌then◌else◌, ◌>>=◌, get_elem?, get_elem?-lt, get_elem?-set_self, get_elem?-set_ne, set,
  Option-cases, Bool-cases, inl, inr,
}
use pickle_os.Task.{Scheduler, current_id}
use pickle_os.Irq.{IrqLine, Lines, register, u64, wait_step, wake_step, notify_from_isr}

abbrev pub owner_of : ℕ → Lines → Option ℕ
owner_of irq ls = get_elem? ls irq >>= λ line. some line.owner

pub get_elem?-set :
    (ls : Lines) (i j : ℕ) (line new : IrqLine)
    → get_elem? ls i ≡ some line
    → get_elem? (set ls i new) j ≡ (if i == j then some new else get_elem? ls j)
get_elem?-set ls i j line new h = elim (Bool-cases (i == j)) [
  | inl same ↦
      (let e : i ≡ j = (==_iff i j).0 same in
        rw same (
          subst (λ k. get_elem? (set ls i new) k ≡ some new) e
            (get_elem?-set_self ls i new (get_elem?-lt ls i line h))))
  | inr other ↦ rw other (get_elem?-set_ne ls i j new (λ e. ground arith))
]

-- The line once a task owns it: the pending count, the waiter and the total stay.
abbrev pub owned_by : ℕ → IrqLine → IrqLine
owned_by task line = record line { owner = task }

owner_again : (line : IrqLine) (task : ℕ) → line.owner ≡ task → owned_by task line ≡ line
owner_again line task e = ap (λ o. record line { owner = o }) (sym e)

-- A registration is granted exactly on a line that exists and is unowned or the task's own. The
-- line's owner is then the task, the line keeps its pending count, its waiter and its total, and no
-- other line changes at all. A refusal changes no line.
pub register_lem :
    (irq task other : ℕ) (ls : Lines)
    → ((register irq task ls).1
        ≡ (elim (owner_of irq ls) [ none ↦ false | some owner ↦ owner == 0 || owner == task ]))
      × (get_elem? (register irq task ls).0 other ≡ (
          if (register irq task ls).1 && irq == other
          then (get_elem? ls other >>= λ line. some (owned_by task line))
          else get_elem? ls other))
unfolding register
register_lem irq task other ls = elim (Option-cases (get_elem? ls irq)) [
  | inl e ↦ rw (e, register) (refl, refl)
  | inr (line, e) ↦
      (let l = get_elem?-set ls irq other line (owned_by task line) e in
        let at : irq ≡ other → get_elem? ls irq ≡ get_elem? ls other = λ p. ap (get_elem? ls) p in
        let again : line.owner ≡ task → owned_by task line ≡ line = owner_again line task in
        rw (e, register) (ground arith, ground arith))
]

-- Nothing but a registration changes an owner: not a wait, a wake or an interrupt on any line.
owner_of-wait_step :
    (irq other : ℕ) (ls : Lines) (s : Scheduler)
    → (owner_of other (wait_step irq (ls, s)).0.0 ≡ owner_of other ls)
      × (owner_of other (wake_step irq ls) ≡ owner_of other ls)
      × (owner_of other (notify_from_isr irq (ls, s)).0 ≡ owner_of other ls)
unfolding wait_step wake_step notify_from_isr
owner_of-wait_step irq other ls s = elim (Option-cases (get_elem? ls irq)) [
  | inl e ↦ (rw (e, wait_step), rw (e, wake_step), rw (e, notify_from_isr))
  | inr (line, e) ↦
      (let at : irq ≡ other → get_elem? ls irq ≡ get_elem? ls other = λ p. ap (get_elem? ls) p in
        let served = get_elem?-set ls irq other line (record line { pending = 0 }) e in
        let slept = get_elem?-set ls irq other line (record line { waiter = current_id s }) e in
        let woken = get_elem?-set ls irq other line (record line { waiter = 0 }) e in
        let noted =
          get_elem?-set ls irq other line
            (record line { pending = u64 (line.pending + 1); count = u64 (line.count + 1) }) e in
        (
          rw (e, wait_step) (ground arith),
          rw (e, wake_step) (ground arith),
          rw (e, notify_from_isr) (ground arith),
        ))
]
