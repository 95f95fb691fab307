-- ===== src/Process/Sound/Reaps.antt =====
-- Zombies that are reaped, by their parent or by the reaper (kernel/src/task.rs).
use pickle_os.Base.{
  ℕ, ◌≡◌, refl, ◌∙◌, sym, ap, subst, ◌==◌, Bool, true, false, some, List, [], ◌∷◌, arith,
  Bool-cases, Option-cases, inl, inr, if◌then◌else◌, length,
}
use pickle_os.Base.Members.{member}
use pickle_os.Process.Tree.{Node}
use pickle_os.Task.{
  Task, dead, blocked, is_dead, is_zombie, find_task, update_task, set_state, modify_current,
}
use pickle_os.Task.Find.{find_task-update_task, map_option}
use pickle_os.Process.{
  any_zombie, zombies_of, reap_all, reap, reap_orphan, first_zombie, forget, Kernel, wait_round,
  reap_orphans,
}
use pickle_os.Process.Nodes.{node, nodes, modify_at-update_task, find_task-get_elem?}
use pickle_os.Process.Sound.{
  IsSound-schedule, IsSound-modify_current, IsSound-reaped, Runs, IsValid,
}

first_zombie-member :
    (cs : List ℕ) (ts : List Task) (c status : ℕ)
    → first_zombie cs ts ≡ some (c, status)
    → member c cs ≡ true
unfolding first_zombie member
first_zombie-member [] ts c status e = absurd (ground (arith, e))
first_zombie-member (d ∷ cs) ts c status e = elim (Option-cases (find_task d ts)) [
  | inl h ↦ ground (arith, first_zombie-member cs ts c status (ground (arith, e, h)))
  | inr (t, h) ↦ elim (Bool-cases (is_zombie t.state)) [
    | inl z ↦ ground (arith, e, h, z)
    | inr z ↦ ground (arith, first_zombie-member cs ts c status (ground (arith, e, h, z)))
  ]
]

-- A listed child names its parent.
child-parent :
    (k : Kernel) (p c : ℕ) (t x : Task)
    → IsValid k
    → find_task p k.sched.tasks ≡ some t
    → member c t.children ≡ true
    → find_task c k.sched.tasks ≡ some x
    → x.parent ≡ some p
child-parent k p c t x v e m f =
    let y : (y : Node) × (nodes k.sched.tasks c ≡ some y) × (y.parent ≡ some p) × (y.gone ≡ false) =
      v.forest.tree.down p c (node t) (rw e refl) m in
    ground (arith, y.1, y.2, f)

pub IsValid-wait_round : (k : Kernel) (t : Task) → Runs k t → IsValid k → IsValid (wait_round k).0
unfolding wait_round
IsValid-wait_round k t (at, up) v = elim (Bool-cases (length t.children == 0)) [
  | inl none_left ↦ rw (at, none_left, wait_round) v
  | inr some_left ↦ elim (Option-cases (first_zombie t.children k.sched.tasks)) [
    | inl e ↦
        rw (at, some_left, e, wait_round)
          (IsSound-schedule
            (modify_current (λ u. record u { wait_blocked = true; state = blocked }) k.sched)
            k.reaper k.next_id
            (IsSound-modify_current (λ u. record u { wait_blocked = true; state = blocked }) k.sched
              k.reaper k.next_id
              (λ u f.
                let same : t ≡ u = ground (arith, sym at ∙ f) in
                let live : false ≡ is_dead u.state =
                  subst (λ x. false ≡ is_dead x.state) same (rw up refl) in
                (
                  refl,
                  ap (λ g. record { parent = u.parent; children = u.children; gone = g }) live,
                ))
              v))
    | inr ((c, status), e) ↦
        rw (at, some_left, e, wait_round)
          (rw
            (modify_at-update_task k.sched.current (forget c) k.sched.tasks t v.forest.distinct at)
            (IsSound-reaped c t.id k.sched k.reaper k.next_id
              (λ x f.
                child-parent k t.id c t x v
                  (find_task-get_elem? k.sched.current k.sched.tasks t v.forest.distinct at)
                  (first_zombie-member t.children k.sched.tasks c status e) f)
              v))
  ]
]

-- One round of the reaper's loop, on a child of its own.
pub IsValid-reap_orphan :
    (k : Kernel) (r c : ℕ) (t : Task)
    → find_task r k.sched.tasks ≡ some t
    → member c t.children ≡ true
    → IsValid k
    → IsValid (reap_orphan r c k)
IsValid-reap_orphan k r c t f m v =
    IsSound-reaped c r k.sched k.reaper k.next_id (λ x g. child-parent k r c t x v f m g) v

zombies_of-member :
    (cs : List ℕ) (ts : List Task) (c : ℕ) → member c (zombies_of cs ts) ≡ true → member c cs ≡ true
unfolding zombies_of member
zombies_of-member [] ts c m = m
zombies_of-member (d ∷ cs) ts c m = elim (Bool-cases (any_zombie d ts)) [
  | inl z ↦ elim (Bool-cases (d == c)) [
    | inl own ↦ ground (arith, own)
    | inr other ↦ ground (arith, zombies_of-member cs ts c (ground (arith, m, z, other)), other)
  ]
  | inr z ↦ ground (arith, zombies_of-member cs ts c (ground (arith, m, z)))
]

parents_same :
    (gone forgets : Bool) (c : ℕ) (y x : Task)
    → (if gone
        then map_option
            (set_state dead)
            (if forgets then map_option (forget c) (some y) else some y)
        else (if forgets then map_option (forget c) (some y) else some y))
      ≡ some x
    → x.parent ≡ y.parent
parents_same true true c y x e = ground (arith, e)
parents_same true false c y x e = ground (arith, e)
parents_same false true c y x e = ground (arith, e)
parents_same false false c y x e = ground (arith, e)

reaped-parent :
    (c r d : ℕ) (ts : List Task) (x : Task)
    → find_task d (update_task c (set_state dead) (update_task r (forget c) ts)) ≡ some x
    → (y : Task) × (find_task d ts ≡ some y) × (x.parent ≡ y.parent)
reaped-parent c r d ts x e =
    let two =
      find_task-update_task c d (set_state dead) (update_task r (forget c) ts) (λ t. refl) in
    let one = find_task-update_task r d (forget c) ts (λ t. refl) in
    elim (Option-cases (find_task d ts)) [
      | inl h ↦ absurd (ground (arith, e, two, one, h))
      | inr (y, h) ↦ (y, h, parents_same (c == d) (r == d) c y x (sym (two ∙ rw (one, h) refl) ∙ e))
    ]

IsValid-reap_all :
    (r : ℕ) (cs : List ℕ) (k : Kernel)
    → ((c : ℕ) (t : Task)
        → member c cs ≡ true
        → find_task c k.sched.tasks ≡ some t
        → t.parent ≡ some r)
    → IsValid k
    → IsValid (reap_all r cs k)
unfolding reap_all member
IsValid-reap_all r [] k owned v = v
IsValid-reap_all r (c ∷ cs) k owned v =
    IsValid-reap_all r cs (reap c (update_task r (forget c) k.sched.tasks) k)
      (λ d x m e.
        let old : (y : Task) × (find_task d k.sched.tasks ≡ some y) × (x.parent ≡ y.parent) =
          reaped-parent c r d k.sched.tasks x e in
        old.2 ∙ owned d old.0 (ground (arith, m)) old.1)
      (IsSound-reaped c r k.sched k.reaper k.next_id (λ t e. owned c t (ground arith) e) v)

pub IsValid-reap_orphans : (k : Kernel) → IsValid k → IsValid (reap_orphans k)
unfolding reap_orphans
IsValid-reap_orphans k v = elim (Option-cases k.reaper) [
  | inl e ↦ rw (e, reap_orphans) v
  | inr (r, e) ↦ elim (Option-cases (find_task r k.sched.tasks)) [
    | inl f ↦ rw (e, f, reap_orphans) v
    | inr (t, f) ↦
        let ok : IsValid (reap_all r (zombies_of t.children k.sched.tasks) k) =
          IsValid-reap_all r (zombies_of t.children k.sched.tasks) k
            (λ c x m g.
              child-parent k r c t x v f (zombies_of-member t.children k.sched.tasks c m) g)
            v in
        rw (e, f, reap_orphans) ok
  ]
]
