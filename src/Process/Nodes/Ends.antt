-- ===== src/Process/Nodes/Ends.antt =====
-- A task that ends, in the task list and in the process tree (kernel/src/task.rs, `do_exit` and
-- `terminate_task`).
use mathlib.Core.List.{append-nil}
use pickle_os.Base.{
  ℕ, ◌≡◌, refl, ◌∙◌, ap, ◌==◌, ==_iff, subst, Bool, true, false, ◌++◌, Option, none, some, List, [],
  ◌∷◌, arith, Option-cases, inl, inr, if◌then◌else◌, ◌&&◌,
}
use pickle_os.Base.Members.{member}
use pickle_os.Task.{
  Task, State, runnable, running, blocked, zombie, dead, is_dead, is_blocked, find_task,
  update_task,
}
use pickle_os.Process.{retire, set_parent, reparent, adopt, update_option, hand_over, child_died}
use pickle_os.Process.Tree.{Node, map_node, remap, is_option}
use pickle_os.Process.Tree.End.{ended_node}
use pickle_os.Process.Nodes.{node, nodes, ids, ids-update_task, nodes-update_task}

nodes-reparent :
    (r : Option ℕ) (cs : List ℕ) (ts : List Task) (j : ℕ)
    → nodes (reparent r cs ts) j
      ≡ (if member j cs then map_node (λ x. record x { parent = r }) (nodes ts j) else nodes ts j)
unfolding reparent member
nodes-reparent r [] ts j = refl
nodes-reparent r (c ∷ cs) ts j =
    let rest = nodes-reparent r cs (update_task c (set_parent r) ts) j in
    let first =
      nodes-update_task c (set_parent r) (λ x. record x { parent = r }) ts (λ t. refl) (λ t. refl)
        j in
    elim (Option-cases (nodes ts j)) [
      | inl h ↦ ground (arith, rest, first, h)
      | inr (x, h) ↦ ground (arith, rest, first, h)
    ]

pub nodes-update_option :
    (r : Option ℕ) (f : Task → Task) (g : Node → Node) (ts : List Task)
    → ((t : Task) → (f t).id ≡ t.id)
    → ((t : Task) → node (f t) ≡ g (node t))
    → (j : ℕ)
    → nodes (update_option r f ts) j
      ≡ (if is_option r j then map_node g (nodes ts j) else nodes ts j)
nodes-update_option none f g ts keep same j = refl
nodes-update_option (some r) f g ts keep same j = nodes-update_task r f g ts keep same j

ids-reparent : (r : Option ℕ) (cs : List ℕ) (ts : List Task) → ids (reparent r cs ts) ≡ ids ts
unfolding reparent
ids-reparent r [] ts = refl
ids-reparent r (c ∷ cs) ts =
    ids-reparent r cs (update_task c (set_parent r) ts)
    ∙ ids-update_task c (set_parent r) ts (λ t. refl)

pub ids-update_option :
    (r : Option ℕ) (f : Task → Task) (ts : List Task)
    → ((t : Task) → (f t).id ≡ t.id)
    → ids (update_option r f ts) ≡ ids ts
ids-update_option none f ts keep = refl
ids-update_option (some r) f ts keep = ids-update_task r f ts keep

woken : (st : State) (b : Bool) → is_dead (if is_blocked st && b then runnable else st) ≡ is_dead st
woken blocked true = refl
woken blocked false = refl
woken runnable b = refl
woken running b = refl
woken zombie b = refl
woken dead b = refl

-- The list that a task leaves when it ends.
abbrev pub ended : ℕ → ℕ → Option ℕ → Task → List Task → List Task
ended p status r x ts =
    update_option x.parent child_died (hand_over r x.children (update_task p (retire status) ts))

pub ids-ended :
    (p status : ℕ) (r : Option ℕ) (x : Task) (ts : List Task) → ids (ended p status r x ts) ≡ ids ts
unfolding hand_over
ids-ended p status r x ts =
    let ts1 = update_task p (retire status) ts in
    let ts2 = reparent r x.children ts1 in
    ids-update_option x.parent child_died (update_option r (adopt x.children) ts2) (λ t. refl)
    ∙ ids-update_option r (adopt x.children) ts2 (λ t. refl)
    ∙ ids-reparent r x.children ts1
    ∙ ids-update_task p (retire status) ts (λ t. refl)

abbrev retired_node : Node → Node
retired_node n = record { parent = n.parent; children = []; gone = false }

abbrev moved_node : Option ℕ → Node → Node
moved_node r n = record n { parent = r }

abbrev adopting_node : List ℕ → Node → Node
adopting_node cs n = record n { children = n.children ++ cs }

map_same : (b : Bool) (o : Option Node) → (if b then map_node (λ n. n) o else o) ≡ o
map_same true none = refl
map_same true (some x) = refl
map_same false o = refl

-- The three changes of a node, as one.
combined :
    (ends moves adopts : Bool) (r : Option ℕ) (cs : List ℕ) (o : Option Node)
    → (ends ≡ true → (x : Node) → o ≡ some x → x.gone ≡ false)
    → let one = if ends then map_node retired_node o else o in
      let two = if moves then map_node (moved_node r) one else one in
      (if adopts then map_node (adopting_node cs) two else two)
      ≡ map_node
          (λ x. record x {
            parent = if moves then r else x.parent;
            children = (if ends then [] else x.children) ++ (if adopts then cs else []);
          })
          o
combined true true true r cs none live = refl
combined true true false r cs none live = refl
combined true false true r cs none live = refl
combined true false false r cs none live = refl
combined false true true r cs none live = refl
combined false true false r cs none live = refl
combined false false true r cs none live = refl
combined false false false r cs none live = refl
combined true true true r cs (some x) live = rw (live refl x refl) refl
combined true true false r cs (some x) live = rw (live refl x refl) refl
combined true false true r cs (some x) live = rw (live refl x refl) refl
combined true false false r cs (some x) live = rw (live refl x refl) refl
combined false true true r cs (some x) live = refl
combined false true false r cs (some x) live = rw (append-nil x.children) refl
combined false false true r cs (some x) live = refl
combined false false false r cs (some x) live = rw (append-nil x.children) refl

pub nodes-ended :
    (p status : ℕ) (r : Option ℕ) (x : Task) (ts : List Task)
    → find_task p ts ≡ some x
    → is_dead x.state ≡ false
    → (j : ℕ) → nodes (ended p status r x ts) j ≡ remap (ended_node p x.children r) (nodes ts) j
unfolding hand_over remap
nodes-ended p status r x ts e live j =
    let ts1 = update_task p (retire status) ts in
    let ts2 = reparent r x.children ts1 in
    let ts3 = update_option r (adopt x.children) ts2 in
    let last =
      nodes-update_option x.parent child_died (λ n. n) ts3 (λ t. refl)
        (λ t.
          ap (λ g. record { parent = t.parent; children = t.children; gone = g })
            (woken t.state t.wait_blocked))
        j in
    let three =
      nodes-update_option r (adopt x.children) (adopting_node x.children) ts2 (λ t. refl)
        (λ t. refl) j in
    let two = nodes-reparent r x.children ts1 j in
    let one = nodes-update_task p (retire status) retired_node ts (λ t. refl) (λ t. refl) j in
    last
    ∙ map_same (is_option x.parent j) (nodes ts3 j)
    ∙ three
    ∙ rw (two, one)
        (combined (p == j) (member j x.children) (is_option r j) r x.children (nodes ts j) (λ h y f.
          let found : nodes ts j ≡ some (node x) =
            subst (λ i. nodes ts i ≡ some (node x)) ((==_iff p j).0 h) (rw e refl) in
          ground (arith, found, f, live)))
