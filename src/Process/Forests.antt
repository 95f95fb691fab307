-- ===== src/Process/Forests.antt =====
-- The task list's process tree through each change of the list (kernel/src/task.rs).
use pickle_os.Base.{
  ℕ, ◌≡◌, ◌≢◌, ◌⊎◌, ◌<◌, ◌+◌, refl, ◌∙◌, sym, ap, subst, ◌==◌, Bool, true, false, ◌||◌, ◌++◌,
  Option, none, some, List, [], ◌∷◌, arith, Bool-cases, Option-cases, inl, inr, if◌then◌else◌,
}
use pickle_os.Base.Members.{retain_ne}
use pickle_os.Task.{Task, dead, is_dead, find_task, update_task, set_state}
use pickle_os.Process.{forget, adopt, update_option}
use pickle_os.Process.Tree.{Node, Nodes, IsTree, map_node, remap, is_option, is_option_lem}
use pickle_os.Process.Tree.End.{ended_node, IsTree-ended}
use pickle_os.Process.Tree.Reap.{reaped_node, drop_child, leave, IsTree-reaped}
use pickle_os.Process.Tree.Add.{parent_node, new_node, IsTree-grown}
use pickle_os.Process.Nodes.{node, nodes, ids, Distinct, Alike, nodes-update_task, ids-update_task}
use pickle_os.Process.Nodes.Ends.{
  ended, ids-ended, nodes-ended, nodes-update_option, ids-update_option,
}
use pickle_os.Process.Nodes.Adds.{placed, Distinct-placed, find_task-placed, find_task-placed_other}

-- Distinct ids, and a tree.
pub record IsForest (ts : List Task) (reaper : Option ℕ) (next : ℕ) : Type 0 where
  pub distinct : Distinct (ids ts)
  pub tree : IsTree (nodes ts) reaper next

IsTree-ext :
    (ns ms : Nodes) (r : Option ℕ) (n : ℕ) → ((j : ℕ) → ms j ≡ ns j) → IsTree ns r n → IsTree ms r n
IsTree-ext ns ms r n same t = subst (λ ns. IsTree ns r n) (λ i j. sym (same j) i) t

pub IsForest-Alike :
    (us ts : List Task) (r : Option ℕ) (n : ℕ) → Alike us ts → IsForest ts r n → IsForest us r n
IsForest-Alike us ts r n a f = record {
  distinct = subst Distinct (sym a.same_ids) f.distinct;
  tree = IsTree-ext (nodes ts) (nodes us) r n a.same_nodes f.tree;
}

pub IsForest-ended :
    (p status : ℕ) (r : Option ℕ) (n : ℕ) (x : Task) (ts : List Task)
    → find_task p ts ≡ some x
    → is_dead x.state ≡ false
    → IsForest ts r n
    → IsForest (ended p status r x ts) r n
IsForest-ended p status r n x ts e live f = record {
  distinct = subst Distinct (sym (ids-ended p status r x ts)) f.distinct;
  tree =
      IsTree-ext (remap (ended_node p x.children r) (nodes ts)) (nodes (ended p status r x ts)) r n
        (nodes-ended p status r x ts e live)
        (IsTree-ended p (nodes ts) r n (node x) (rw e refl) f.tree);
}

or_true : (b : Bool) → (b || true) ≡ true
or_true true = refl
or_true false = refl

or_false : (b : Bool) → (b || false) ≡ b
or_false true = refl
or_false false = refl

-- The two changes of a node, as one.
reaped_combined :
    (gone forgets : Bool) (c : ℕ) (o : Option Node)
    → let one = if forgets then map_node (drop_child c) o else o in
      (if gone then map_node leave one else one)
      ≡ map_node
          (λ x. record x {
            children = if forgets then retain_ne c x.children else x.children;
            gone = x.gone || gone;
          })
          o
reaped_combined true true c none = refl
reaped_combined true false c none = refl
reaped_combined false true c none = refl
reaped_combined false false c none = refl
reaped_combined true true c (some x) = rw (or_true x.gone) refl
reaped_combined true false c (some x) = rw (or_true x.gone) refl
reaped_combined false true c (some x) = rw (or_false x.gone) refl
reaped_combined false false c (some x) = rw (or_false x.gone) refl

nodes-reaped :
    (c p : ℕ) (ts : List Task) (j : ℕ)
    → nodes (update_task c (set_state dead) (update_task p (forget c) ts)) j
      ≡ remap (reaped_node c p) (nodes ts) j
unfolding remap
nodes-reaped c p ts j =
    let one = nodes-update_task p (forget c) (drop_child c) ts (λ t. refl) (λ t. refl) j in
    let two =
      nodes-update_task c (set_state dead) leave (update_task p (forget c) ts) (λ t. refl)
        (λ t. refl) j in
    two ∙ rw one (reaped_combined (c == j) (p == j) c (nodes ts j))

pub IsForest-reaped :
    (c p : ℕ) (r : Option ℕ) (n : ℕ) (ts : List Task)
    → ((t : Task) → find_task c ts ≡ some t → t.parent ≡ some p)
    → IsForest ts r n
    → IsForest (update_task c (set_state dead) (update_task p (forget c) ts)) r n
IsForest-reaped c p r n ts child f = record {
  distinct =
      subst Distinct
        (sym (
          ids-update_task c (set_state dead) (update_task p (forget c) ts) (λ t. refl)
          ∙ ids-update_task p (forget c) ts (λ t. refl)))
        f.distinct;
  tree =
      IsTree-ext (remap (reaped_node c p) (nodes ts))
        (nodes (update_task c (set_state dead) (update_task p (forget c) ts))) r n
        (nodes-reaped c p ts)
        (IsTree-reaped c p (nodes ts) r n
          (λ y e. elim (Option-cases (find_task c ts)) [
            | inl h ↦ absurd (ground (arith, e, h))
            | inr (t, h) ↦ ground (arith, e, h, child t h)
          ])
          f.tree);
}

abbrev listing : ℕ → Node → Node
listing n x = record x { children = x.children ++ n ∷ [] }

listed_combined :
    (lists : Bool) (n : ℕ) (o : Option Node)
    → (if lists then map_node (listing n) o else o)
      ≡ map_node (λ x. record x { children = if lists then x.children ++ n ∷ [] else x.children }) o
listed_combined true n none = refl
listed_combined false n none = refl
listed_combined true n (some x) = refl
listed_combined false n (some x) = refl

pub IsForest-added :
    (new : Task) (r : Option ℕ) (ts : List Task)
    → node new ≡ new_node new.parent
    → ((p : ℕ) → new.parent ≡ some p → p < new.id)
    → IsForest ts r new.id
    → IsForest (update_option new.parent (adopt (new.id ∷ [])) (placed new ts)) r (new.id + 1)
IsForest-added new r ts fresh low f = record {
  distinct =
      subst Distinct
        (sym (ids-update_option new.parent (adopt (new.id ∷ [])) (placed new ts) (λ t. refl)))
        (Distinct-placed new ts unused f.distinct);
  tree =
      IsTree-grown new.parent new.id (nodes ts) (nodes us)
        (record {
          fresh =
              listed new.id ∙ rw (not_own, find_task-placed new ts unused) (ap (λ n. some n) fresh);
          kept = kept;
        })
        r low f.tree;
}
  where
    us : List Task
    us = update_option new.parent (adopt (new.id ∷ [])) (placed new ts)

    unused : find_task new.id ts ≡ none
    unused = elim (Option-cases (find_task new.id ts)) [
      | inl h ↦ h
      | inr (t, h) ↦ absurd (ground (arith, f.tree.below new.id (node t) (rw h refl)))
    ]

    listed :
        (j : ℕ)
        → nodes us j ≡ (
            if is_option new.parent j
            then map_node (listing new.id) (nodes (placed new ts) j)
            else nodes (placed new ts) j)
    listed =
        nodes-update_option new.parent (adopt (new.id ∷ [])) (listing new.id) (placed new ts)
          (λ t. refl) (λ t. refl)

    not_own : is_option new.parent new.id ≡ false
    not_own = elim (Bool-cases (is_option new.parent new.id)) [
      | inl h ↦ absurd (ground (arith, low new.id (is_option_lem new.parent new.id h)))
      | inr h ↦ h
    ]

    kept :
        (j : ℕ)
        → j ≢ new.id
        → (nodes us j ≡ map_node (parent_node new.parent new.id j) (nodes ts j))
          ⊎ ((nodes us j ≡ none) × (x : Node) × (nodes ts j ≡ some x) × (x.gone ≡ true))
    kept j other = elim (find_task-placed_other new ts j f.distinct other) [
      | inl same ↦
          inl (listed j ∙ rw same (listed_combined (is_option new.parent j) new.id (nodes ts j)))
      | inr (gone, t, e, h) ↦ inr (
        listed j ∙ rw gone (listed_combined (is_option new.parent j) new.id none),
        node t,
        rw e refl,
        h,
      )
    ]
