-- ===== src/Process/Nodes.antt =====
-- The task list as a process tree (kernel/src/task.rs): ids are distinct, and each in-place update of
-- the list is a change of nodes.
pub mod Ends
pub mod Adds
pub mod Scheduling
use pickle_os.Base.{
  ℕ, suc, zero, ◌≡◌, refl, sym, subst, ap, ◌∙◌, ◌+◌, ◌<◌, ◌==◌, Bool, true, false, Option, none,
  some, List, [], ◌∷◌, arith, Bool-cases, Option-cases, inl, inr, if◌then◌else◌, get_elem?, length,
  ◌>>=◌,
}
use pickle_os.Base.Members.{member}
use pickle_os.Task.{Task, is_dead, find_task, update_task, modify_at}
use pickle_os.Task.Find.{find_task-update_task, map_option}
use pickle_os.Process.Tree.{Node, Nodes, map_node}

abbrev pub node : Task → Node
node t = record { parent = t.parent; children = t.children; gone = is_dead t.state }

abbrev pub nodes : List Task → Nodes
nodes ts j = find_task j ts >>= λ t. some (node t)

unfoldable pub ids : List Task → List ℕ
ids [] = []
ids (t ∷ ts) = t.id ∷ ids ts

unfoldable pub Distinct : List ℕ → Type 0
Distinct [] = Unit
Distinct (x ∷ xs) = (member x xs ≡ false) × Distinct xs

pub ids-update_task :
    (id : ℕ) (f : Task → Task) (ts : List Task)
    → ((t : Task) → (f t).id ≡ t.id)
    → ids (update_task id f ts) ≡ ids ts
unfolding ids update_task
ids-update_task id f [] keep = refl
ids-update_task id f (t ∷ ts) keep = ground (arith, keep t, ids-update_task id f ts keep)

pub find_task-ids : (id : ℕ) (ts : List Task) → find_task id ts ≡ none → member id (ids ts) ≡ false
unfolding find_task ids member
find_task-ids id [] e = refl
find_task-ids id (t ∷ ts) e = ground (arith, e, find_task-ids id ts)

pub ids-find_task : (id : ℕ) (ts : List Task) → member id (ids ts) ≡ false → find_task id ts ≡ none
unfolding find_task ids member
ids-find_task id [] e = refl
ids-find_task id (t ∷ ts) e = ground (arith, e, ids-find_task id ts)

-- A task at an index is found by its id.
pub find_task-get_elem? :
    (i : ℕ) (ts : List Task) (t : Task)
    → Distinct (ids ts)
    → get_elem? ts i ≡ some t
    → find_task t.id ts ≡ some t
unfolding find_task ids Distinct
find_task-get_elem? i [] t d e = absurd (ground (arith, e))
find_task-get_elem? zero (u ∷ ts) t d e = ground (arith, e)
find_task-get_elem? (suc i) (u ∷ ts) t d e =
    let later : find_task t.id ts ≡ some t = find_task-get_elem? i ts t d.1 e in
    let first : find_task u.id ts ≡ none = ids-find_task u.id ts d.0 in
    elim (Bool-cases (u.id == t.id)) [
      | inl h ↦ absurd (ground (arith, h, first, later))
      | inr h ↦ ground (arith, h, later)
    ]

-- With distinct ids, a change at an index is a change by id.
pub modify_at-update_task :
    (i : ℕ) (f : Task → Task) (ts : List Task) (t : Task)
    → Distinct (ids ts)
    → get_elem? ts i ≡ some t
    → modify_at i f ts ≡ update_task t.id f ts
unfolding modify_at update_task ids Distinct
modify_at-update_task i f [] t d e = absurd (ground (arith, e))
modify_at-update_task zero f (u ∷ ts) t d e = ground (arith, e)
modify_at-update_task (suc i) f (u ∷ ts) t d e =
    let later : find_task t.id ts ≡ some t = find_task-get_elem? i ts t d.1 e in
    let first : find_task u.id ts ≡ none = ids-find_task u.id ts d.0 in
    elim (Bool-cases (u.id == t.id)) [
      | inl h ↦ absurd (ground (arith, h, first, later))
      | inr h ↦ ground (arith, h, modify_at-update_task i f ts t d.1 e)
    ]

pub nodes-update_task :
    (id : ℕ) (f : Task → Task) (g : Node → Node) (ts : List Task)
    → ((t : Task) → (f t).id ≡ t.id)
    → ((t : Task) → node (f t) ≡ g (node t))
    → (j : ℕ)
    → nodes (update_task id f ts) j ≡ (if id == j then map_node g (nodes ts j) else nodes ts j)
nodes-update_task id f g ts keep same j = elim (Option-cases (find_task j ts)) [
  | inl h ↦ ground (arith, h, find_task-update_task id j f ts keep)
  | inr (t, h) ↦ ground (arith, h, same t, find_task-update_task id j f ts keep)
]

-- Two task lists with the same ids and nodes.
pub record Alike (us ts : List Task) : Type 0 where
  pub same_ids : ids us ≡ ids ts
  pub same_nodes : (j : ℕ) → nodes us j ≡ nodes ts j

pub Alike-trans : (us ts vs : List Task) → Alike us ts → Alike ts vs → Alike us vs
Alike-trans us ts vs a b = record {
  same_ids = a.same_ids ∙ b.same_ids;
  same_nodes = λ j. a.same_nodes j ∙ b.same_nodes j;
}

-- A change of one task that keeps its id and its node.
pub Alike-update_task :
    (id : ℕ) (f : Task → Task) (ts : List Task)
    → ((t : Task) → (f t).id ≡ t.id)
    → ((t : Task) → node (f t) ≡ node t)
    → Alike (update_task id f ts) ts
Alike-update_task id f ts keep same = record {
  same_ids = ids-update_task id f ts keep;
  same_nodes = λ j. elim (Option-cases (find_task j ts)) [
    | inl h ↦ ground (arith, h, find_task-update_task id j f ts keep)
    | inr (t, h) ↦ ground (arith, h, same t, find_task-update_task id j f ts keep)
  ];
}

pub Alike-modify_at :
    (i : ℕ) (f : Task → Task) (ts : List Task)
    → ((t : Task) → get_elem? ts i ≡ some t → ((f t).id ≡ t.id) × (node (f t) ≡ node t))
    → Alike (modify_at i f ts) ts
unfolding modify_at ids find_task
Alike-modify_at i f [] keep = record { same_ids = refl; same_nodes = λ j. refl }
Alike-modify_at zero f (t ∷ ts) keep =
    let k : ((f t).id ≡ t.id) × (node (f t) ≡ node t) = keep t refl in
    record {
      same_ids = ap (λ id. id ∷ ids ts) k.0;
      same_nodes = λ j. elim (Bool-cases (t.id == j)) [
        | inl h ↦ ground (arith, h, k.0, ap (λ n. some n) k.1)
        | inr h ↦ ground (arith, h, k.0)
      ];
    }
Alike-modify_at (suc i) f (t ∷ ts) keep =
    let rest : Alike (modify_at i f ts) ts = Alike-modify_at i f ts keep in
    record {
      same_ids = ap (λ l. t.id ∷ l) rest.same_ids;
      same_nodes = λ j. elim (Bool-cases (t.id == j)) [
        | inl h ↦ ground (arith, h)
        | inr h ↦ ground (arith, h, rest.same_nodes j)
      ];
    }

length-ids : (ts : List Task) → length (ids ts) ≡ length ts
unfolding ids
length-ids [] = refl
length-ids (t ∷ ts) = ap suc (length-ids ts)

pub length-ids_same : (us ts : List Task) → ids us ≡ ids ts → length us ≡ length ts
length-ids_same us ts e = sym (length-ids us) ∙ ap (λ l. length l) e ∙ length-ids ts
