-- ===== src/Process/Tree.antt =====
-- The process tree (kernel/src/task.rs, `Task::parent` and `Task::children`), apart from how the task
-- list stores it: a partial function from ids to nodes.
pub mod End
pub mod Reap
pub mod Add
use pickle_os.Base.{
  ℕ, ◌≡◌, ◌<◌, ◌==◌, Bool, true, false, ◌++◌, ◌>>=◌, Option, none, some, refl, subst, Option-cases,
  inl, inr, arith, List, [], if◌then◌else◌,
}
use pickle_os.Base.Members.{member, retain_ne}

pub record Node : Type 0 where
  pub parent : Option ℕ
  pub children : List ℕ
  pub gone : Bool

abbrev pub Nodes : Type 0
Nodes = ℕ → Option Node

abbrev pub map_node : (Node → Node) → Option Node → Option Node
map_node f o = o >>= λ x. some (f x)

abbrev pub is_option : Option ℕ → ℕ → Bool
is_option none j = false
is_option (some r) j = r == j

pub is_option_lem : (r : Option ℕ) (j : ℕ) → is_option r j ≡ true → r ≡ some j
is_option_lem none j h = absurd (ground arith)
is_option_lem (some r) j h = ground arith

-- Each node changed by what `g` gives for its id.
unfoldable pub remap : (ℕ → Node → Node) → Nodes → Nodes
remap g ns j = map_node (g j) (ns j)

-- Ids are below `next`. A child listed is a task that is not gone and names its parent, and a task
-- that is not gone is listed by its parent, if that is in the list of tasks.
pub record IsTree (ns : Nodes) (reaper : Option ℕ) (next : ℕ) : Type 0 where
  pub below : (j : ℕ) (x : Node) → ns j ≡ some x → j < next
  pub parent_below : (j p : ℕ) (x : Node) → ns j ≡ some x → x.parent ≡ some p → p < next
  pub reaper_below : (r : ℕ) → reaper ≡ some r → r < next
  pub down :
      (j c : ℕ) (x : Node)
      → ns j ≡ some x
      → member c x.children ≡ true
      → (y : Node) × (ns c ≡ some y) × (y.parent ≡ some j) × (y.gone ≡ false)
  pub up :
      (c p : ℕ) (x y : Node)
      → ns c ≡ some y
      → y.parent ≡ some p
      → y.gone ≡ false
      → ns p ≡ some x
      → member c x.children ≡ true

pub remap-some :
    (g : ℕ → Node → Node) (ns : Nodes) (j : ℕ) (y : Node)
    → ns j ≡ some y
    → remap g ns j ≡ some (g j y)
unfolding remap
remap-some g ns j y e = rw e refl

-- What holds of each changed node holds of a node of the changed tree.
pub remap_cases :
    (P : Node → Type 0) (g : ℕ → Node → Node) (ns : Nodes) (j : ℕ) (x : Node)
    → remap g ns j ≡ some x
    → ((y : Node) → ns j ≡ some y → P (g j y))
    → P x
unfolding remap
remap_cases P g ns j x e each = elim (Option-cases (ns j)) [
  | inl h ↦ absurd (ground (arith, e, h))
  | inr (y, h) ↦ subst P (let same : g j y ≡ x = ground (arith, e, h) in same) (each y h)
]

-- A change of every node keeps a tree, if the changed nodes agree.
pub IsTree-remap :
    (g : ℕ → Node → Node) (ns : Nodes) (reaper : Option ℕ) (next : ℕ)
    → IsTree ns reaper next
    → ((j q : ℕ) (x : Node) → ns j ≡ some x → (g j x).parent ≡ some q → q < next)
    → ((j d : ℕ) (x : Node)
        → ns j ≡ some x
        → member d (g j x).children ≡ true
        → (y : Node) × (ns d ≡ some y) × ((g d y).parent ≡ some j) × ((g d y).gone ≡ false))
    → ((d q : ℕ) (x y : Node)
        → ns d ≡ some y
        → (g d y).parent ≡ some q
        → (g d y).gone ≡ false
        → ns q ≡ some x
        → member d (g q x).children ≡ true)
    → IsTree (remap g ns) reaper next
IsTree-remap g ns reaper next t parents downs ups = record {
  below = λ j x e. remap_cases (λ _. j < next) g ns j x e (λ y h. t.below j y h);
  parent_below =
      λ j q x e. remap_cases (λ x. x.parent ≡ some q → q < next) g ns j x e (parents j q);
  reaper_below = t.reaper_below;
  down = λ j d x e.
      remap_cases
        (λ x.
          member d x.children ≡ true
          → (z : Node) × (remap g ns d ≡ some z) × (z.parent ≡ some j) × (z.gone ≡ false))
        g ns j x e
        (λ y h m.
          let old : (z : Node) × (ns d ≡ some z)
              × ((g d z).parent ≡ some j)
              × ((g d z).gone ≡ false) =
            downs j d y h m in
          (g d old.0, remap-some g ns d old.0 old.1, old.2, old.3));
  up = λ d q x y e m live f.
      remap_cases (λ x. member d x.children ≡ true) g ns q x f
        (λ v h.
          remap_cases (λ y. y.parent ≡ some q → y.gone ≡ false → member d (g q v).children ≡ true) g
            ns d y e (λ w i m live. ups d q v w i m live h) m live);
}
