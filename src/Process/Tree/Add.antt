-- ===== src/Process/Tree/Add.antt =====
-- A task joins the process tree (kernel/src/task.rs, `Scheduler::add_task` and `do_fork`).
use pickle_os.Base.{
  ℕ, ◌≡◌, refl, sym, subst, ap, ◌∙◌, ◌+◌, ◌<◌, ◌≢◌, ◌⊎◌, ◌==◌, ==_iff, true, false, ◌&&◌, ◌||◌,
  ◌++◌, Option, none, some, [], ◌∷◌, arith, Bool-cases, Option-cases, inl, inr, if◌then◌else◌,
}
use pickle_os.Base.Members.{member, member-append}
use pickle_os.Process.Tree.{Node, Nodes, IsTree, map_node, is_option, is_option_lem}

-- `parent` lists the new task `n`.
abbrev pub parent_node : Option ℕ → ℕ → ℕ → Node → Node
parent_node parent n j x = record x {
  children = if is_option parent j then x.children ++ n ∷ [] else x.children;
}

abbrev pub new_node : Option ℕ → Node
new_node parent = record { parent = parent; children = []; gone = false }

member-parent_node :
    (parent : Option ℕ) (n j d : ℕ) (x : Node)
    → member d (parent_node parent n j x).children
      ≡ (member d x.children || is_option parent j && n == d)
unfolding member
member-parent_node parent n j d x = elim (Bool-cases (is_option parent j)) [
  | inl h ↦ rw h (ground (arith, member-append d x.children (n ∷ [])))
  | inr h ↦ rw h (ground arith)
]

new_node-children : (parent : Option ℕ) (c : ℕ) → ¬ (member c (new_node parent).children ≡ true)
unfolding member
new_node-children parent c m = ground (arith, m)

-- The tree `after` has the new task, and has lost no node but one that was gone.
pub record Grown (parent : Option ℕ) (n : ℕ) (ns after : Nodes) : Type 0 where
  pub fresh : after n ≡ some (new_node parent)
  pub kept :
      (j : ℕ)
      → j ≢ n
      → (after j ≡ map_node (parent_node parent n j) (ns j))
        ⊎ ((after j ≡ none) × (x : Node) × (ns j ≡ some x) × (x.gone ≡ true))

module _ (parent : Option ℕ) (n : ℕ) (ns after : Nodes) (grown : Grown parent n ns after) where
  backward :
      (j : ℕ) (x : Node)
      → after j ≡ some x
      → ((j ≡ n) × (new_node parent ≡ x))
        ⊎ ((j ≢ n) × (y : Node) × (ns j ≡ some y) × (parent_node parent n j y ≡ x))
  backward j x e = elim (Bool-cases (j == n)) [
    | inl new ↦
        let same : j ≡ n = (==_iff j n).0 new in
        inl (same, ground (arith, sym grown.fresh ∙ subst (λ i. after i ≡ some x) same e))
    | inr old ↦
        let other : j ≢ n = λ h. ground (arith, old, h) in
        elim (grown.kept j other) [
          | inl k ↦ elim (Option-cases (ns j)) [
            | inl h ↦ absurd (ground (arith, e, k, h))
            | inr (y, h) ↦ inr (other, y, h, ground (arith, sym k ∙ e, h))
          ]
          | inr (gone, _, _, _) ↦ absurd (ground (arith, gone, e))
        ]
  ]

  forward :
      (j : ℕ) (x : Node)
      → j ≢ n
      → ns j ≡ some x
      → x.gone ≡ false
      → after j ≡ some (parent_node parent n j x)
  forward j x other e live = elim (grown.kept j other) [
    | inl k ↦ k ∙ ap (map_node (parent_node parent n j)) e
    | inr (_, y, f, gone) ↦ absurd (ground (arith, e, f, gone, live))
  ]

  pub IsTree-grown :
      (reaper : Option ℕ)
      → ((p : ℕ) → parent ≡ some p → p < n)
      → IsTree ns reaper n
      → IsTree after reaper (n + 1)
  IsTree-grown reaper low t = record {
    below = λ j x e. elim (backward j x e) [
      | inl (same, _) ↦ ground (arith, same)
      | inr (_, y, f, _) ↦ ground (arith, t.below j y f)
    ];
    parent_below = λ j p x e m. elim (backward j x e) [
      | inl (_, same) ↦ ground (arith, low p (ground (arith, same, m)))
      | inr (_, y, f, same) ↦ ground (arith, t.parent_below j p y f (ground (arith, same, m)))
    ];
    reaper_below = λ r e. ground (arith, t.reaper_below r e);
    down = λ j c x e m. elim (backward j x e) [
      | inl (_, same) ↦
          absurd (new_node-children parent c (subst (λ z. member c z.children ≡ true) (sym same) m))
      | inr (_, y, f, same) ↦ listed j c y f (subst (λ z. member c z.children ≡ true) (sym same) m)
    ];
    up = λ c p x y e m live f. elim (backward c y e) [
      | inl (is_new, same) ↦
          let mine : parent ≡ some p = ground (arith, same, m) in
          found c p x y (low p mine) f
            (λ v g. ground (arith, is_new, mine, member-parent_node parent n p c v))
      | inr (_, w, g, same) ↦
          let mine : w.parent ≡ some p = ground (arith, same, m) in
          found c p x y (t.parent_below c p w g mine) f (λ v h. ground (
            arith,
            t.up c p v w g mine (ground (arith, same, live)) h,
            member-parent_node parent n p c v,
          ))
    ];
  }
    where
      listed :
          (j c : ℕ) (y : Node)
          → ns j ≡ some y
          → member c (parent_node parent n j y).children ≡ true
          → (z : Node) × (after c ≡ some z) × (z.parent ≡ some j) × (z.gone ≡ false)
      listed j c y f m = elim (Bool-cases (member c y.children)) [
        | inl had ↦
            let old : (z : Node) × (ns c ≡ some z) × (z.parent ≡ some j) × (z.gone ≡ false) =
              t.down j c y f had in
            (
              parent_node parent n c old.0,
              forward c old.0 (ground (arith, t.below c old.0 old.1)) old.1 old.3,
              old.2,
              old.3,
            )
        | inr new ↦
            (let its : is_option parent j ≡ true =
                ground (arith, m, new, member-parent_node parent n j c y) in
              let c_new : n ≡ c = ground (arith, m, new, member-parent_node parent n j c y) in
              (
                new_node parent,
                subst (λ i. after i ≡ some (new_node parent)) c_new grown.fresh,
                is_option_lem parent j its,
                refl,
              ))
      ]

      found :
          (c p : ℕ) (x y : Node)
          → p < n
          → after p ≡ some x
          → ((v : Node) → ns p ≡ some v → member c (parent_node parent n p v).children ≡ true)
          → member c x.children ≡ true
      found c p x y h e each = elim (backward p x e) [
        | inl (same, _) ↦ absurd (ground (arith, h, same))
        | inr (_, v, f, same) ↦ subst (λ z. member c z.children ≡ true) same (each v f)
      ]
