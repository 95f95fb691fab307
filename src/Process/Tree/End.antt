-- ===== src/Process/Tree/End.antt =====
-- A task ends (kernel/src/task.rs, `do_exit` and `terminate_task`): its children go to the reaper.
use pickle_os.Base.{
  ℕ, ◌≡◌, refl, ap, ◌∙◌, sym, subst, ◌==◌, ==_iff, true, false, not, ◌&&◌, ◌||◌, ◌++◌, Option, some,
  List, [], arith, Bool-cases, inl, inr, if◌then◌else◌,
}
use pickle_os.Base.Members.{member, member-append}
use pickle_os.Process.Tree.{Node, Nodes, remap, is_option, is_option_lem, IsTree, IsTree-remap}

-- Task `p` ends, and its children `cs` go to `reaper`.
abbrev pub ended_node : ℕ → List ℕ → Option ℕ → ℕ → Node → Node
ended_node p cs reaper j x = record x {
  parent = if member j cs then reaper else x.parent;
  children = (if p == j then [] else x.children) ++ (if is_option reaper j then cs else []);
}

member-ended_node :
    (p : ℕ) (cs : List ℕ) (reaper : Option ℕ) (j d : ℕ) (x : Node)
    → member d (ended_node p cs reaper j x).children
      ≡ (member d x.children && not (p == j) || member d cs && is_option reaper j)
unfolding member
member-ended_node p cs reaper j d x =
    member-append d (if p == j then [] else x.children) (if is_option reaper j then cs else [])
    ∙ (elim (Bool-cases (p == j)) [
      | inl a ↦ elim (Bool-cases (is_option reaper j)) [
        | inl b ↦ rw (a, b) (ground arith)
        | inr b ↦ rw (a, b) (ground arith)
      ]
      | inr a ↦ elim (Bool-cases (is_option reaper j)) [
        | inl b ↦ rw (a, b) (ground arith)
        | inr b ↦ rw (a, b) (ground arith)
      ]
    ])

pub IsTree-ended :
    (p : ℕ) (ns : Nodes) (reaper : Option ℕ) (next : ℕ) (x : Node)
    → ns p ≡ some x
    → IsTree ns reaper next
    → IsTree (remap (ended_node p x.children reaper) ns) reaper next
IsTree-ended p ns reaper next x at t =
    IsTree-remap (ended_node p x.children reaper) ns reaper next t
      (λ j q y e m. elim (Bool-cases (member j x.children)) [
        | inl moved ↦ t.reaper_below q (ground (arith, moved, m))
        | inr kept ↦ t.parent_below j q y e (ground (arith, kept, m))
      ])
      still
      (λ d q v w e m live f. elim (Bool-cases (member d x.children)) [
        | inl moved ↦ ground (arith, member-ended_node p x.children reaper q d v, m, moved)
        | inr kept ↦
            let listed : member d v.children ≡ true =
              t.up d q v w e (ground (arith, kept, m)) live f in
            elim (Bool-cases (p == q)) [
              | inl ended ↦
                  let same : x ≡ v =
                    ground
                      (arith, sym at ∙ subst (λ i. ns i ≡ some v) (sym ((==_iff p q).0 ended)) f) in
                  absurd (ground (arith, kept, ap (λ n. member d n.children) same, listed))
              | inr other ↦
                  ground (arith, other, listed, member-ended_node p x.children reaper q d v)
            ]
      ])
  where
    still :
        (j d : ℕ) (y : Node)
        → ns j ≡ some y
        → member d (ended_node p x.children reaper j y).children ≡ true
        → (z : Node) × (ns d ≡ some z)
          × ((ended_node p x.children reaper d z).parent ≡ some j)
          × (z.gone ≡ false)
    still j d y e m = elim (Bool-cases (member d x.children)) [
      | inl moved ↦
          let old : (z : Node) × (ns d ≡ some z) × (z.parent ≡ some p) × (z.gone ≡ false) =
            t.down p d x at moved in
          (
            old.0,
            old.1,
            elim (Bool-cases (is_option reaper j)) [
              | inl its ↦ rw (moved, is_option_lem reaper j its) refl
              | inr not_its ↦
                  let own : (z : Node) × (ns d ≡ some z) × (z.parent ≡ some j) × (z.gone ≡ false) =
                    t.down j d y e
                      (ground (arith, m, not_its, member-ended_node p x.children reaper j d y)) in
                  absurd (
                    ground (
                      arith,
                      m,
                      not_its,
                      member-ended_node p x.children reaper j d y,
                      old.1,
                      old.2,
                      own.1,
                      own.2,
                    ))
            ],
            old.3,
          )
      | inr kept ↦
          let old : (z : Node) × (ns d ≡ some z) × (z.parent ≡ some j) × (z.gone ≡ false) =
            t.down j d y e (ground (arith, m, kept, member-ended_node p x.children reaper j d y)) in
          (old.0, old.1, ground (arith, kept, old.2), old.3)
    ]
