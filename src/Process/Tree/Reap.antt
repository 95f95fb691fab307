-- ===== src/Process/Tree/Reap.antt =====
-- A zombie leaves the process tree (kernel/src/task.rs, `do_wait` and `reap_orphans`).
use pickle_os.Base.{
  ℕ, ◌≡◌, sym, subst, ◌==◌, ==_iff, true, false, ◌||◌, Option, some, arith, Bool-cases, inl, inr,
  if◌then◌else◌,
}
use pickle_os.Base.Members.{member, retain_ne, member-retain_ne}
use pickle_os.Process.Tree.{Node, Nodes, remap, IsTree, IsTree-remap}

abbrev pub drop_child : ℕ → Node → Node
drop_child c x = record x { children = retain_ne c x.children }

abbrev pub leave : Node → Node
leave x = record x { gone = true }

-- `c` is gone, and `p` forgets it.
abbrev pub reaped_node : ℕ → ℕ → ℕ → Node → Node
reaped_node c p j x = record x {
  children = if p == j then retain_ne c x.children else x.children;
  gone = x.gone || c == j;
}

pub IsTree-reaped :
    (c p : ℕ) (ns : Nodes) (reaper : Option ℕ) (next : ℕ)
    → ((y : Node) → ns c ≡ some y → y.parent ≡ some p)
    → IsTree ns reaper next
    → IsTree (remap (reaped_node c p) ns) reaper next
IsTree-reaped c p ns reaper next child t =
    IsTree-remap (reaped_node c p) ns reaper next t t.parent_below still (λ d q x y e m live f.
      let listed = t.up d q x y e m (ground arith) f in
      ground (arith, listed, live, member-retain_ne c d x.children))
  where
    still :
        (j d : ℕ) (x : Node)
        → ns j ≡ some x
        → member d (reaped_node c p j x).children ≡ true
        → (y : Node) × (ns d ≡ some y) × (y.parent ≡ some j) × ((reaped_node c p d y).gone ≡ false)
    still j d x e m =
        let old : (z : Node) × (ns d ≡ some z) × (z.parent ≡ some j) × (z.gone ≡ false) =
          t.down j d x e (ground (arith, m, member-retain_ne c d x.children)) in
        (
          old.0,
          old.1,
          old.2,
          elim (Bool-cases (c == d)) [
            | inl same ↦
                let owned : old.0.parent ≡ some p =
                  child old.0 (subst (λ i. ns i ≡ some old.0) (sym ((==_iff c d).0 same)) old.1) in
                absurd (ground (arith, m, member-retain_ne c d x.children, owned, old.2, same))
            | inr other ↦ ground (arith, other, old.3)
          ],
        )
