-- ===== src/Process/Sound/Adds.antt =====
-- Tasks that are started (kernel/src/task.rs).
use pickle_os.Base.{ℕ, ◌<◌, refl, Option, none, some, arith, Option-cases, inl, inr}
use pickle_os.Signal.{sigkill, sig_ign, sig_dfl, nsig, default_terminates}
use pickle_os.Task.{user, Task, Ring, add_task}
use pickle_os.Process.{inherited, Kernel, spawn, set_init_task, do_fork, new_task}
use pickle_os.Signal
use pickle_os.Process.Nodes.{node, find_task-get_elem?}
use pickle_os.Process.Sound.{IsSound-added, Runs, IsValid}

pub IsValid-do_fork :
    (cow : ℕ → ℕ) (k : Kernel) (t : Task) → Runs k t → IsValid k → IsValid (do_fork cow k).0
unfolding do_fork new_task add_task
IsValid-do_fork cow k t (at, up) v = elim (Option-cases t.user_cr3) [
  | inl e ↦ rw (at, e, do_fork) v
  | inr (cr3, e) ↦
      rw (at, e, do_fork)
        (IsSound-added (new_task k.next_id user (some (cow cr3)) (some t.id) (inherited t.signals))
          k.sched k.reaper refl
          (λ p h. ground (
            arith,
            h,
            v.forest.tree.below t.id (node t) (
                rw (find_task-get_elem? k.sched.current k.sched.tasks t v.forest.distinct at) refl),
          ))
          v)
]

pub IsValid-spawn :
    (ring : Ring) (cr3 : Option ℕ) (k : Kernel) → IsValid k → IsValid (spawn ring cr3 k).0
unfolding spawn new_task add_task
IsValid-spawn ring cr3 k v =
    IsSound-added (new_task k.next_id ring cr3 none Signal.new) k.sched k.reaper refl
      (λ p h. absurd (ground (arith, h))) v

pub IsValid-set_init_task :
    (id : ℕ) (k : Kernel) → id < k.next_id → IsValid k → IsValid (set_init_task id k)
unfolding set_init_task
IsValid-set_init_task id k low v = record {
  forest = record {
    distinct = v.forest.distinct;
    tree = record {
      below = v.forest.tree.below;
      parent_below = v.forest.tree.parent_below;
      reaper_below = λ r e. ground (arith, e, low);
      down = v.forest.tree.down;
      up = v.forest.tree.up;
    };
  };
  in_range = v.in_range;
}
