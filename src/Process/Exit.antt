-- ===== src/Process/Exit.antt =====
-- What `exit` leaves behind (kernel/src/task.rs, `do_exit`).
use pickle_os.Base.{
  ℕ, ◌≡◌, refl, sym, ◌∙◌, ap, subst, Bool, true, false, ◌&&◌, ◌==◌, Option, none, some, arith,
  Option-cases, inl, inr, if◌then◌else◌,
}
use pickle_os.Base.Maps
use pickle_os.Base.Maps.{nat_key, lookup-remove_self, lookup-remove}
use pickle_os.Base.Members.{member}
use pickle_os.Signal.{sigchld}
use pickle_os.Signal.Pending.{is_pending, set_pending_lem}
use pickle_os.Ipc.{Ipc, cleanup_reply_slot}
use pickle_os.Files.{Files, cleanup_task_fds}
use pickle_os.Files.Accounting.{release_all-tables}
use pickle_os.Wm.{is_owner, destroy_windows_owned_by}
use pickle_os.Wm.Ownership.{destroy_windows_owned_by_lem}
use pickle_os.Task.{
  Task, State, runnable, blocked, zombie, running, dead, is_blocked, is_zombie, find_task,
  current_task,
}
use pickle_os.Process.{as_u32, Kernel, retire, set_parent, adopt, child_died, do_exit}
use pickle_os.Process.Tree.{is_option}
use pickle_os.Process.Nodes.{find_task-get_elem?}
use pickle_os.Process.Aftermath.{when, ended_task, after_exit}
use pickle_os.Process.Moved.{Moved}
use pickle_os.Process.Sound.{Runs, IsValid}

-- What no part of a change touches stays.
when_keeps :
    {A : Type 0} (field : Task → A) (b : Bool) (f : Task → Task) (x : Task)
    → ((y : Task) → field (f y) ≡ field y)
    → field (when b f x) ≡ field x
when_keeps field true f x keep = keep x
when_keeps field false f x keep = refl

woken_zombie :
    (st : State) (b : Bool) → is_zombie (if is_blocked st && b then runnable else st) ≡ is_zombie st
woken_zombie blocked true = refl
woken_zombie blocked false = refl
woken_zombie runnable b = refl
woken_zombie running b = refl
woken_zombie zombie b = refl
woken_zombie dead b = refl

-- The task that ended is a zombie with its status.
pub ended_task_lem :
    (p status : ℕ) (r : Option ℕ) (t x : Task)
    → (is_zombie (ended_task p status r t p x).state ≡ true)
      × ((ended_task p status r t p x).exit_status ≡ status)
ended_task_lem p status r t x =
    let at : p == p ≡ true = ground arith in
    let one : Task = when (p == p) (retire status) x in
    let two : Task = when (member p t.children) (set_parent r) one in
    let three : Task = when (is_option r p) (adopt t.children) two in
    (
      when_keeps (λ y. is_zombie y.state) (is_option t.parent p) child_died three
            (λ y. woken_zombie y.state y.wait_blocked)
          ∙ when_keeps (λ y. is_zombie y.state) (is_option r p) (adopt t.children) two (λ y. refl)
          ∙ when_keeps (λ y. is_zombie y.state) (member p t.children) (set_parent r) one (λ y. refl)
          ∙ rw at refl,
      when_keeps (λ y. y.exit_status) (is_option t.parent p) child_died three (λ y. refl)
          ∙ when_keeps (λ y. y.exit_status) (is_option r p) (adopt t.children) two (λ y. refl)
          ∙ when_keeps (λ y. y.exit_status) (member p t.children) (set_parent r) one (λ y. refl)
          ∙ rw at refl,
    )

wakes : (st : State) → is_blocked (if is_blocked st && true then runnable else st) ≡ false
wakes blocked = refl
wakes runnable = refl
wakes running = refl
wakes zombie = refl
wakes dead = refl

is_option_self : (p : ℕ) → is_option (some p) p ≡ true
is_option_self p = ground arith

do_exit-files :
    (status : ℕ) (k : Kernel) (t : Task)
    → current_task k.sched ≡ some t
    → (do_exit status k).files ≡ cleanup_task_fds (as_u32 t.id) k.files
unfolding do_exit
do_exit-files status k t e = rw (e, do_exit) refl

do_exit-ipc :
    (status : ℕ) (k : Kernel) (t : Task)
    → current_task k.sched ≡ some t
    → (do_exit status k).ipc ≡ cleanup_reply_slot t.id k.ipc
unfolding do_exit
do_exit-ipc status k t e = rw (e, do_exit) refl

do_exit-wm :
    (status : ℕ) (k : Kernel) (t : Task)
    → current_task k.sched ≡ some t
    → (do_exit status k).wm ≡ (destroy_windows_owned_by t.id k.wm).0
unfolding do_exit
do_exit-wm status k t e = rw (e, do_exit) refl

cleaned_reply : (task : ℕ) (s : Ipc) → Maps.lookup task (cleanup_reply_slot task s).replies ≡ none
unfolding cleanup_reply_slot
cleaned_reply task s = lookup-remove_self task s.replies

cleanup_task_fds-tables :
    (task : ℕ) (s : Files) → Maps.lookup task (cleanup_task_fds task s).tables ≡ none
unfolding cleanup_task_fds
cleanup_task_fds-tables task s =
    let removed : Files = record s { tables = Maps.remove task s.tables } in
    elim (Option-cases (Maps.lookup task s.tables)) [
      | inl e ↦ rw (e, cleanup_task_fds) (lookup-remove_self task s.tables)
      | inr (t, e) ↦
          rw (e, cleanup_task_fds)
            (ap (λ m. Maps.lookup task m) (release_all-tables (Maps.values t.files) removed).0
              ∙ lookup-remove_self task s.tables)
    ]

-- What holds after the exit of task `t`.
abbrev pub Exited : ℕ → Kernel → Task → Type 0
Exited status k t =
    let l : Kernel = do_exit status k in
    ((u : Task) × (find_task t.id l.sched.tasks ≡ some u)
      × (is_zombie u.state ≡ true)
      × (u.exit_status ≡ status))
    × ((c : ℕ) (x : Task)
        → member c t.children ≡ true
        → find_task c k.sched.tasks ≡ some x
        → (u : Task) × (find_task c l.sched.tasks ≡ some u) × (u.parent ≡ k.reaper))
    × ((p : ℕ) (x : Task)
        → t.parent ≡ some p
        → find_task p k.sched.tasks ≡ some x
        → (u : Task) × (find_task p l.sched.tasks ≡ some u)
          × (is_pending u.signals sigchld ≡ true)
          × (x.wait_blocked ≡ true → is_blocked u.state ≡ false))
    × (Maps.lookup (as_u32 t.id) l.files.tables ≡ none)
    × (Maps.lookup t.id l.ipc.replies ≡ none)
    × ((w : ℕ) → is_owner w t.id k.wm ≡ true → Maps.lookup w l.wm.windows ≡ none)

-- When the running task `t` exits, its slot is a zombie with the status; its children name the
-- reaper as their parent; its parent has SIGCHLD pending and is not blocked
-- if it was waiting for a child; and `t` has neither descriptors nor a reply slot nor a window.
pub do_exit_lem :
    (status : ℕ) (k : Kernel) (t : Task)
    → Runs k t
    → IsValid k
    → Maps.Distinct k.wm.windows
    → Exited status k t
do_exit_lem status k t runs v d = (
  own,
  children,
  parents,
  ap (λ f. Maps.lookup (as_u32 t.id) f.tables) (do_exit-files status k t runs.0)
      ∙ cleanup_task_fds-tables (as_u32 t.id) k.files,
  ap (λ i. Maps.lookup t.id i.replies) (do_exit-ipc status k t runs.0) ∙ cleaned_reply t.id k.ipc,
  λ w own.
      ap (λ m. Maps.lookup w m.windows) (do_exit-wm status k t runs.0)
      ∙ ground (arith, own, (destroy_windows_owned_by_lem t.id k.wm d).0 w),
)
  where
    l : Kernel
    l = do_exit status k

    own :
        (u : Task) × (find_task t.id l.sched.tasks ≡ some u)
        × (is_zombie u.state ≡ true)
        × (u.exit_status ≡ status)
    own =
        let w : Task = ended_task t.id status k.reaper t t.id t in
        let r : (u : Task) × (find_task t.id l.sched.tasks ≡ some u) × Moved w u =
          after_exit status k t runs v t.id t
            (find_task-get_elem? k.sched.current k.sched.tasks t v.forest.distinct runs.0) in
        let z : (is_zombie w.state ≡ true) × (w.exit_status ≡ status) =
          ended_task_lem t.id status k.reaper t t in
        let same : r.0 ≡ w = r.2.zombie_stays z.0 in
        (r.0, r.1, ap (λ y. is_zombie y.state) same ∙ z.0, ap (λ y. y.exit_status) same ∙ z.1)

    children :
        (c : ℕ) (x : Task)
        → member c t.children ≡ true
        → find_task c k.sched.tasks ≡ some x
        → (u : Task) × (find_task c l.sched.tasks ≡ some u) × (u.parent ≡ k.reaper)
    children c x m e =
        let r : (u : Task) × (find_task c l.sched.tasks ≡ some u)
            × Moved (ended_task t.id status k.reaper t c x) u =
          after_exit status k t runs v c x e in
        let one : Task = when (t.id == c) (retire status) x in
        let two : Task = when (member c t.children) (set_parent k.reaper) one in
        let three : Task = when (is_option k.reaper c) (adopt t.children) two in
        (
          r.0,
          r.1,
          ap (λ y. y.parent) r.2.only_state
              ∙ when_keeps (λ y. y.parent) (is_option t.parent c) child_died three (λ y. refl)
              ∙ when_keeps (λ y. y.parent) (is_option k.reaper c) (adopt t.children) two (λ y. refl)
              ∙ rw m refl,
        )

    parents :
        (p : ℕ) (x : Task)
        → t.parent ≡ some p
        → find_task p k.sched.tasks ≡ some x
        → (u : Task) × (find_task p l.sched.tasks ≡ some u)
          × (is_pending u.signals sigchld ≡ true)
          × (x.wait_blocked ≡ true → is_blocked u.state ≡ false)
    parents p x is_parent e =
        let r : (u : Task) × (find_task p l.sched.tasks ≡ some u)
            × Moved (ended_task t.id status k.reaper t p x) u =
          after_exit status k t runs v p x e in
        let one : Task = when (t.id == p) (retire status) x in
        let two : Task = when (member p t.children) (set_parent k.reaper) one in
        let three : Task = when (is_option k.reaper p) (adopt t.children) two in
        let w : Task = child_died three in
        let same : ended_task t.id status k.reaper t p x ≡ w =
          rw (is_parent, is_option_self p) refl in
        let moved : Moved w r.0 = subst (λ y. Moved y r.0) same r.2 in
        (
          r.0,
          r.1,
          ap (λ y. is_pending y.signals sigchld) moved.only_state
              ∙ ground (arith, set_pending_lem three.signals sigchld sigchld (omega arith)),
          λ waits. moved.not_blocked (
              let waited : three.wait_blocked ≡ true =
                when_keeps (λ y. y.wait_blocked) (is_option k.reaper p) (adopt t.children) two
                  (λ y. refl)
                ∙ when_keeps (λ y. y.wait_blocked) (member p t.children) (set_parent k.reaper) one
                    (λ y. refl)
                ∙ when_keeps (λ y. y.wait_blocked) (t.id == p) (retire status) x (λ y. refl)
                ∙ waits in
              subst
                (λ b.
                  is_blocked (if is_blocked three.state && b then runnable else three.state)
                  ≡ false)
                (sym waited) (wakes three.state)),
        )
