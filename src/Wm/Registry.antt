-- ===== src/Wm/Registry.antt =====
-- Every operation keeps the registry valid (kernel/src/wm.rs).
use pickle_os.Base.{
  ℕ, ◌+◌, ◌*◌, Bool, true, false, ◌||◌, ◌≡◌, refl, subst, List, [], ◌∷◌, arith, ◌==◌, ==_iff, leb,
  Bool-cases, inl, inr, rest, min, length, replicate, ltb,
}
use pickle_os.Base.Maps
use pickle_os.Base.Maps.{
  Map, nat_key, contains_key, lookup-insert, lookup-remove, length-insert, length-remove, Distinct,
  Distinct-insert, Distinct-remove,
}
use pickle_os.Wm.{
  ServerWindow, Wm, WmEvent, max_w, max_h, max_windows, with_window, bump_if, blit, enqueue_event,
  create_window, commit, destroy_window, set_title, poll_event, set_position, push_event,
  take_pending_new, take_pending_destroy, owned_ids, destroy_windows_owned_by,
}
use pickle_os.Wm.Windows.{
  IsValidWindow, Registered, IsValid, with_window-IsValid, blit-IsValidWindow, length-rest,
  length-replicate, enqueue_event-IsValidWindow, remove-Registered, remove_all-Registered,
}

-- Registration: either refused with nothing changed, or a new valid window under a fresh id.
pub create_window-IsValid :
    (owner w h : ℕ) (title : List ℕ) (s : Wm)
    → IsValid s
    → IsValid (create_window owner w h title s).0
unfolding create_window
create_window-IsValid owner w h title s v = elim (Bool-cases (w == 0 || h == 0)) [
  | inl none_asked ↦ rw none_asked v
  | inr sizes ↦ elim (Bool-cases (leb max_windows (length s.windows))) [
    | inl full ↦ rw (sizes, full) v
    | inr space ↦ rw (sizes, space) (added sizes space)
  ]
]
  where
    new : ServerWindow
    new = record {
      id = s.next_id;
      owner = owner;
      x = 0;
      y = 0;
      w = min w max_w;
      h = min h max_h;
      title = title;
      pixels = replicate (min w max_w * min h max_h) 0;
      buf_seq = 0;
      events = [];
    }

    new_valid : (w == 0 || h == 0) ≡ false → IsValidWindow s.next_id new
    new_valid sizes = record {
      own_id = refl;
      width = ground arith;
      height = ground arith;
      area = length-replicate (min w max_w * min h max_h);
      queue = omega arith;
    }

    added :
        (w == 0 || h == 0) ≡ false
        → leb max_windows (length s.windows) ≡ false
        → Registered (s.next_id + 1) (Maps.insert s.next_id new s.windows)
    added sizes space = record {
      windows_valid = λ j w' e. elim (Bool-cases (s.next_id == j)) [
        | inl same ↦
            (let at : s.next_id ≡ j = (==_iff s.next_id j).0 same in
              let is : new ≡ w' = ground (arith, lookup-insert s.next_id j new s.windows) in
              subst (λ i. IsValidWindow i w') at
                (subst (IsValidWindow s.next_id) is (new_valid sizes)))
        | inr other ↦ v.windows_valid j w' (ground (arith, lookup-insert s.next_id j new s.windows))
      ];
      ids_below = λ j e. ground (arith, v.ids_below j, lookup-insert s.next_id j new s.windows);
      few = ground (arith, v.few, length-insert s.next_id new s.windows);
      distinct = Distinct-insert s.next_id new s.windows v.distinct;
    }

bump_if-IsValid : (r : Wm × Bool) → IsValid r.0 → IsValid (bump_if r).0
bump_if-IsValid (s, true) v = v
bump_if-IsValid (s, false) v = v

destroy_window-IsValid : (id : ℕ) (s : Wm) → IsValid s → IsValid (destroy_window id s).0
unfolding destroy_window
destroy_window-IsValid id s v = elim (Bool-cases (contains_key id s.windows)) [
  | inr absent ↦ rw absent v
  | inl present ↦ rw present (remove-Registered id s.next_id s.windows v)
]

destroy_owned-IsValid :
    (owner : ℕ) (s : Wm) → IsValid s → IsValid (destroy_windows_owned_by owner s).0
unfolding destroy_windows_owned_by
destroy_owned-IsValid owner s v = elim (Bool-cases (ltb 0 (length (owned_ids owner s.windows)))) [
  | inr empty ↦ rw empty (remove_all-Registered (owned_ids owner s.windows) s.next_id s.windows v)
  | inl some_owned ↦
      rw some_owned (remove_all-Registered (owned_ids owner s.windows) s.next_id s.windows v)
]

-- The requests of the clients and of the window server.
pub data Request : Type 0 where
  create_request : (owner w h : ℕ) (title : List ℕ) → Request
  commit_request : (id : ℕ) (src : List ℕ) → Request
  destroy_request : (id : ℕ) → Request
  exit_request : (owner : ℕ) → Request
  title_request : (id : ℕ) (title : List ℕ) → Request
  poll_request : (id : ℕ) → Request
  new_request : Request
  destroyed_request : Request
  position_request : (id x y : ℕ) → Request
  push_request : (id : ℕ) (ev : WmEvent) → Request

abbrev pub handle : Request → Wm → Wm
handle (create_request owner w h title) s = (create_window owner w h title s).0
handle (commit_request id src) s = (commit id src s).0
handle (destroy_request id) s = (destroy_window id s).0
handle (exit_request owner) s = (destroy_windows_owned_by owner s).0
handle (title_request id title) s = (set_title id title s).0
handle (poll_request id) s = (poll_event id s).0
handle new_request s = (take_pending_new s).0
handle destroyed_request s = (take_pending_destroy s).0
handle (position_request id x y) s = set_position id x y s
handle (push_request id ev) s = push_event id ev s

abbrev pub handle_all : List Request → Wm → Wm
handle_all [] s = s
handle_all (r ∷ rs) s = handle_all rs (handle r s)

handle-IsValid : (r : Request) (s : Wm) → IsValid s → IsValid (handle r s)
unfolding commit set_title poll_event take_pending_new take_pending_destroy set_position push_event
handle-IsValid (create_request owner w h title) s v = create_window-IsValid owner w h title s v
handle-IsValid (commit_request id src) s v =
    bump_if-IsValid (with_window id (blit src) s)
      (with_window-IsValid id (blit src) s (blit-IsValidWindow id src) v)
handle-IsValid (destroy_request id) s v = destroy_window-IsValid id s v
handle-IsValid (exit_request owner) s v = destroy_owned-IsValid owner s v
handle-IsValid (title_request id title) s v =
    bump_if-IsValid (with_window id (λ win. record win { title = title }) s) (
      with_window-IsValid id (λ win. record win { title = title }) s
        (λ win k. record {
          own_id = k.own_id;
          width = k.width;
          height = k.height;
          area = k.area;
          queue = k.queue;
        })
        v)
handle-IsValid (poll_request id) s v =
    with_window-IsValid id (λ win. record win { events = rest win.events }) s
      (λ win k. record {
        own_id = k.own_id;
        width = k.width;
        height = k.height;
        area = k.area;
        queue = omega (arith, k.queue, length-rest win.events);
      })
      v
handle-IsValid new_request s v = v
handle-IsValid destroyed_request s v = v
handle-IsValid (position_request id x y) s v =
    with_window-IsValid id (λ win. record win { x = x; y = y }) s
      (λ win k. record {
        own_id = k.own_id;
        width = k.width;
        height = k.height;
        area = k.area;
        queue = k.queue;
      })
      v
handle-IsValid (push_request id ev) s v =
    with_window-IsValid id (enqueue_event ev) s (enqueue_event-IsValidWindow id ev) v

-- From a valid registry, whatever requests come, in any order, it stays valid: at most sixteen
-- windows, each under its own id below the next one, within the size caps, with a backing store
-- of exactly its area and at most 64 queued events.
pub handle_all-IsValid : (rs : List Request) (s : Wm) → IsValid s → IsValid (handle_all rs s)
handle_all-IsValid [] s v = v
handle_all-IsValid (r ∷ rs) s v = handle_all-IsValid rs (handle r s) (handle-IsValid r s v)
