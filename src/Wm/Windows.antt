-- ===== src/Wm/Windows.antt =====
-- What a valid window and a valid registry are (kernel/src/wm.rs).
use pickle_os.Base.{
  ℕ, suc, zero, ◌-◌, ◌*◌, ◌≤◌, ◌<◌, true, ◌≡◌, refl, ap, subst, some, List, [], ◌∷◌, ◌++◌, arith,
  ◌==◌, ==_iff, if◌then◌else◌, leb, Option-cases, Bool-cases, inl, inr, rest, min, length,
  length-append, length-take, length-drop, take, drop, replicate,
}
use pickle_os.Base.Maps
use pickle_os.Base.Maps.{
  Map, nat_key, contains_key, lookup-insert, lookup-remove, length-insert, length-remove, Distinct,
  Distinct-insert, Distinct-remove,
}
use pickle_os.Wm.{
  ServerWindow, Wm, WmEvent, max_w, max_h, max_windows, event_queue_cap, with_window, blit,
  enqueue_event, init, remove_all,
}

-- A window under its own id, within the size caps, with a backing store of its size and a queue
-- within its capacity.
pub record IsValidWindow (id : ℕ) (win : ServerWindow) : Type 0 where
  pub own_id : win.id ≡ id
  pub width : (0 < win.w) × (win.w ≤ max_w)
  pub height : (0 < win.h) × (win.h ≤ max_h)
  pub area : length win.pixels ≡ win.w * win.h
  pub queue : length win.events ≤ event_queue_cap

pub record Registered (next_id : ℕ) (windows : Map ℕ ServerWindow) : Type 0 where
  pub windows_valid :
      (id : ℕ) (win : ServerWindow) → Maps.lookup id windows ≡ some win → IsValidWindow id win
  pub ids_below : (id : ℕ) → contains_key id windows ≡ true → id < next_id
  pub few : length windows ≤ max_windows
  pub distinct : Distinct windows

abbrev pub IsValid : Wm → Type 0
IsValid s = Registered s.next_id s.windows

pub init-IsValid : IsValid init
unfolding init Maps.lookup
init-IsValid = record {
  windows_valid = λ id win h. absurd (ground arith);
  ids_below = λ id h. absurd (ground arith);
  few = omega arith;
  distinct = tt;
}

-- A change of one window that keeps it valid keeps the registry valid.
pub with_window-IsValid :
    (id : ℕ) (f : ServerWindow → ServerWindow) (s : Wm)
    → ((win : ServerWindow) → IsValidWindow id win → IsValidWindow id (f win))
    → IsValid s
    → IsValid (with_window id f s).0
with_window-IsValid id f s keep v = elim (Option-cases (Maps.lookup id s.windows)) [
  | inl e ↦ rw (e, with_window) v
  | inr (win, e) ↦
      rw (e, with_window)
        (record {
          windows_valid = λ j w' h. elim (Bool-cases (id == j)) [
            | inl same ↦
                (let at : id ≡ j = (==_iff id j).0 same in
                  let is : f win ≡ w' = ground (arith, lookup-insert id j (f win) s.windows) in
                  subst (λ i. IsValidWindow i w') at
                    (subst (IsValidWindow id) is (keep win (v.windows_valid id win e))))
            | inr other ↦
                v.windows_valid j w' (ground (arith, lookup-insert id j (f win) s.windows))
          ];
          ids_below = λ j h. ground (arith, v.ids_below j, lookup-insert id j (f win) s.windows);
          few = ground (arith, v.few, length-insert id (f win) s.windows);
          distinct = Distinct-insert id (f win) s.windows v.distinct;
        })
]

pub blit-IsValidWindow :
    (id : ℕ) (src : List ℕ) (win : ServerWindow)
    → IsValidWindow id win
    → IsValidWindow id (blit src win)
blit-IsValidWindow id src win v = record {
  own_id = v.own_id;
  width = v.width;
  height = v.height;
  area = omega (
    arith,
    v.area,
    length-append (take (min (length src) (length win.pixels)) src)
        (drop (min (length src) (length win.pixels)) win.pixels),
    length-take (min (length src) (length win.pixels)) src,
    length-drop (min (length src) (length win.pixels)) win.pixels,
  );
  queue = v.queue;
}

pub length-rest : (l : List WmEvent) → length (rest l) ≡ length l - 1
length-rest [] = refl
length-rest (x ∷ l) = omega arith

pub length-replicate : (n : ℕ) → length {A = ℕ} (replicate n 0) ≡ n
length-replicate zero = refl
length-replicate (suc n) = ap suc (length-replicate n)

enqueue_fits :
    (ev : WmEvent) (l : List WmEvent)
    → length l ≤ event_queue_cap
    → length ((if leb event_queue_cap (length l) then rest l else l) ++ ev ∷ []) ≤ event_queue_cap
enqueue_fits ev l h = elim (Bool-cases (leb event_queue_cap (length l))) [
  | inl full ↦ rw full (ground (arith, length-append (rest l) (ev ∷ []), length-rest l))
  | inr space ↦ rw space (ground (arith, length-append l (ev ∷ [])))
]

pub enqueue_event-IsValidWindow :
    (id : ℕ) (ev : WmEvent) (win : ServerWindow)
    → IsValidWindow id win
    → IsValidWindow id (enqueue_event ev win)
enqueue_event-IsValidWindow id ev win v = record {
  own_id = v.own_id;
  width = v.width;
  height = v.height;
  area = v.area;
  queue = enqueue_fits ev win.events v.queue;
}

pub remove-Registered :
    (id next_id : ℕ) (ws : Map ℕ ServerWindow)
    → Registered next_id ws
    → Registered next_id (Maps.remove id ws)
remove-Registered id next_id ws v = record {
  windows_valid = λ j w' e. v.windows_valid j w' (ground (arith, lookup-remove id j ws));
  ids_below = λ j e. v.ids_below j (ground (arith, lookup-remove id j ws));
  few = omega (arith, v.few, length-remove id ws);
  distinct = Distinct-remove id ws v.distinct;
}

pub remove_all-Registered :
    (ids : List ℕ) (next_id : ℕ) (ws : Map ℕ ServerWindow)
    → Registered next_id ws
    → Registered next_id (remove_all ids ws)
unfolding remove_all
remove_all-Registered [] next_id ws v = v
remove_all-Registered (id ∷ ids) next_id ws v =
    remove_all-Registered ids next_id (Maps.remove id ws) (remove-Registered id next_id ws v)
