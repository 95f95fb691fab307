-- ===== src/Wm/Tests.antt =====
-- The theorems on the window registry at concrete registries (kernel/src/wm.rs).
use pickle_os.Base.{
  ℕ, ◌+◌, ◌≡◌, refl, none, List, [], ◌∷◌, ◌++◌, arith, if◌then◌else◌, length, ltb, replicate,
}
use pickle_os.Base.Bytes.{bytes}
use pickle_os.Base.Maps
use pickle_os.Base.Maps.{nat_key}
use pickle_os.Wm.Windows.{IsValid, init-IsValid}
use pickle_os.Wm.Registry.{
  Request, create_request, push_request, exit_request, commit_request, handle_all,
  handle_all-IsValid,
}
use pickle_os.Wm.Ownership.{destroy_windows_owned_by_lem}
use pickle_os.Wm.Events.{newest, events_of, push_all, push_all-newest}
use pickle_os.Wm.{
  ServerWindow, Wm, WmEvent, init, u64, event_queue_cap, owned_ids, destroy_windows_owned_by,
  is_owner,
}

abbrev key_event : WmEvent
key_event = record { kind = 19; x = 0; y = 0; arg = 65 }

abbrev demo_window : ℕ → ℕ → ServerWindow
demo_window id owner = record {
  id = id;
  owner = owner;
  x = 0;
  y = 0;
  w = 1;
  h = 1;
  title = [];
  pixels = 0 ∷ [];
  buf_seq = 0;
  events = key_event ∷ [];
}

-- Windows 1 and 2, of tasks 5 and 6.
abbrev demo : Wm
demo = record {
  windows = (1, demo_window 1 5) ∷ (2, demo_window 2 6) ∷ [];
  pending_new = [];
  pending_destroy = [];
  next_id = 3;
  dirty = 0;
}

abbrev requests : List Request
requests =
    create_request 5 2 2 (bytes "term")
    ∷ push_request 1 key_event
    ∷ commit_request 1 (7 ∷ 7 ∷ [])
    ∷ exit_request 5
    ∷ []

handle_all-IsValid_example : IsValid (handle_all requests init)
handle_all-IsValid_example = handle_all-IsValid requests init init-IsValid

destroy_windows_owned_by_example :
    ((id : ℕ)
      → Maps.lookup id (destroy_windows_owned_by 5 demo).0.windows
        ≡ (if is_owner id 5 demo then none else Maps.lookup id demo.windows))
    × ((destroy_windows_owned_by 5 demo).0.pending_destroy ≡ [] ++ owned_ids 5 demo.windows)
    × ((destroy_windows_owned_by 5 demo).1 ≡ length (owned_ids 5 demo.windows))
    × ((destroy_windows_owned_by 5 demo).0.dirty
        ≡ (if ltb 0 (length (owned_ids 5 demo.windows)) then u64 (0 + 1) else 0))
unfolding Maps.lookup
destroy_windows_owned_by_example = destroy_windows_owned_by_lem 5 demo (refl, (refl, tt))

push_all-newest_example :
    events_of 1 (push_all 1 (replicate 70 key_event) demo)
    ≡ newest event_queue_cap (events_of 1 demo ++ replicate 70 key_event)
unfolding Maps.lookup
push_all-newest_example = push_all-newest 1 (replicate 70 key_event) demo refl (omega arith)
