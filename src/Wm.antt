-- ===== src/Wm.antt =====
-- kernel/src/wm.rs: the window registry of the window server, with each window's backing pixels
-- and its queue of input events. `next_id` and `dirty` are the two global counters.
pub mod Ownership
pub mod Windows
pub mod Registry
pub mod Events
mod Tests
use pickle_os.Base.{
  ℕ, suc, zero, ◌+◌, ◌*◌, ◌%◌, ◌^◌, Bool, true, false, ◌||◌, Option, none, some, List, [], ◌∷◌,
  ◌++◌, ◌==◌, ltb, leb, if◌then◌else◌, ◌>>=◌, is_some, front, rest, min, length, take, drop,
  replicate,
}
use pickle_os.Base.Maps
use pickle_os.Base.Maps.{Map, nat_key, contains_key}

abbrev pub max_w : ℕ
max_w = 320

abbrev pub max_h : ℕ
max_h = 240

abbrev pub max_windows : ℕ
max_windows = 16

abbrev pub event_queue_cap : ℕ
event_queue_cap = 64

-- Coordinates are 32-bit patterns.
pub record WmEvent : Type 0 where
  pub kind : ℕ
  pub x : ℕ
  pub y : ℕ
  pub arg : ℕ

pub record ServerWindow : Type 0 where
  pub id : ℕ
  pub owner : ℕ
  pub x : ℕ
  pub y : ℕ
  pub w : ℕ
  pub h : ℕ
  pub title : List ℕ
  pub pixels : List ℕ
  pub buf_seq : ℕ
  pub events : List WmEvent

pub record Wm : Type 0 where
  pub windows : Map ℕ ServerWindow
  pub pending_new : List ℕ
  pub pending_destroy : List ℕ
  pub next_id : ℕ
  pub dirty : ℕ

unfoldable pub init : Wm
init = record { windows = []; pending_new = []; pending_destroy = []; next_id = 1; dirty = 0 }

abbrev pub u64 : ℕ → ℕ
u64 n = n % 2 ^ 64

abbrev pub bump_dirty : Wm → Wm
bump_dirty s = record s { dirty = u64 (s.dirty + 1) }

unfoldable pub create_window : ℕ → ℕ → ℕ → List ℕ → Wm → Wm × Option ℕ
create_window owner w h title s =
    if w == 0 || h == 0
    then (s, none)
    else if leb max_windows (length s.windows)
    then (s, none)
    else (
      bump_dirty (record s {
        windows =
            Maps.insert s.next_id
              (record {
                id = s.next_id;
                owner = owner;
                x = 0;
                y = 0;
                w = min w max_w;
                h = min h max_h;
                title = title;
                pixels = replicate (min w max_w * min h max_h) 0;
                buf_seq = 0;
                events = [];
              })
              s.windows;
        pending_new = s.pending_new ++ s.next_id ∷ [];
        next_id = s.next_id + 1;
      }),
      some s.next_id,
    )

unfoldable pub is_owner : ℕ → ℕ → Wm → Bool
is_owner id task s = elim (Maps.lookup id s.windows) [ none ↦ false | some win ↦ win.owner == task ]

-- Change one window, if it exists; the result says whether it does.
abbrev pub with_window : ℕ → (ServerWindow → ServerWindow) → Wm → Wm × Bool
with_window id f s = elim (Maps.lookup id s.windows) [
  | none ↦ (s, false)
  | some win ↦ (record s { windows = Maps.insert id (f win) s.windows }, true)
]

abbrev pub bump_if : Wm × Bool → Wm × Bool
bump_if (s, true) = (bump_dirty s, true)
bump_if (s, false) = (s, false)

-- `pixels[..n].copy_from_slice(&src[..n])` for the shorter length `n`.
abbrev pub blit : List ℕ → ServerWindow → ServerWindow
blit src win = record win {
  pixels =
      take (min (length src) (length win.pixels)) src
      ++ drop (min (length src) (length win.pixels)) win.pixels;
  buf_seq = u64 (win.buf_seq + 1);
}

unfoldable pub commit : ℕ → List ℕ → Wm → Wm × Bool
commit id src s = bump_if (with_window id (blit src) s)

unfoldable pub destroy_window : ℕ → Wm → Wm × Bool
destroy_window id s =
    if contains_key id s.windows
    then (
      bump_dirty (record s {
        windows = Maps.remove id s.windows;
        pending_destroy = s.pending_destroy ++ id ∷ [];
      }),
      true,
    )
    else (s, false)

-- The ids of the windows of one owner.
unfoldable pub owned_ids : ℕ → Map ℕ ServerWindow → List ℕ
owned_ids owner [] = []
owned_ids owner ((id, win) ∷ ws) =
    let later = owned_ids owner ws in if win.owner == owner then id ∷ later else later

unfoldable pub remove_all : List ℕ → Map ℕ ServerWindow → Map ℕ ServerWindow
remove_all [] ws = ws
remove_all (id ∷ ids) ws = remove_all ids (Maps.remove id ws)

unfoldable pub destroy_windows_owned_by : ℕ → Wm → Wm × ℕ
unfolding owned_ids remove_all
destroy_windows_owned_by owner s =
    let ids = owned_ids owner s.windows in
    let s' = record s {
      windows = remove_all ids s.windows;
      pending_destroy = s.pending_destroy ++ ids;
    } in
    (if ltb 0 (length ids) then bump_dirty s' else s', length ids)

unfoldable pub set_title : ℕ → List ℕ → Wm → Wm × Bool
set_title id title s = bump_if (with_window id (λ win. record win { title = title }) s)

unfoldable pub poll_event : ℕ → Wm → Wm × Option WmEvent
poll_event id s = (
  (with_window id (λ win. record win { events = rest win.events }) s).0,
  Maps.lookup id s.windows >>= λ win. front win.events,
)

unfoldable pub window_info : ℕ → Wm → Option (ℕ × ℕ × ℕ × ℕ)
window_info id s = Maps.lookup id s.windows >>= λ win. some (win.x, win.y, win.w, win.h)

unfoldable pub take_pending_new : Wm → Wm × Option ℕ
take_pending_new s = (record s { pending_new = rest s.pending_new }, front s.pending_new)

unfoldable pub take_pending_destroy : Wm → Wm × Option ℕ
take_pending_destroy s =
    (record s { pending_destroy = rest s.pending_destroy }, front s.pending_destroy)

unfoldable pub window_size_title : ℕ → Wm → Option (ℕ × ℕ × List ℕ)
window_size_title id s = Maps.lookup id s.windows >>= λ win. some (win.w, win.h, win.title)

unfoldable pub set_position : ℕ → ℕ → ℕ → Wm → Wm
set_position id x y s = (with_window id (λ win. record win { x = x; y = y }) s).0

-- A full queue loses its oldest event.
abbrev pub enqueue_event : WmEvent → ServerWindow → ServerWindow
enqueue_event ev win = record win {
  events =
      (if leb event_queue_cap (length win.events) then rest win.events else win.events) ++ ev ∷ [];
}

unfoldable pub push_event : ℕ → WmEvent → Wm → Wm
push_event id ev s = (with_window id (enqueue_event ev) s).0

unfoldable pub buf_seq : ℕ → Wm → ℕ
buf_seq id s = elim (Maps.lookup id s.windows) [ none ↦ 0 | some win ↦ win.buf_seq ]

unfoldable pub window_count : Wm → ℕ
window_count s = length s.windows
