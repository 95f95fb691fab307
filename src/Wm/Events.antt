-- ===== src/Wm/Events.antt =====
-- The bounded event queues of the windows (kernel/src/wm.rs).
use mathlib.Core.List.{append-nil, append_assoc}
use pickle_os.Base.{
  ℕ, suc, zero, ◌-◌, ◌≤◌, true, ◌≡◌, refl, sym, ap, ◌∙◌, none, some, List, [], ◌∷◌, ◌++◌, arith,
  ◌==◌, if◌then◌else◌, leb, Option-cases, Bool-cases, inl, inr, front, rest, length, length-append,
  length-drop, drop-drop, drop, is_some,
}
use pickle_os.Base.Maps
use pickle_os.Base.Maps.{nat_key, lookup-insert, lookup-insert_self}
use pickle_os.Wm.{WmEvent, Wm, event_queue_cap, enqueue_event, push_event, poll_event}

-- The newest `n` of a queue.
abbrev pub newest : ℕ → List WmEvent → List WmEvent
newest n l = drop (length l - n) l

abbrev pub events_of : ℕ → Wm → List WmEvent
events_of id s = elim (Maps.lookup id s.windows) [ none ↦ [] | some win ↦ win.events ]

drop-zero : (l : List WmEvent) → drop 0 l ≡ l
drop-zero l = refl

drop_one : (l : List WmEvent) → drop 1 l ≡ rest l
drop_one [] = refl
drop_one (x ∷ l) = refl

drop-append_le : (n : ℕ) (l m : List WmEvent) → n ≤ length l → drop n (l ++ m) ≡ drop n l ++ m
drop-append_le zero l m h = refl
drop-append_le (suc n) [] m h = absurd (omega arith)
drop-append_le (suc n) (x ∷ l) m h = drop-append_le n l m (omega arith)

-- One push onto a queue within its capacity leaves the newest events of all.
enqueue_newest :
    (ev : WmEvent) (l : List WmEvent)
    → length l ≤ event_queue_cap
    → (if leb event_queue_cap (length l) then rest l else l) ++ ev ∷ []
      ≡ newest event_queue_cap (l ++ ev ∷ [])
enqueue_newest ev l h = elim (Bool-cases (leb event_queue_cap (length l))) [
  | inl full ↦
      (let k : length (l ++ ev ∷ []) - event_queue_cap ≡ 1 =
          ground (arith, length-append l (ev ∷ [])) in
        rw (full, k)
          (ap (λ q. q ++ ev ∷ []) (sym (drop_one l))
            ∙ sym (drop-append_le 1 l (ev ∷ []) (ground arith))))
  | inr space ↦
      (let k : length (l ++ ev ∷ []) - event_queue_cap ≡ 0 =
          ground (arith, length-append l (ev ∷ [])) in
        rw (space, k) refl)
]

newest-newest : (n : ℕ) (l m : List WmEvent) → newest n (newest n l ++ m) ≡ newest n (l ++ m)
newest-newest n l m =
    ap (λ q. newest n q) (sym (drop-append_le (length l - n) l m (omega arith)))
    ∙ drop-drop (length (drop (length l - n) (l ++ m)) - n) (length l - n) (l ++ m)
    ∙ ap (λ (k : ℕ). drop k (l ++ m))
        (omega (arith, length-append l m, length-drop (length l - n) (l ++ m)))

length-newest : (n : ℕ) (l : List WmEvent) → length (newest n l) ≤ n
length-newest n l = omega (arith, length-drop (length l - n) l)

newest_all : (n : ℕ) (l : List WmEvent) → length l ≤ n → newest n l ≡ l
newest_all n l h = let e : length l - n ≡ 0 = omega arith in rw e refl

events_of-push_event :
    (id : ℕ) (ev : WmEvent) (s : Wm)
    → is_some (Maps.lookup id s.windows) ≡ true
    → length (events_of id s) ≤ event_queue_cap
    → (events_of id (push_event id ev s) ≡ newest event_queue_cap (events_of id s ++ ev ∷ []))
      × (is_some (Maps.lookup id (push_event id ev s).windows) ≡ true)
unfolding push_event
events_of-push_event id ev s h fits = elim (Option-cases (Maps.lookup id s.windows)) [
  | inl e ↦ absurd (ground arith)
  | inr (win, e) ↦
      (let l = lookup-insert_self id (enqueue_event ev win) s.windows in
        let n = enqueue_newest ev win.events (ground arith) in (ground arith, ground arith))
]

pub push_all : ℕ → List WmEvent → Wm → Wm
push_all id [] s = s
push_all id (ev ∷ evs) s = push_all id evs (push_event id ev s)

-- Whatever the compositor pushes onto the queue of a registered window that holds at most 64
-- events and that nobody drains, the queue holds the
-- newest 64 of all that was there and was pushed, in order: only the oldest events are dropped.
pub push_all-newest :
    (id : ℕ) (evs : List WmEvent) (s : Wm)
    → is_some (Maps.lookup id s.windows) ≡ true
    → length (events_of id s) ≤ event_queue_cap
    → events_of id (push_all id evs s) ≡ newest event_queue_cap (events_of id s ++ evs)
unfolding push_all
push_all-newest id [] s h fits =
    sym (ap (newest event_queue_cap) (append-nil (events_of id s)) ∙ newest_all _ _ fits)
push_all-newest id (ev ∷ evs) s h fits =
    let (e, h') = events_of-push_event id ev s h fits in
    push_all-newest id evs (push_event id ev s) h'
      (rw e (length-newest event_queue_cap (events_of id s ++ ev ∷ [])))
    ∙ ap (λ q. newest event_queue_cap (q ++ evs)) e
    ∙ newest-newest event_queue_cap (events_of id s ++ ev ∷ []) evs
    ∙ ap (newest event_queue_cap) (append_assoc (events_of id s) (ev ∷ []) evs)

-- The client drains from the front: a poll returns the oldest event and removes it alone.
poll_event_lem :
    (id other : ℕ) (s : Wm)
    → ((poll_event id s).1 ≡ front (events_of id s))
      × (events_of other (poll_event id s).0
          ≡ (if id == other then rest (events_of other s) else events_of other s))
unfolding poll_event
poll_event_lem id other s = elim (Option-cases (Maps.lookup id s.windows)) [
  | inl e ↦ (ground arith, ground (arith, same id other s))
  | inr (win, e) ↦
      (let l = lookup-insert id other (record win { events = rest win.events }) s.windows in
        (ground arith, ground (arith, same id other s)))
]
  where
    same : (a b : ℕ) (s : Wm) → a ≡ b → events_of a s ≡ events_of b s
    same a b s e = ap (λ i. events_of i s) e
