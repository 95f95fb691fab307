-- ===== src/Ipc/Delivery.antt =====
-- Message queues in order (kernel/src/ipc.rs): an endpoint is a first-in first-out queue.
use mathlib.Core.List.{append-nil, append_assoc}
use pickle_os.Base.{
  ℕ, Bool, true, false, ◌≡◌, refl, sym, ap, ◌∙◌, Option, none, some, List, [], ◌∷◌, ◌++◌, arith,
  ◌==◌, ==_iff, if◌then◌else◌, Option-cases, Bool-cases, inl, inr, front, rest,
}
use pickle_os.Base.Maps
use pickle_os.Base.Maps.{nat_key, lookup-insert, contains_key}
use pickle_os.Task.{current_id, schedule}
use pickle_os.Ipc.{Ipc, Message, World, enqueue, send, take_message}

abbrev pub queue_of : ℕ → Ipc → List Message
queue_of ep s = elim (Maps.lookup ep s.endpoints) [ none ↦ [] | some e ↦ e.queue ]

abbrev pub exists : ℕ → Ipc → Bool
exists ep s = contains_key ep s.endpoints

-- Queues after a message is put in: it goes to the end of its endpoint's queue, and nowhere else.
pub queue_of-enqueue :
    (ep q : ℕ) (msg : Message) (s : Ipc)
    → exists ep s ≡ true
    → queue_of q (enqueue ep msg s).0 ≡ (if ep == q then queue_of q s ++ msg ∷ [] else queue_of q s)
unfolding enqueue
queue_of-enqueue ep q msg s h = elim (Option-cases (Maps.lookup ep s.endpoints)) [
  | inl e ↦ absurd (ground arith)
  | inr (e', e) ↦
      rw (e, enqueue)
        (ground (
          arith,
          lookup-insert ep q (record { queue = e'.queue ++ msg ∷ []; waiters = rest e'.waiters })
              s.endpoints,
        ))
]

pub exists-enqueue :
    (ep q : ℕ) (msg : Message) (s : Ipc) → exists q (enqueue ep msg s).0 ≡ exists q s
unfolding enqueue
exists-enqueue ep q msg s = elim (Option-cases (Maps.lookup ep s.endpoints)) [
  | inl e ↦ rw (e, enqueue)
  | inr (e', e) ↦
      rw (e, enqueue)
        (ground (
          arith,
          lookup-insert ep q (record { queue = e'.queue ++ msg ∷ []; waiters = rest e'.waiters })
              s.endpoints,
        ))
]

enqueue_missing :
    (ep : ℕ) (msg : Message) (s : Ipc) → exists ep s ≡ false → enqueue ep msg s ≡ (s, none)
unfolding enqueue
enqueue_missing ep msg s h = elim (Option-cases (Maps.lookup ep s.endpoints)) [
  | inl e ↦ rw (e, enqueue)
  | inr (e', e) ↦ absurd (ground arith)
]

pub take_message_lem :
    (ep q : ℕ) (s : Ipc)
    → ((take_message ep s).1 ≡ front (queue_of ep s))
      × (queue_of q (take_message ep s).0 ≡ (if ep == q then rest (queue_of q s) else queue_of q s))
      × (exists q (take_message ep s).0 ≡ exists q s)
unfolding take_message
take_message_lem ep q s = elim (Option-cases (Maps.lookup ep s.endpoints)) [
  | inl e ↦ rw (e, take_message) (ground arith, ground arith, refl)
  | inr (e', e) ↦
      (let l = lookup-insert ep q (record e' { queue = rest e'.queue }) s.endpoints in
        rw (e, take_message) (ground arith, ground (arith, l), ground (arith, l)))
]

-- What tasks do with endpoints, in any order; between two calls the processor may be handed over.
pub data Op : Type 0 where
  sends : ℕ → Message → Op
  takes : ℕ → Op
  switches : Op

pub step : World → Op → World
step w (sends ep msg) = send ep msg w
step w (takes ep) = record w { ipc = (take_message ep w.ipc).0 }
step w switches = record w { sched = schedule w.sched }

pub run : World → List Op → World
run w [] = w
run w (o ∷ os) = run (step w o) os

abbrev option_list : Option Message → List Message
option_list none = []
option_list (some m) = m ∷ []

-- The messages that one operation puts into an endpoint, and those that it takes out.
pub sent_by : ℕ → World → Op → List Message
sent_by ep w (sends q msg) = if q == ep then record msg { sender = current_id w.sched } ∷ [] else []
sent_by ep w (takes q) = []
sent_by ep w switches = []

pub taken_by : ℕ → World → Op → List Message
taken_by ep w (sends q msg) = []
taken_by ep w (takes q) = if q == ep then option_list (take_message q w.ipc).1 else []
taken_by ep w switches = []

pub sent : ℕ → World → List Op → List Message
sent ep w [] = []
sent ep w (o ∷ os) = sent_by ep w o ++ sent ep (step w o) os

pub taken : ℕ → World → List Op → List Message
taken ep w [] = []
taken ep w (o ∷ os) = taken_by ep w o ++ taken ep (step w o) os

front-rest : (l : List Message) → option_list (front l) ++ rest l ≡ l
front-rest [] = refl
front-rest (m ∷ ms) = refl

step-queue :
    (ep : ℕ) (w : World) (o : Op)
    → exists ep w.ipc ≡ true
    → taken_by ep w o ++ queue_of ep (step w o).ipc ≡ queue_of ep w.ipc ++ sent_by ep w o
unfolding step taken_by sent_by send
step-queue ep w (sends q msg) h = elim (Bool-cases (exists q w.ipc)) [
  | inl on ↦ ground (
    arith,
    queue_of-enqueue q ep (record msg { sender = current_id w.sched }) w.ipc on,
    append-nil (queue_of ep w.ipc),
  )
  | inr off ↦ ground (
    arith,
    enqueue_missing q (record msg { sender = current_id w.sched }) w.ipc off,
    append-nil (queue_of ep w.ipc),
    (==_iff q ep).0,
    exists_at q ep w.ipc,
  )
]
  where
    exists_at : (q ep : ℕ) (s : Ipc) → q ≡ ep → exists q s ≡ exists ep s
    exists_at q ep s e = ap (λ i. exists i s) e
step-queue ep w (takes q) h = ground (
  arith,
  take_message_lem q ep w.ipc,
  append-nil (queue_of ep w.ipc),
  front-rest (queue_of ep w.ipc),
)
step-queue ep w switches h = sym (append-nil (queue_of ep w.ipc))

exists-step : (ep : ℕ) (w : World) (o : Op) → exists ep (step w o).ipc ≡ exists ep w.ipc
unfolding step send
exists-step ep w (sends q msg) =
    exists-enqueue q ep (record msg { sender = current_id w.sched }) w.ipc
exists-step ep w (takes q) = (take_message_lem q ep w.ipc).2
exists-step ep w switches = refl

-- First in, first out: over any history of sends, first looks of `receive` and switches, the
-- messages taken from an endpoint that exists, followed by those still queued, are the ones queued
-- at first followed by those sent to it, each with the sender that the kernel stamps.
pub fifo :
    (ep : ℕ) (w : World) (os : List Op)
    → exists ep w.ipc ≡ true
    → taken ep w os ++ queue_of ep (run w os).ipc ≡ queue_of ep w.ipc ++ sent ep w os
unfolding run taken sent
fifo ep w [] h = sym (append-nil _)
fifo ep w (o ∷ os) h =
    let ih = fifo ep (step w o) os (exists-step ep w o ∙ h) in
    append_assoc (taken_by ep w o) (taken ep (step w o) os) _
    ∙ ap (◌++◌ (taken_by ep w o)) ih
    ∙ sym (append_assoc (taken_by ep w o) (queue_of ep (step w o).ipc) (sent ep (step w o) os))
    ∙ ap (λ l. l ++ sent ep (step w o) os) (step-queue ep w o h)
    ∙ append_assoc (queue_of ep w.ipc) (sent_by ep w o) (sent ep (step w o) os)
