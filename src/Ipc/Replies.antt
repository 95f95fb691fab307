-- ===== src/Ipc/Replies.antt =====
-- Remote calls (kernel/src/ipc.rs): `call`, `reply` and the reply slots.
use pickle_os.Base.{
  ℕ, true, ◌&&◌, ◌≡◌, ap, Option, none, some, [], ◌∷◌, ◌++◌, arith, ◌==◌, leb, if◌then◌else◌,
  is_some, Option-cases, inl, inr,
}
use pickle_os.Base.Maps
use pickle_os.Base.Maps.{
  nat_key, lookup-insert, lookup-insert_self, lookup-remove, lookup-remove_self, contains_key,
}
use pickle_os.Task.{Scheduler, current_id}
use pickle_os.Ipc.Delivery.{queue_of, exists, queue_of-enqueue, take_message_lem}
use pickle_os.Ipc.{
  Ipc, Message, World, enqueue, take_message, start_call, poll_call, replied, timed_out, waiting,
  reply, flatten_slot,
}

-- The reply slot of a task: absent, empty or filled.
abbrev pub slot : ℕ → Ipc → Option (Option Message)
slot task s = Maps.lookup task s.replies

abbrev pub stamp : World → Message → Message
stamp w msg = record msg { sender = current_id w.sched }

slot-enqueue :
    (ep task : ℕ) (msg : Message) (s : Ipc) → slot task (enqueue ep msg s).0 ≡ slot task s
unfolding enqueue
slot-enqueue ep task msg s = elim (Option-cases (Maps.lookup ep s.endpoints)) [
  | inl e ↦ rw (e, enqueue)
  | inr (e', e) ↦ rw (e, enqueue)
]

pub slot-take_message : (ep task : ℕ) (s : Ipc) → slot task (take_message ep s).0 ≡ slot task s
unfolding take_message
slot-take_message ep task s = elim (Option-cases (Maps.lookup ep s.endpoints)) [
  | inl e ↦ rw (e, take_message)
  | inr (e', e) ↦ rw (e, take_message)
]

-- A call opens an empty reply slot for its task, and leaves the other tasks' slots alone.
pub slot-start_call :
    (ep task : ℕ) (msg : Message) (w : World)
    → slot task (start_call ep msg w).ipc
      ≡ (if current_id w.sched == task then some none else slot task w.ipc)
unfolding start_call
slot-start_call ep task msg w = ground (
  arith,
  slot-enqueue ep task (stamp w msg)
      (record w.ipc { replies = Maps.insert (current_id w.sched) none w.ipc.replies }),
  lookup-insert (current_id w.sched) task none w.ipc.replies,
)

-- A reply fills the slot of the original's sender if there is one; other slots stay.
pub slot-reply :
    (original msg : Message) (task : ℕ) (w : World)
    → slot task (reply original msg w).ipc ≡ (
        if original.sender == task && is_some (slot task w.ipc)
        then some (some (stamp w msg))
        else slot task w.ipc)
unfolding reply
slot-reply original msg task w = ground (
  arith,
  lookup-insert original.sender task (some (stamp w msg)) w.ipc.replies,
  same_slot original.sender task w.ipc,
)
  where
    same_slot : (a b : ℕ) (s : Ipc) → a ≡ b → slot a s ≡ slot b s
    same_slot a b s e = ap (λ i. slot i s) e

-- A reply to a message whose sender waits for none changes nothing.
pub reply_unwanted :
    (original msg : Message) (w : World)
    → slot original.sender w.ipc ≡ none
    → reply original msg w ≡ w
unfolding reply
reply_unwanted original msg w h = rw (h, reply)

-- What a round of `call` sees in the reply slot: a filled slot is returned and removed; otherwise
-- the call times out exactly from its deadline on, which removes the slot too.
pub poll_call_lem :
    (me now limit : ℕ) (s : Ipc)
    → (poll_call me now limit s).1 ≡ (elim (flatten_slot (slot me s)) [
      | some m ↦ replied m
      | none ↦ if leb limit now then timed_out else waiting
    ])
unfolding poll_call
poll_call_lem me now limit s = ground arith

pub poll_call_replied :
    (me now limit : ℕ) (m : Message) (s : Ipc)
    → slot me s ≡ some (some m)
    → ((poll_call me now limit s).1 ≡ replied m) × (slot me (poll_call me now limit s).0 ≡ none)
unfolding poll_call
poll_call_replied me now limit m s h =
    (rw (h, poll_call), rw (h, poll_call) (lookup-remove_self me s.replies))

queue_of-start_call :
    (ep : ℕ) (request : Message) (w : World)
    → exists ep w.ipc ≡ true
    → queue_of ep (start_call ep request w).ipc ≡ queue_of ep w.ipc ++ stamp w request ∷ []
unfolding start_call
queue_of-start_call ep request w h = ground (
  arith,
  queue_of-enqueue ep ep (stamp w request)
      (record w.ipc { replies = Maps.insert (current_id w.sched) none w.ipc.replies }) h,
)

-- The whole of a call: the request is queued with the caller as its sender, the server's reply to
-- what it took reaches the caller's slot, and the caller's next look at the slot returns it, before
-- and after the deadline alike, and closes the slot. The endpoint must exist and have an empty
-- queue, and the server's world may differ from the caller's in the scheduler's state.
pub call_round_trip :
    (ep now limit : ℕ) (request answer : Message) (w : World) (server : Scheduler)
    → exists ep w.ipc ≡ true
    → queue_of ep w.ipc ≡ []
    → let me = current_id w.sched in
      let called = start_call ep request w in
      let taken = take_message ep called.ipc in
      let answered = reply (stamp w request) answer (record { ipc = taken.0; sched = server }) in
      (taken.1 ≡ some (stamp w request))
      × ((poll_call me now limit answered.ipc).1
          ≡ replied (record answer { sender = current_id server }))
      × (slot me (poll_call me now limit answered.ipc).0 ≡ none)
call_round_trip ep now limit request answer w server h q = (
  take_queued,
  (poll_call_replied me now limit _ answered.ipc filled).0,
  (poll_call_replied me now limit _ answered.ipc filled).1,
)
  where
    me : ℕ
    me = current_id w.sched

    called : World
    called = start_call ep request w

    answered : World
    answered =
        reply (stamp w request) answer
          (record { ipc = (take_message ep called.ipc).0; sched = server })

    take_queued : (take_message ep called.ipc).1 ≡ some (stamp w request)
    take_queued =
        ground (arith, (take_message_lem ep ep called.ipc).0, queue_of-start_call ep request w h)

    filled : slot me answered.ipc ≡ some (some (record answer { sender = current_id server }))
    filled = ground (
      arith,
      slot-reply (stamp w request) answer me
          (record { ipc = (take_message ep called.ipc).0; sched = server }),
      slot-take_message ep me called.ipc,
      slot-start_call ep me request w,
    )
