-- ===== src/Ipc/Stale.antt =====
-- A reply is matched with a call by the caller alone (kernel/src/ipc.rs).
use pickle_os.Base.{ℕ, ◌≡◌, some, arith}
use pickle_os.Base.Maps.{nat_key}
use pickle_os.Task.{Scheduler, current_id}
use pickle_os.Ipc.Replies.{slot, stamp, slot-reply, slot-start_call, poll_call_replied}
use pickle_os.Ipc.{Message, World, start_call, reply, poll_call, replied}

-- A server that answers an earlier request of a task, one whose call has timed out, while the same
-- task waits in another call, to whatever endpoint, answers that other call: the caller's next look
-- at its slot returns the answer to the earlier request.
pub stale_reply :
    (ep now limit : ℕ) (earlier later answer : Message) (w : World) (server : Scheduler)
    → let me = current_id w.sched in
      let waiting : World = record { ipc = (start_call ep later w).ipc; sched = server } in
      let answered = reply (stamp w earlier) answer waiting in
      (poll_call me now limit answered.ipc).1
      ≡ replied (record answer { sender = current_id server })
stale_reply ep now limit earlier later answer w server =
    (poll_call_replied (current_id w.sched) now limit _ answered.ipc filled).0
  where
    waiting : World
    waiting = record { ipc = (start_call ep later w).ipc; sched = server }

    answered : World
    answered = reply (stamp w earlier) answer waiting

    filled :
        slot (current_id w.sched) answered.ipc
        ≡ some (some (record answer { sender = current_id server }))
    filled = ground (
      arith,
      slot-reply (stamp w earlier) answer (current_id w.sched) waiting,
      slot-start_call ep (current_id w.sched) later w,
    )
