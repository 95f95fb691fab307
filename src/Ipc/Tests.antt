-- ===== src/Ipc/Tests.antt =====
-- The theorems on messages at concrete endpoints and tasks (kernel/src/ipc.rs).
use pickle_os.Base.{◌≡◌, refl, none, some, List, [], ◌∷◌, ◌++◌, arith}
use pickle_os.Base.Maps
use pickle_os.Base.Maps.{nat_key, bytes_key, contains_key}
use pickle_os.Base.Bytes.{bytes}
use pickle_os.Task.{Scheduler, current_id, running, runnable}
use pickle_os.Task.Tests.{demo_task}
use pickle_os.Ipc.Endpoints.{IsWellFormed, create_named_endpoint-IsWellFormed}
use pickle_os.Ipc.Delivery.{queue_of, Op, sends, takes, switches, run, sent, taken, fifo}
use pickle_os.Ipc.Replies.{slot, stamp, call_round_trip}
use pickle_os.Ipc.Stale.{stale_reply}
use pickle_os.Ipc.Receive.{ReceiveDone, receive_round_lem}
use pickle_os.Ipc.{
  Ipc, World, new_message, create_named_endpoint, lookup, start_call, take_message, reply,
  poll_call, replied, send, init, new_endpoint,
}

-- Tasks 5 and 6, of which task 5 is current in `client`, and task 6 in `server`.
abbrev client : Scheduler
client = record { tasks = demo_task 5 running ∷ demo_task 6 runnable ∷ []; current = 0 }

abbrev server : Scheduler
server = record { tasks = demo_task 5 runnable ∷ demo_task 6 running ∷ []; current = 1 }

-- Endpoint 1, named "vfs", with nothing queued.
abbrev quiet : Ipc
quiet = record {
  endpoints = (1, new_endpoint) ∷ [];
  names = (bytes "vfs", 1) ∷ [];
  replies = [];
  next_ep = 2;
}

abbrev world : World
world = record { ipc = quiet; sched = client }

abbrev ops : List Op
ops = sends 1 (new_message 3) ∷ switches ∷ sends 1 (new_message 4) ∷ takes 1 ∷ []

fifo_example :
    taken 1 world ops ++ queue_of 1 (run world ops).ipc ≡ queue_of 1 quiet ++ sent 1 world ops
unfolding Maps.lookup
fifo_example = fifo 1 world ops refl

call_round_trip_example :
    let me = current_id client in
    let called = start_call 1 (new_message 3) world in
    let taken = take_message 1 called.ipc in
    let answered =
      reply
        (stamp world (new_message 3))
        (new_message 4)
        (record { ipc = taken.0; sched = server }) in
    (taken.1 ≡ some (stamp world (new_message 3)))
    × ((poll_call me 0 500 answered.ipc).1
        ≡ replied (record (new_message 4) { sender = current_id server }))
    × (slot me (poll_call me 0 500 answered.ipc).0 ≡ none)
unfolding Maps.lookup
call_round_trip_example =
    call_round_trip 1 0 500 (new_message 3) (new_message 4) world server refl refl

-- Nothing is queued, and a message comes in between the two looks.
abbrev arrives : World → World
arrives w = send 1 (new_message 3) (record w { sched = server })

abbrev back : World → World
back w = record w { sched = client }

receive_round_example : ReceiveDone 1 arrives back world
receive_round_example = receive_round_lem 1 arrives back world

init-IsWellFormed : IsWellFormed init
unfolding init Maps.lookup lookup
init-IsWellFormed = record {
  ids_below = λ ep h. absurd (ground arith);
  names_valid = λ name id h. absurd (ground arith);
  names_distinct = λ n m id p q. absurd (ground arith);
}

create_named_endpoint_example : IsWellFormed (create_named_endpoint (bytes "vfs") init).0
create_named_endpoint_example =
    create_named_endpoint-IsWellFormed (bytes "vfs") init init-IsWellFormed

stale_reply_example :
    let waiting : World = record {
      ipc = (start_call 1 (new_message 8) world).ipc;
      sched = server;
    } in
    let answered = reply (stamp world (new_message 3)) (new_message 4) waiting in
    (poll_call (current_id client) 0 500 answered.ipc).1
    ≡ replied (record (new_message 4) { sender = current_id server })
stale_reply_example =
    stale_reply 1 0 500 (new_message 3) (new_message 8) (new_message 4) world server
