-- ===== src/Ipc.antt =====
-- kernel/src/ipc.rs: endpoints with message queues, names, and the reply slots of `call`.
-- A call that blocks is split where its task can be preempted: each function below is one critical
-- section (`with_state` or `scheduler::with`), so that other tasks' calls may come between two.
pub mod Endpoints
pub mod Delivery
pub mod Receive
pub mod Stale
pub mod Replies
mod Tests
use pickle_os.Base.{
  ℕ, suc, zero, ◌+◌, Bool, true, false, not, Option, none, some, List, [], ◌∷◌, ◌++◌, ◌==◌, leb,
  if◌then◌else◌, ◌>>=◌, is_some, front, rest, replicate,
}
use pickle_os.Base.Maps
use pickle_os.Base.Maps.{Map, nat_key, bytes_key, contains_key}
use pickle_os.Task.{Scheduler, unblock, current_id, modify_current, set_state, blocked, schedule}

-- `words` holds six words.
pub record Message : Type 0 where
  pub tag : ℕ
  pub words : List ℕ
  pub sender : ℕ

unfoldable pub with_words : ℕ → List ℕ → Message
with_words tag words = record { tag = tag; words = words; sender = 0 }

unfoldable pub new_message : ℕ → Message
new_message tag = record { tag = tag; words = replicate 6 0; sender = 0 }

pub record Endpoint : Type 0 where
  pub queue : List Message
  pub waiters : List ℕ

abbrev pub new_endpoint : Endpoint
new_endpoint = record { queue = []; waiters = [] }

-- `IpcState` and the counter `NEXT_EP`.
pub record Ipc : Type 0 where
  pub endpoints : Map ℕ Endpoint
  pub names : Map (List ℕ) ℕ
  pub replies : Map ℕ (Option Message)
  pub next_ep : ℕ

pub record World : Type 0 where
  pub ipc : Ipc
  pub sched : Scheduler

unfoldable pub init : Ipc
init = record { endpoints = []; names = []; replies = []; next_ep = 1 }

unfoldable pub create_endpoint : Ipc → Ipc × ℕ
create_endpoint s = (
  record s { endpoints = Maps.insert s.next_ep new_endpoint s.endpoints; next_ep = s.next_ep + 1 },
  s.next_ep,
)

unfoldable pub create_named_endpoint : List ℕ → Ipc → Ipc × ℕ
create_named_endpoint name s = elim (Maps.lookup name s.names) [
  | some id ↦ (s, id)
  | none ↦ (
    record s {
      endpoints = Maps.insert s.next_ep new_endpoint s.endpoints;
      names = Maps.insert name s.next_ep s.names;
      next_ep = s.next_ep + 1;
    },
    s.next_ep,
  )
]

unfoldable pub lookup : List ℕ → Ipc → Option ℕ
lookup name s = Maps.lookup name s.names

abbrev pub set_endpoint : ℕ → Endpoint → Ipc → Ipc
set_endpoint ep e s = record s { endpoints = Maps.insert ep e s.endpoints }

-- Push a message; the first waiter, if any, is taken off and returned.
unfoldable pub enqueue : ℕ → Message → Ipc → Ipc × Option ℕ
enqueue ep msg s = elim (Maps.lookup ep s.endpoints) [
  | none ↦ (s, none)
  | some e ↦ (
    set_endpoint ep (record { queue = e.queue ++ msg ∷ []; waiters = rest e.waiters }) s,
    front e.waiters,
  )
]

abbrev pub wake_option : Option ℕ → Scheduler → Scheduler
wake_option none s = s
wake_option (some id) s = unblock id s

-- The kernel stamps the sender.
unfoldable pub send : ℕ → Message → World → World
unfolding enqueue
send ep msg w =
    let (ipc, woke) = enqueue ep (record msg { sender = current_id w.sched }) w.ipc in
    record { ipc = ipc; sched = wake_option woke w.sched }

-- `receive`, fast path: take the front message.
unfoldable pub take_message : ℕ → Ipc → Ipc × Option Message
take_message ep s = elim (Maps.lookup ep s.endpoints) [
  | none ↦ (s, none)
  | some e ↦ (set_endpoint ep (record e { queue = rest e.queue }) s, front e.queue)
]

unfoldable pub without : ℕ → List ℕ → List ℕ
without me [] = []
without me (w ∷ ws) = let later = without me ws in if w == me then later else w ∷ later

-- `receive`, slow path: look again, and put what has come into the reply slot; or else register.
unfoldable pub register_waiter : ℕ → ℕ → Ipc → Ipc
unfolding without
register_waiter ep me s = elim (Maps.lookup ep s.endpoints) [
  | none ↦ s
  | some e ↦ elim (front e.queue) [
    | some m ↦
        (let s' = set_endpoint ep (record e { queue = rest e.queue }) s in
          record s' { replies = Maps.insert me (some m) s'.replies })
    | none ↦ set_endpoint ep (record e { waiters = without me e.waiters ++ me ∷ [] }) s
  ]
]

abbrev pub flatten_slot : Option (Option Message) → Option Message
flatten_slot o = o >>= λ slot. slot

-- `scheduler::with`: the scheduler's spin lock is not reentrant, and interrupts are off while it is
-- held. On the single processor, taking it where it is held waits for ever: `none`.
abbrev pub with_scheduler : {A : Type 0} → Bool → Option A → Option A
with_scheduler held body = if held then none else body

-- `task::current_id()` takes the lock.
abbrev pub locked_id : Bool → Scheduler → Option ℕ
locked_id held s = with_scheduler held (some (current_id s))

-- `receive`, the decision, under the scheduler's lock: with a message in the reply slot the task does
-- not block. The slot is removed; the result says whether `schedule` follows.
unfoldable pub decide_block : Bool → World → Option (World × Bool)
decide_block held w = with_scheduler held (
    locked_id true w.sched >>= λ me.
    (let ipc = record w.ipc { replies = Maps.remove me w.ipc.replies } in
      some (
        if is_some (flatten_slot (Maps.lookup me w.ipc.replies))
        then (record w { ipc = ipc }, false)
        else (record { ipc = ipc; sched = modify_current (set_state blocked) w.sched }, true))))

pub data Received : Type 0 where
  returns : World → Message → Received
  loops : World → Received
  hangs : Received

-- One round of `receive`. Other tasks run between its sections: `others` is what they make of the
-- world before the second look, and before the decision.
unfoldable pub receive_round : ℕ → (World → World) → (World → World) → World → Received
unfolding take_message register_waiter decide_block
receive_round ep others before_decision w =
    let (ipc, front) = take_message ep w.ipc in
    elim front [
      | some m ↦ returns (record w { ipc = ipc }) m
      | none ↦
          let second : World = others (record w { ipc = ipc }) in
          let looked : World = record second {
            ipc = register_waiter ep (current_id second.sched) second.ipc;
          } in
          elim (decide_block false (before_decision looked)) [
            | none ↦ hangs
            | some (next, blocks) ↦
                loops (if blocks then record next { sched = schedule next.sched } else next)
          ]
    ]

-- `call`, first part: the empty reply slot and the request.
unfoldable pub start_call : ℕ → Message → World → World
unfolding enqueue
start_call ep msg w =
    let me = current_id w.sched in
    let (ipc, woke) =
      enqueue ep (record msg { sender = me })
        (record w.ipc { replies = Maps.insert me none w.ipc.replies }) in
    record { ipc = ipc; sched = wake_option woke w.sched }

-- The deadline of a call that starts at tick `now`.
unfoldable pub deadline : ℕ → ℕ
deadline now = now + 500

pub data Poll : Type 0 where
  replied : Message → Poll
  timed_out : Poll
  waiting : Poll

-- `call`, one round of the loop before blocking: the reply, or the time out, or neither.
unfoldable pub poll_call : ℕ → ℕ → ℕ → Ipc → Ipc × Poll
poll_call me now limit s = elim (flatten_slot (Maps.lookup me s.replies)) [
  | some m ↦ (record s { replies = Maps.remove me s.replies }, replied m)
  | none ↦
      if leb limit now
      then (record s { replies = Maps.remove me s.replies }, timed_out)
      else (s, waiting)
]

-- `call`, the rest of the round: block and hand over the processor.
unfoldable pub block_call : World → World
block_call w = record w { sched = schedule (modify_current (set_state blocked) w.sched) }

unfoldable pub cleanup_reply_slot : ℕ → Ipc → Ipc
cleanup_reply_slot task s = record s { replies = Maps.remove task s.replies }

-- A reply goes to the slot of the original's sender, if it has one.
unfoldable pub reply : Message → Message → World → World
reply original msg w =
    if contains_key original.sender w.ipc.replies
    then record {
      ipc = record w.ipc {
        replies =
            Maps.insert original.sender (some (record msg { sender = current_id w.sched }))
              w.ipc.replies;
      };
      sched = unblock original.sender w.sched;
    }
    else w
