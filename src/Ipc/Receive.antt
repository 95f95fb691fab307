-- ===== src/Ipc/Receive.antt =====
-- What `receive` does with and without a message in the queue (kernel/src/ipc.rs).
use pickle_os.Base.{
  ℕ, ◌≡◌, ◌⊎◌, refl, none, some, List, [], ◌∷◌, inl, inr, arith, Option-cases, if◌then◌else◌, ◌==◌,
}
use pickle_os.Base.Maps
use pickle_os.Base.Maps.{nat_key, lookup-insert}
use pickle_os.Ipc.Delivery.{queue_of}
use pickle_os.Ipc.{Ipc, Message, World, take_message, decide_block, returns, hangs, receive_round}

take_some :
    (ep : ℕ) (s : Ipc) (m : Message) (ms : List Message)
    → queue_of ep s ≡ m ∷ ms
    → ((take_message ep s).1 ≡ some m)
      × ((q : ℕ) → queue_of q (take_message ep s).0 ≡ (if ep == q then ms else queue_of q s))
unfolding take_message
take_some ep s m ms h = elim (Option-cases (Maps.lookup ep s.endpoints)) [
  | inl e ↦ absurd (ground (arith, h, e))
  | inr (endpoint, e) ↦
      let full : endpoint.queue ≡ m ∷ ms = ground (arith, h, e) in
      (
        rw (e, full, take_message) refl,
        λ q.
            rw (e, full, take_message)
              (ground (arith, lookup-insert ep q (record endpoint { queue = ms }) s.endpoints)),
      )
]

take_none : (ep : ℕ) (s : Ipc) → queue_of ep s ≡ [] → (take_message ep s).1 ≡ none
unfolding take_message
take_none ep s h = elim (Option-cases (Maps.lookup ep s.endpoints)) [
  | inl e ↦ rw (e, take_message) refl
  | inr (endpoint, e) ↦
      let empty : endpoint.queue ≡ [] = ground (arith, h, e) in rw (e, empty, take_message) refl
]

-- The two ends of a round.
abbrev pub ReceiveDone : ℕ → (World → World) → (World → World) → World → Type 0
ReceiveDone ep others before_decision w =
    ((m : Message) × (ms : List Message) × (w' : World) × (queue_of ep w.ipc ≡ m ∷ ms)
      × (receive_round ep others before_decision w ≡ returns w' m)
      × (w'.sched ≡ w.sched)
      × ((q : ℕ) → queue_of q w'.ipc ≡ (if ep == q then ms else queue_of q w.ipc)))
    ⊎ ((queue_of ep w.ipc ≡ []) × (receive_round ep others before_decision w ≡ hangs))

receive_queued :
    (ep : ℕ) (others before_decision : World → World) (w : World) (queue : List Message)
    → queue_of ep w.ipc ≡ queue
    → ReceiveDone ep others before_decision w
unfolding receive_round decide_block
receive_queued ep others before_decision w [] h =
    inr (h, rw (take_none ep w.ipc h, receive_round) refl)
receive_queued ep others before_decision w (m ∷ ms) h =
    let taken = take_some ep w.ipc m ms h in
    inl (
      m,
      ms,
      record w { ipc = (take_message ep w.ipc).0 },
      h,
      rw (taken.0, receive_round) refl,
      refl,
      taken.1,
    )

-- `receive` has one of two ends. If a message is queued, it returns the first one, which leaves the
-- queue, and no other queue changes. If none is queued, the call never returns, never sleeps and
-- never comes to another round, whatever other tasks do between its steps, a message that they send
-- included: it takes the scheduler's lock while it holds it.
pub receive_round_lem :
    (ep : ℕ) (others before_decision : World → World) (w : World)
    → ReceiveDone ep others before_decision w
receive_round_lem ep others before_decision w =
    receive_queued ep others before_decision w (queue_of ep w.ipc) refl
