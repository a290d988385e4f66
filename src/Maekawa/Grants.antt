-- ===== src/Maekawa/Grants.antt =====
-- How a node answers a REQUEST, and when the lock of a quorum member moves.
use aosproject.Prelude.{
  ◌≡◌, refl, ◌≢◌, ◌⊎◌, inl, inr, true, false, some, [], ◌∷◌, ◌++◌, arith, Bool-cases, In, All, ℤ,
  ◌==ℤ◌, ==ℤ_iff,
}
use aosproject.OrderedSet.{insert}
use aosproject.Node.MessageType.{MessageType}
use aosproject.Node.State.{network_send, send}
use aosproject.Maekawa.Message.{Message, precedes}
use aosproject.Maekawa.State.{Mak, signal, send_locked, send_failed, send_inquiry}
use aosproject.Maekawa.Handlers.{request_locked, request_free, receive_request}
use aosproject.Maekawa.Sends.{signal_packet}
use aosproject.Maekawa.Priority.{IsFirst, insert-front, precedes-ne}
use aosproject.Maekawa.Invariant.{Inv}

abbrev pub Sends : MessageType → ℤ → Mak → Mak → Type 0
Sends kind to m m' = m'.sent ≡ m.sent ++ signal_packet kind to m.node ∷ []

-- The request is granted: nothing waits before it, and no other node holds the lock.
pub record Granted (msg : Message) (m m' : Mak) : Type 0 where
  pub sends : Sends MessageType.lock msg.from m m'
  pub first : All (λ y. precedes y msg ≡ false) m.waiting_queue
  pub holder : (m.is_locked ≡ false) ⊎ (m.locked_for.1 ≡ m.node_id)
  pub locked : m'.is_locked ≡ true
  pub locked_for : m'.locked_for ≡ (msg.seq, msg.from)

-- The request comes before all others, but another node holds the lock, and is asked to give way.
pub record Inquired (msg : Message) (m m' : Mak) : Type 0 where
  pub sends : Sends MessageType.inquire m.locked_for.1 m m'
  pub first : All (λ y. precedes y msg ≡ false) m.waiting_queue
  pub holder : (m.is_locked ≡ true) × (m.locked_for.1 ≢ m.node_id)
  pub kept : (m'.is_locked ≡ true) × (m'.locked_for ≡ m.locked_for)

-- An earlier request waits.
pub record Refused (msg : Message) (m m' : Mak) : Type 0 where
  pub sends : Sends MessageType.fail msg.from m m'
  pub earlier : (y : Message) × In y m.waiting_queue × (precedes y msg ≡ true)
  pub kept : (m.is_locked ≡ true) × (m'.is_locked ≡ true) × (m'.locked_for ≡ m.locked_for)

abbrev pub Answered : Message → Mak → Mak → Type 0
Answered msg m m' = Granted msg m m' ⊎ Inquired msg m m' ⊎ Refused msg m m'

abbrev queued : Message → Mak → Mak
queued msg m = record m { waiting_queue = insert precedes msg m.waiting_queue }

-- The lock of a quorum member, with the first request `f` of its queue known.
answer_first :
    (msg f : Message) (m : Mak)
    → m.is_locked ≡ true
    → IsFirst msg f m.waiting_queue
    → Answered msg m (request_locked f msg (queued msg m))
unfolding request_locked send_locked send_inquiry signal send network_send
answer_first msg f m e first = elim (Bool-cases (m.locked_for.1 ==ℤ m.node_id)) [
  | inl own ↦ inl (
      ground
        (arith, ==ℤ_iff f.from msg.from, ==ℤ_iff f.seq msg.seq, ==ℤ_iff m.locked_for.1 m.node_id))
  | inr other ↦ inr (
      inl (
        ground (
          arith,
          ==ℤ_iff f.from msg.from,
          ==ℤ_iff f.seq msg.seq,
          ==ℤ_iff m.locked_for.1 m.node_id,
        )))
]

answer_earlier :
    (msg f : Message) (m : Mak)
    → m.is_locked ≡ true
    → precedes f msg ≡ true
    → In f m.waiting_queue
    → Answered msg m (request_locked f msg (queued msg m))
unfolding request_locked send_failed signal send network_send
answer_earlier msg f m e before there = inr (
    inr (record {
      sends = rw (precedes-ne f msg before) refl;
      earlier = (f, there, before);
      kept = (e, rw (precedes-ne f msg before) (e), rw (precedes-ne f msg before) refl);
    }))

request_locked-queue :
    (f msg : Message) (m : Mak) → (request_locked f msg m).waiting_queue ≡ m.waiting_queue
unfolding request_locked
request_locked-queue f msg m = ground arith

answer_free :
    (msg : Message) (m : Mak)
    → m.is_locked ≡ false
    → m.waiting_queue ≡ []
    → Answered msg m (request_free msg (queued msg m))
unfolding request_free send_locked signal send network_send
answer_free msg m e empty =
    inl (record {
      sends = refl;
      first = rw empty tt;
      holder = inl e;
      locked = refl;
      locked_for = refl;
    })

-- On a node that satisfies the invariant every REQUEST is entered in the queue and answered, by
-- exactly one message: LOCK to the sender, for whose request the node is then locked, if nothing in
-- the queue precedes it and the node was free or locked for a request of its own; INQUIRE to the
-- holder of the lock, if nothing in the queue precedes it and the holder is another node; or FAIL
-- to the sender, if a queued request precedes it. In the last two cases the lock stays where it was.
pub receive_request-Answered :
    (msg : Message) (m : Mak)
    → Inv m
    → (m' : Mak) × (receive_request msg m ≡ some m')
      × (m'.waiting_queue ≡ insert precedes msg m.waiting_queue)
      × Answered msg m m'
unfolding receive_request
receive_request-Answered msg m v = elim (Bool-cases m.is_locked) [
  | inr e ↦ (request_free msg (queued msg m), rw e refl, refl, answer_free msg m e (v.free e).0)
  | inl e ↦
      let (f, at_front, rank) = insert-front msg m.waiting_queue v.sorted in
      (
        request_locked f msg (queued msg m),
        rw (e, at_front) refl,
        request_locked-queue f msg (queued msg m),
        elim rank [
          | inl first ↦ answer_first msg f m e first
          | inr before ↦ answer_earlier msg f m e before.0 before.1
        ],
      )
]
