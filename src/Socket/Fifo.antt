-- ===== src/Socket/Fifo.antt =====
-- A first-in first-out queue of messages, and how a link shows one.
use aosproject.Prelude.{◌≡◌, true, List, [], ◌∷◌, ◌++◌, map, length, All}
use aosproject.Text.{Bytes}
use aosproject.Socket.{buffer_size, Call, on_receive}
use aosproject.Socket.Link.{Link}

-- The queue that the two ends promise: messages that wait, and those handed over.
pub record Fifo : Type 0 where
  pub waiting : List Bytes
  pub handed : List Bytes

pub data FifoStep (q : Fifo) : Fifo → Type 0 where
  put :
      (m : Bytes)
      → length m ≡ buffer_size
      → FifoStep q (record q { waiting = q.waiting ++ (m ∷ []) })
  take_first :
      (m : Bytes) (ms : List Bytes)
      → q.waiting ≡ m ∷ ms
      → FifoStep q (record { waiting = ms; handed = q.handed ++ (m ∷ []) })
  stay : FifoStep q q

pub data FifoRun (q : Fifo) : Fifo → Type 0 where
  rest : FifoRun q q
  more : {r s : Fifo} → FifoRun q r → FifoStep r s → FifoRun q s

abbrev pub joined_bytes : List Bytes → Bytes
joined_bytes [] = []
joined_bytes (b ∷ bs) = b ++ joined_bytes bs

abbrev pub IsBlock : Bytes → Type 0
IsBlock b = length b ≡ buffer_size

abbrev pub receipts : List Bytes → List Call
receipts ms = map (λ m. on_receive m) ms

-- What a link shows of a queue: the messages on the wire, then those in the queue of the sender, wait;
-- those that the listener was called with are handed over.
pub record Shows (l : Link) (q : Fifo) : Type 0 where
  pub on_wire : List Bytes
  pub wire_is : l.wire ≡ joined_bytes on_wire
  pub blocks : All IsBlock on_wire
  pub queued : All IsBlock l.here.messages
  pub waiting_is : q.waiting ≡ on_wire ++ l.here.messages
  pub handed_is : l.there.calls ≡ receipts q.handed
  pub listens : l.there.has_listener ≡ true
