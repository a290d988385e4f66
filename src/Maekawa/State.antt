-- ===== src/Maekawa/State.antt =====
-- The members of `MAKNode`, its map of responses, and the methods that only send.
-- `std::map` is a list of pairs with ascending keys.
use aosproject.Prelude.{
  Bool, false, ◌||◌, List, [], ◌∷◌, if◌then◌else◌, ℤ, pos, minus_one, ◌==ℤ◌, ltb_ℤ,
}
use aosproject.Node.MessageType.{MessageType, is_fail}
use aosproject.Node.State.{new as new_node, Node, send, send_request_cs_msg}
use aosproject.Maekawa.Message.{Message, message_string}

pub record Mak : Type 0 where
  pub node : Node
  pub open node use *
  pub seq : ℤ
  pub is_locked : Bool
  pub is_in_cs : Bool
  pub locked_for : ℤ × ℤ  -- sequence number and node
  pub response_map : List (ℤ × MessageType)
  pub waiting_queue : List Message
  pub inquiry_list : List Message

abbrev pub nobody : ℤ × ℤ
nobody = (minus_one, minus_one)

-- The constructor.
unfoldable pub new : ℤ → Mak
unfolding new_node
new id = record {
  node = new_node id;
  seq = pos 1;
  is_locked = false;
  is_in_cs = false;
  locked_for = nobody;
  response_map = [];
  waiting_queue = [];
  inquiry_list = [];
}

-- `find`, then `insert` or the update through the iterator.
unfoldable pub put : ℤ → MessageType → List (ℤ × MessageType) → List (ℤ × MessageType)
put k v [] = (k, v) ∷ []
put k v ((j, w) ∷ m) =
    if k ==ℤ j then (j, v) ∷ m else if ltb_ℤ k j then (k, v) ∷ (j, w) ∷ m else (j, w) ∷ put k v m

unfoldable pub has_fail : List (ℤ × MessageType) → Bool
has_fail [] = false
has_fail ((k, v) ∷ m) = is_fail v || has_fail m

-- `send_locked`, `send_failed`, `send_inquiry`, `send_relinquish`, `send_release`: the same body
-- with five types. The field `seq` is not set there, and not printed.
unfoldable pub signal : MessageType → ℤ → Node → Node
unfolding message_string send
signal kind to n =
    send to (message_string (record { kind = kind; from = n.node_id; seq = pos 0 })) n

unfoldable pub send_locked : ℤ → Node → Node
unfolding signal
send_locked = signal MessageType.lock

unfoldable pub send_failed : ℤ → Node → Node
unfolding signal
send_failed = signal MessageType.fail

unfoldable pub send_inquiry : ℤ → Node → Node
unfolding signal
send_inquiry = signal MessageType.inquire

unfoldable pub send_relinquish : ℤ → Node → Node
unfolding signal
send_relinquish = signal MessageType.relinquish

unfoldable pub send_release : ℤ → Node → Node
unfolding signal
send_release = signal MessageType.release

-- The loop over the quorum that sends a request, each with its control message.
unfoldable pub request_quorum : Message → List ℤ → Node → Node
unfolding send_request_cs_msg send
request_quorum msg [] n = n
request_quorum msg (q ∷ qs) n =
    request_quorum msg qs
      (if q ==ℤ n.node_id then n else send q (message_string msg) (send_request_cs_msg n))

-- The loop over the quorum in `finishCS`.
unfoldable pub release_quorum : List ℤ → Node → Node
unfolding send_release
release_quorum [] n = n
release_quorum (q ∷ qs) n = release_quorum qs (if q ==ℤ n.node_id then n else send_release q n)

-- The loop over `inquiry_list` in `receive_failed`.
unfoldable pub relinquish_all : List Message → Node → Node
unfolding send_relinquish
relinquish_all [] n = n
relinquish_all (m ∷ ms) n = relinquish_all ms (send_relinquish m.from n)
