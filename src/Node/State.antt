-- ===== src/Node/State.antt =====
-- `class Node`: state, signals, the message queue and what is sent on the node's behalf.
use aosproject.Prelude.{
  ℕ, ◌%◌, ◌^◌, ◌≡◌, refl, Bool, true, false, ◌||◌, Option, none, some, List, [], ◌∷◌, ◌++◌, ◌==◌, ℤ,
  to_unsigned,
}
use aosproject.Text.{Bytes, show_int}

-- The arguments of one call of `NodeNetwork::send`.
pub record Packet : Type 0 where
  pub from : ℕ  -- unsigned int
  pub to : ℕ  -- unsigned int
  pub timestamp : ℕ  -- unsigned long
  pub text : Bytes

pub record Node : Type 0 where
  pub node_id : ℤ
  pub cs_time : ℕ
  pub quorum_set : List ℤ  -- ascending
  pub time_schedule : List ℕ  -- ascending
  pub timer : ℕ
  pub cs_timer : ℕ
  pub num_req : ℕ
  pub start_signaled : Bool
  pub disconnect_signaled : Bool
  pub done : Bool
  pub message_queue : List Bytes  -- oldest first
  pub sent : List Packet  -- oldest first

-- The constructor.
unfoldable pub new : ℤ → Node
new id = record {
  node_id = id;
  cs_time = 0;
  quorum_set = [];
  time_schedule = [];
  timer = 0;
  cs_timer = 0;
  num_req = 0;
  start_signaled = false;
  disconnect_signaled = false;
  done = false;
  message_queue = [];
  sent = [];
}

unfoldable pub start_signal : Node → Node
start_signal n = record n { start_signaled = true }

unfoldable pub disconnect_signal : Node → Node
disconnect_signal n = record n { disconnect_signaled = true }

-- `m_node_network.send`.
unfoldable pub network_send : ℕ → ℕ → ℕ → Bytes → Node → Node
network_send from to timestamp text n = record n { sent = n.sent ++ packet ∷ [] }
  where
    packet : Packet
    packet = record { from = from; to = to; timestamp = timestamp; text = text }

-- `Node::send` takes the time as an `unsigned int`.
unfoldable pub send : ℤ → Bytes → Node → Node
unfolding network_send to_unsigned
send to text n = network_send (to_unsigned n.node_id) (to_unsigned to) (n.timer % 2 ^ 32) text n

-- Control messages go to 255, and 44 is the machine of the test bed.
abbrev pub control : ℕ
control = 255

abbrev pub testbed : ℕ
testbed = 44

unfoldable pub send_access_cs_msg : Node → Node
unfolding network_send to_unsigned
send_access_cs_msg n = network_send (to_unsigned n.node_id) control n.timer (b'1' ∷ []) n

unfoldable pub send_finish_cs_msg : Node → Node
unfolding network_send to_unsigned
send_finish_cs_msg n = network_send (to_unsigned n.node_id) control n.timer (b'2' ∷ []) n

unfoldable pub send_request_cs_msg : Node → Node
unfolding network_send to_unsigned
send_request_cs_msg n = network_send (to_unsigned n.node_id) control n.timer (b'3' ∷ []) n

-- `Node::send_end_signal`, with `NodeNetwork::send_end_signal` that it calls.
unfoldable pub send_end_signal : Node → Node
unfolding network_send to_unsigned
send_end_signal n =
    network_send (to_unsigned n.node_id) testbed 0 (b'E' ∷ b'N' ∷ b'D' ∷ b' ' ∷ show_int n.node_id)
      (record n { done = true })

-- The two ends of the message queue; `receive` runs on the thread of the network.
unfoldable pub receive : Bytes → Node → Node
receive message n = record n { message_queue = n.message_queue ++ message ∷ [] }

pop : List Bytes → Node → Option (Bytes × Node)
pop [] n = none
pop (message ∷ rest) n = some (message, record n { message_queue = rest })

-- `none` is the result `false`.
unfoldable pub get_message : Node → Option (Bytes × Node)
unfolding pop
get_message n = pop n.message_queue n

-- `time_schedule.find(timer) != time_schedule.end()`.
unfoldable pub contains : List ℕ → ℕ → Bool
contains [] t = false
contains (x ∷ xs) t = x == t || contains xs t

-- Messages are taken in the order in which they arrived, whatever arrives in between.
pub get_message-receive :
    (n : Node) (first text : Bytes) (rest : List Bytes)
    → n.message_queue ≡ first ∷ rest
    → get_message (receive text n) ≡ some (first, record n { message_queue = rest ++ text ∷ [] })
unfolding get_message receive
get_message-receive n first text rest h = rw h refl
