-- ===== src/Lak/State.antt =====
-- The members of `LAKNode`, its initialisation, and the methods that only send.
use aosproject.Prelude.{
  Bool, false, ◌||◌, Option, none, some, List, [], ◌∷◌, if◌then◌else◌, ℤ, pos, minus_one, ◌==ℤ◌,
}
use aosproject.Node.MessageType.{MessageType}
use aosproject.Node.State.{Node, send}
use aosproject.Node.Config
use aosproject.Node.Config.{Files}
use aosproject.Lak.Message.{Entry, Message, message_string}

pub record Lak : Type 0 where
  pub node : Node
  pub open node use *
  pub seq : ℤ
  pub token_holder : ℤ
  pub expt_resp : ℤ
  pub is_in_cs : Bool
  pub has_token : Bool
  pub acked_node : List ℤ  -- ascending
  pub token_list : List Entry  -- ascending

abbrev pub unknown_holder : ℤ
unknown_holder = minus_one

-- The members that `init` sets, from the first member of the quorum: node 1 has the token.
unfoldable pub start_state : ℤ → Node → Lak
unfolding ◌==ℤ◌
start_state first n = record {
  node = record n { timer = 0 };
  seq = pos 1;
  token_holder = (if first ==ℤ pos 1 then pos 1 else unknown_holder);
  expt_resp = minus_one;
  is_in_cs = false;
  has_token = (if first ==ℤ pos 1 then n.node_id ==ℤ pos 1 else false);
  acked_node = [];
  token_list = [];
}

unfoldable pub start_first : List ℤ → Node → Option Lak
unfolding start_state
start_first [] n = none
start_first (q ∷ qs) n = some (start_state q n)

-- `none` is `*begin()` of an empty quorum.
unfoldable pub init : Files → Node → Option Lak
unfolding start_first Config.init
init files n =
    let n' = Config.init files (record n { quorum_set = []; time_schedule = [] }) in
    start_first n'.quorum_set n'

-- The fields that a local `Message msg;` leaves unset, and that its text does not show, are 0 here.
abbrev blank : Entry
blank = record { kind = MessageType.request; from = pos 0; to = pos 0; seq = pos 0; relay = pos 0 }

-- A message without further fields to one node: ACK, RELEASE or RECEIVE.
unfoldable pub signal : MessageType → ℤ → Node → Node
unfolding message_string send
signal kind to n =
    send to
      (message_string
        (record { head = record blank { kind = kind; from = n.node_id; to = to }; req_list = [] }))
      n

unfoldable pub send_ack : ℤ → Node → Node
send_ack = signal MessageType.ack

-- The loop over the other members of the quorum.
unfoldable pub broadcast : MessageType → List ℤ → Node → Node
unfolding signal
broadcast kind [] n = n
broadcast kind (q ∷ qs) n = broadcast kind qs (if q ==ℤ n.node_id then n else signal kind q n)

unfoldable pub send_release : Node → Node
send_release n = broadcast MessageType.release n.quorum_set n

unfoldable pub send_receive : Node → Node
send_receive n = broadcast MessageType.receive n.quorum_set n

-- `for (iter ...) if ((*iter) != node_id) send_receive();` in `receive_token`.
unfoldable pub send_receive_each : List ℤ → Node → Node
send_receive_each [] n = n
send_receive_each (q ∷ qs) n = send_receive_each qs (if q ==ℤ n.node_id then n else send_receive n)

unfoldable pub send_relay : ℤ → ℤ → ℤ → Node → Node
unfolding message_string send
send_relay holder from seq n =
    send holder
      (message_string (record {
        head = record {
          kind = MessageType.relay;
          from = from;
          to = holder;
          seq = seq;
          relay = n.node_id;
        };
        req_list = [];
      }))
      n

unfoldable pub request_message : ℤ → ℤ → Node → Message
request_message seq to n = record {
  head = record blank { kind = MessageType.request; from = n.node_id; to = to; seq = seq };
  req_list = [];
}

unfoldable pub request_each : ℤ → List ℤ → Node → Node
unfolding request_message message_string send
request_each seq [] n = n
request_each seq (q ∷ qs) n =
    request_each seq qs
      (if q ==ℤ n.node_id then n else send q (message_string (request_message seq q n)) n)

unfoldable pub has_member : ℤ → List ℤ → Bool
has_member id [] = false
has_member id (q ∷ qs) = q ==ℤ id || has_member id qs

-- To the holder of the token if it is in the quorum, and else to all others in it.
unfoldable pub request_quorum : ℤ → ℤ → Node → Node
unfolding request_message message_string send
request_quorum holder seq n =
    if has_member holder n.quorum_set
    then send holder (message_string (request_message seq holder n)) n
    else request_each seq n.quorum_set n

unfoldable pub send_token : ℤ → Lak → Lak
unfolding message_string send
send_token to m = record m {
  node =
      send to
        (message_string (record {
          head = record blank { kind = MessageType.token; from = m.node_id; to = to };
          req_list = m.token_list;
        }))
        m.node;
  token_holder = to;
  has_token = false;
  token_list = [];
}
