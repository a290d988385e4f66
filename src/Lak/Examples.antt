-- ===== src/Lak/Examples.antt =====
-- Node 2 of the quorum {1, 2, 3}: runs of the token node, and its theorems at them.
use aosproject.Prelude.{
  ℕ, zero, suc, ◌+◌, ◌<◌, ◌≡◌, refl, ◌≢◌, ◌⊎◌, inl, true, false, Option, none, some, List, [], ◌∷◌,
  arith, ◌==◌, if◌then◌else◌, length, ℤ, pos, ◌==ℤ◌, ltb_ℤ, suc_ℤ,
}
use aosproject.Text.{Bytes}
use aosproject.Node.MessageType.{MessageType}
use aosproject.Node.State.{receive, get_message, Node}
use aosproject.Lak.Message.{Entry, Message, precedes, message_string, string_message}
use aosproject.Lak.State.{Lak}
use aosproject.Lak.Handlers.{
  access_cs, answer_request, receive_request, keep_token, take_token, receive_token, receive_relay,
  dispatch, receive_message,
}
use aosproject.Lak.Loop.{handle}
use aosproject.Lak.Message.Codec.{
  string_message-token, string_message-token_hangs, string_message-plain_message,
}
use aosproject.Lak.Conservation.{total, IsGuarded}
use aosproject.Text.{atoi, show_int}
use aosproject.OrderedSet.{insert}
use aosproject.Node.State.{
  new as new_node, contains, send_access_cs_msg, send_request_cs_msg, network_send,
}
use aosproject.Node.Config
use aosproject.Node.Config.{
  Files, parse_quorum, parse_schedule, read_schedule, insert_quorum, insert_times, lines, add_byte,
  file_name,
}
use aosproject.Quorum.Write.{host}
use aosproject.Lak.State.{init, start_first, start_state}
use aosproject.Lak.Loop.{tick, count_down, request_scheduled}
use aosproject.Lak.Handlers.{send_request}
use aosproject.Lak.System.{System, moved, Reach, IsBooted, RelaysAtHolder}
use aosproject.Lak.System
use aosproject.Lak.MutualExclusion.{mutual_exclusion}
use aosproject.Lak.Runs.{Run, start, next, Run-conserves}
use aosproject.Lak.Faults.{receive_relay_forges, receive_token_forgets, receive_token_floods}

abbrev node_two : Node
node_two = record {
  node_id = pos 2;
  cs_time = 5;
  quorum_set = pos 1 ∷ pos 2 ∷ pos 3 ∷ [];
  time_schedule = [];
  timer = 7;
  cs_timer = 0;
  num_req = 0;
  start_signaled = true;
  disconnect_signaled = false;
  done = false;
  message_queue = [];
  sent = [];
}

abbrev unset : Entry
unset = record { kind = MessageType.fail; from = pos 0; to = pos 0; seq = pos 0; relay = pos 0 }

abbrev request_by : ℤ → ℤ → Entry
request_by from seq = record {
  kind = MessageType.request;
  from = from;
  to = pos 1;
  seq = seq;
  relay = pos 0;
}

abbrev token_to : ℤ → List Entry → Message
token_to to es = record {
  head = record unset { kind = MessageType.token; from = pos 1; to = to };
  req_list = es;
}

-- Node 2, which has asked node 1 for the token.
abbrev asking : Lak
asking = record {
  node = node_two;
  seq = pos 4;
  token_holder = pos 1;
  expt_resp = pos 2;
  is_in_cs = false;
  has_token = false;
  acked_node = [];
  token_list = [];
}

own_token_enters :
    (receive_token (token_to (pos 2) (request_by (pos 2) (pos 3) ∷ [])) asking).is_in_cs ≡ true
unfolding receive_token take_token keep_token access_cs ◌==ℤ◌
own_token_enters = refl

request_learns_seq : (receive_request (request_by (pos 3) (pos 9)) asking).seq ≡ pos 10
unfolding receive_request answer_request ltb_ℤ ◌==ℤ◌ suc_ℤ
request_learns_seq = refl

abbrev two_requests : List Entry
two_requests = request_by (pos 2) (pos 3) ∷ request_by (pos 3) (pos 3) ∷ []

string_message-token_example :
    string_message 3 unset (message_string (token_to (pos 2) two_requests))
    ≡ some (token_to (pos 2) two_requests)
unfolding precedes ltb_ℤ ◌==ℤ◌
string_message-token_example =
    string_message-token unset (token_to (pos 2) two_requests) refl
      ((refl, refl), ((refl, refl), tt)) ((refl, tt), (tt, tt)) (omega arith)

string_message-token_hangs_example :
    string_message 1000 unset (message_string (token_to (pos 2) (request_by (pos 2) (pos 12) ∷ [])))
    ≡ none
string_message-token_hangs_example =
    string_message-token_hangs 1000 unset (token_to (pos 2) (request_by (pos 2) (pos 12) ∷ [])) refl
      ((refl, refl), tt) (λ d. omega (arith, d))

relayed : Entry
relayed = record { kind = MessageType.relay; from = pos 3; to = pos 2; seq = pos 12; relay = pos 5 }

string_message-plain_message_example :
    string_message 0 unset (message_string (record { head = relayed; req_list = [] }))
    ≡ some (record { head = relayed; req_list = [] })
unfolding relayed
string_message-plain_message_example =
    string_message-plain_message 0 unset (record { head = relayed; req_list = [] }) tt (λ e. cc)

-- Node 2 reads the TOKEN that answers its request.
token_text : Bytes
token_text = message_string (token_to (pos 2) [])

queued : Lak
queued = record asking { node = receive token_text asking.node }

handled : Run queued 1 (keep_token asking)
unfolding queued token_text get_message receive receive_message dispatch receive_token take_token
handled =
    next {k = 0} 1 1 start (handle 1 unset token_text asking.node got done)
      (token_to (pos 2) [], is_read, refl, refl) refl
  where
    got : get_message (receive token_text asking.node) ≡ some (token_text, asking.node)
    got = refl

    is_read : string_message 1 unset token_text ≡ some (token_to (pos 2) [])
    is_read = string_message-token unset (token_to (pos 2) []) refl tt tt (omega arith)

    done : receive_message 1 unset token_text asking ≡ some (keep_token asking)
    done = rw is_read refl

Run-conserves_example :
    (total (keep_token asking) ≡ total queued + 1) × IsGuarded (keep_token asking)
unfolding queued
Run-conserves_example = Run-conserves handled (inl refl)

receive_relay_forges_example :
    (total (receive_relay relayed asking) ≡ total asking + 1)
    × ((receive_relay relayed asking).token_holder ≡ relayed.relay)
receive_relay_forges_example = receive_relay_forges relayed asking refl refl (λ e. cc)

receive_token_forgets_example :
    (receive_token (token_to (pos 2) two_requests) asking
      ≡ receive_token (token_to (pos 2) (request_by (pos 2) (pos 3) ∷ [])) asking)
    × (((request_by (pos 2) (pos 3)).from ≢ asking.node_id)
        ⊎ ((receive_token (token_to (pos 2) two_requests) asking).token_list ≡ asking.token_list))
receive_token_forgets_example =
    receive_token_forgets (token_to (pos 2) []) (request_by (pos 2) (pos 3))
      (request_by (pos 3) (pos 3) ∷ []) [] asking

receive_token_floods_example : length (receive_token (token_to (pos 2) []) asking).sent ≡ 4
unfolding ◌==ℤ◌
receive_token_floods_example = receive_token_floods (token_to (pos 2) []) asking refl

-- Nodes 1 and 2 are a quorum, and request the section in their first round.
files : Files
files [] = []
files (c ∷ name) = if c == b'q' then b'1' ∷ 10 ∷ b'2' ∷ 10 ∷ [] else b'5' ∷ 10 ∷ b'1' ∷ 10 ∷ []

or_default : Option Lak → Lak
or_default none = asking
or_default (some m) = m

booted : System
unfolding files or_default
booted = record {
  nodes = λ j. or_default (init files (new_node (pos (host (suc j)))));
  flying = [];
}

booted-IsBooted : IsBooted files 2 booted
unfolding booted or_default files init new_node Config.init start_first start_state parse_quorum
    parse_schedule read_schedule insert_quorum insert_times lines add_byte insert ltb_ℤ ◌==ℤ◌ atoi
    file_name show_int
booted-IsBooted = (refl, at)
  where
    at :
        (j : ℕ)
        → j < 2
        → init files (new_node (pos (host (suc j))))
          ≡ some (or_default (init files (new_node (pos (host (suc j))))))
    at zero l = refl
    at (suc zero) l = refl
    at (suc (suc j)) l = absurd (omega (arith, l))

first_round : Reach 2 booted (moved booted 0 (tick (booted.nodes 0)))
unfolding booted or_default files init new_node Config.init start_first start_state parse_quorum
    parse_schedule read_schedule insert_quorum insert_times lines add_byte insert ltb_ℤ ◌==ℤ◌ atoi
    file_name show_int get_message
first_round = System.later System.start (System.round 0 (omega arith) refl (omega arith))

first_in_cs : ((moved booted 0 (tick (booted.nodes 0))).nodes 0).is_in_cs ≡ true
unfolding booted or_default files init new_node Config.init start_first start_state parse_quorum
    parse_schedule read_schedule insert_quorum insert_times lines add_byte insert ltb_ℤ ◌==ℤ◌ atoi
    file_name show_int tick count_down request_scheduled send_request access_cs send_access_cs_msg
    send_request_cs_msg network_send contains
first_in_cs = refl

mutual_exclusion_example : ◌≡◌ {A = ℕ} 0 0
unfolding first_round
mutual_exclusion_example =
    mutual_exclusion files 2 booted-IsBooted first_round (tt, tt) 0 0 (omega arith) (omega arith)
      first_in_cs first_in_cs
