-- ===== src/Lak/Handlers.antt =====
-- The message handlers of `LAKNode`.
use aosproject.Prelude.{
  ℕ, true, false, Option, some, List, [], ◌∷◌, if◌then◌else◌, ◌>>=◌, length, ℤ, pos, ◌==ℤ◌, ltb_ℤ,
  suc_ℤ, pred_ℤ,
}
use aosproject.Text.{Bytes}
use aosproject.OrderedSet.{insert}
use aosproject.Node.MessageType.{MessageType}
use aosproject.Node.State.{send_access_cs_msg, send_finish_cs_msg}
use aosproject.Lak.Message.{Entry, Message, precedes, string_message}
use aosproject.Lak.State.{
  Lak, unknown_holder, send_ack, send_release, send_receive_each, send_relay, request_quorum,
  send_token,
}

unfoldable pub access_cs : Lak → Lak
access_cs m = record m {
  node = send_access_cs_msg (record (m.node) { cs_timer = m.cs_time });
  is_in_cs = true;
}

unfoldable pub send_request : Lak → Lak
send_request m = if m.has_token then access_cs m else record m {
  node = request_quorum m.token_holder m.seq m.node;
  seq = suc_ℤ m.seq;
  has_token = false;
  is_in_cs = false;
  acked_node = [];
  expt_resp = pred_ℤ (pos (length m.quorum_set));
}

-- `send_token(to); send_release();`.
unfoldable pub pass_token : ℤ → Lak → Lak
pass_token to m = let m' = send_token to m in record m' { node = send_release m'.node }

-- `seq = ++msg.seq` if the node is behind: the message is then entered with the greater number.
unfoldable pub answer_request : Entry → Lak → Lak
answer_request msg m =
    if m.has_token
    then (let m' = record m { token_list = insert precedes msg m.token_list } in
        if m.is_in_cs then m' else pass_token msg.from m')
    else if m.token_holder ==ℤ unknown_holder
    then record m { node = send_ack msg.from m.node }
    else record m { node = send_relay m.token_holder msg.from msg.seq m.node }

unfoldable pub receive_request : Entry → Lak → Lak
receive_request msg m =
    if ltb_ℤ m.seq msg.seq
    then answer_request (record msg { seq = suc_ℤ msg.seq }) (record m { seq = suc_ℤ msg.seq })
    else answer_request msg m

unfoldable pub receive_ack : Entry → Lak → Lak
receive_ack msg m = record m {
  expt_resp = pred_ℤ m.expt_resp;
  acked_node = insert ltb_ℤ msg.from m.acked_node;
}

unfoldable pub keep_token : Lak → Lak
keep_token m = record m {
  node = send_receive_each m.quorum_set m.node;
  token_holder = m.node_id;
  has_token = true;
}

unfoldable pub take_token : List Entry → ℤ → Lak → Lak
take_token [] from m = keep_token m
take_token (first ∷ rest) from m =
    if first.from ==ℤ m.node_id then access_cs (keep_token m) else send_token from m

unfoldable pub receive_token : Message → Lak → Lak
receive_token msg m = take_token msg.req_list msg.from m

unfoldable pub receive_receive : Entry → Lak → Lak
receive_receive msg m = record m { token_holder = msg.from }

unfoldable pub receive_release : Entry → Lak → Lak
receive_release msg m =
    if m.token_holder ==ℤ m.node_id then m else record m { token_holder = unknown_holder }

-- `if (token_holder)`: any holder but 0, the unknown one included.
unfoldable pub answer_relay : Entry → Lak → Lak
answer_relay msg m =
    if m.token_holder ==ℤ pos 0
    then m
    else if m.is_in_cs
    then record m { token_list = insert precedes msg m.token_list }
    else pass_token msg.relay m

unfoldable pub receive_relay : Entry → Lak → Lak
receive_relay msg m =
    if ltb_ℤ m.seq msg.seq
    then answer_relay msg (record m { seq = msg.seq })
    else answer_relay msg m

unfoldable pub pass_to_first : List Entry → Lak → Lak
pass_to_first [] m = m
pass_to_first (first ∷ rest) m = pass_token first.from m

unfoldable pub finish_cs : Lak → Lak
finish_cs m =
    let m' = pass_to_first m.token_list (record m { node = send_finish_cs_msg m.node }) in
    record m' { is_in_cs = false }

unfoldable pub dispatch : MessageType → Message → Lak → Lak
dispatch MessageType.request msg m = receive_request msg.head m
dispatch MessageType.release msg m = receive_release msg.head m
dispatch MessageType.ack msg m = receive_ack msg.head m
dispatch MessageType.receive msg m = receive_receive msg.head m
dispatch MessageType.relay msg m = receive_relay msg.head m
dispatch MessageType.token msg m = receive_token msg m
dispatch _ msg m = m

-- `none` is a text whose list is never read to its end within the fuel.
unfoldable pub receive_message : ℕ → Entry → Bytes → Lak → Option Lak
receive_message fuel raw text m = do
  msg ← string_message fuel raw text
  some (dispatch msg.kind msg m)
