-- ===== src/Lak/Extends.antt =====
-- What the token node does to the base class: it only sends, and takes no message of its own accord.
use aosproject.Prelude.{
  ℕ, ◌+◌, ◌-◌, ◌≡◌, refl, sym, ap, ◌∙◌, subst, inl, inr, Bool, true, false, List, [], ◌∷◌, ◌++◌,
  append-nil, append_assoc, arith, if◌then◌else◌, Bool-cases, ℤ, ◌==ℤ◌, suc_ℤ,
}
use aosproject.Text.{Bytes}
use aosproject.OrderedSet.{insert}
use aosproject.Node.MessageType.{MessageType}
use aosproject.Node.State.{
  contains, network_send, Node, Packet, send, send_access_cs_msg, send_finish_cs_msg,
  send_request_cs_msg,
}
use aosproject.Lak.Message.{Entry, Message, precedes, message_string}
use aosproject.Lak.State.{
  Lak, signal, send_ack, broadcast, send_release, send_receive, send_receive_each, send_relay,
  request_each, has_member, request_quorum, send_token,
}
use aosproject.Lak.Handlers.{
  access_cs, send_request, pass_token, answer_request, receive_request, receive_ack, keep_token,
  take_token, receive_token, receive_receive, receive_release, answer_relay, receive_relay,
  pass_to_first, finish_cs, dispatch,
}
use aosproject.Lak.Loop.{count_down, request_scheduled, tick}

-- The node has sent more, and its queue, its number and its signals are as they were.
pub record Extends (n n' : Node) : Type 0 where
  pub new : List Packet
  pub sends : n'.sent ≡ n.sent ++ new
  pub queue : n'.message_queue ≡ n.message_queue
  pub same_id : n'.node_id ≡ n.node_id
  pub same_start : n'.start_signaled ≡ n.start_signaled
  pub same_end : n'.disconnect_signaled ≡ n.disconnect_signaled

pub Extends-refl : (n : Node) → Extends n n
Extends-refl n = record {
  new = [];
  sends = sym (append-nil n.sent);
  queue = refl;
  same_id = refl;
  same_start = refl;
  same_end = refl;
}

pub Extends-trans : {a b c : Node} → Extends a b → Extends b c → Extends a c
Extends-trans {a} x y = record {
  new = x.new ++ y.new;
  sends = y.sends ∙ ap (λ l. l ++ y.new) x.sends ∙ append_assoc a.sent x.new y.new;
  queue = y.queue ∙ x.queue;
  same_id = y.same_id ∙ x.same_id;
  same_start = y.same_start ∙ x.same_start;
  same_end = y.same_end ∙ x.same_end;
}

pub network_send-Extends :
    (from to time : ℕ) (text : Bytes) (n : Node) → Extends n (network_send from to time text n)
unfolding network_send
network_send-Extends from to time text n = record {
  new = _;
  sends = refl;
  queue = refl;
  same_id = refl;
  same_start = refl;
  same_end = refl;
}

send-Extends : (to : ℤ) (text : Bytes) (n : Node) → Extends n (send to text n)
unfolding send
send-Extends to text n = network_send-Extends _ _ _ _ n

signal-Extends : (kind : MessageType) (to : ℤ) (n : Node) → Extends n (signal kind to n)
unfolding signal
signal-Extends kind to n = send-Extends to _ n

other-Extends : (b : Bool) {n n' : Node} → Extends n n' → Extends n (if b then n else n')
other-Extends true {n} e = Extends-refl n
other-Extends false e = e

broadcast-Extends : (kind : MessageType) (qs : List ℤ) (n : Node) → Extends n (broadcast kind qs n)
unfolding broadcast
broadcast-Extends kind [] n = Extends-refl n
broadcast-Extends kind (q ∷ qs) n =
    Extends-trans (other-Extends (q ==ℤ n.node_id) (signal-Extends kind q n))
      (broadcast-Extends kind qs _)

send_receive_each-Extends : (qs : List ℤ) (n : Node) → Extends n (send_receive_each qs n)
unfolding send_receive_each send_receive
send_receive_each-Extends [] n = Extends-refl n
send_receive_each-Extends (q ∷ qs) n =
    Extends-trans
      (other-Extends (q ==ℤ n.node_id) (broadcast-Extends MessageType.receive n.quorum_set n))
      (send_receive_each-Extends qs _)

request_each-Extends : (seq : ℤ) (qs : List ℤ) (n : Node) → Extends n (request_each seq qs n)
unfolding request_each
request_each-Extends seq [] n = Extends-refl n
request_each-Extends seq (q ∷ qs) n =
    Extends-trans (other-Extends (q ==ℤ n.node_id) (send-Extends q _ n))
      (request_each-Extends seq qs _)

request_quorum-Extends : (holder seq : ℤ) (n : Node) → Extends n (request_quorum holder seq n)
unfolding request_quorum
request_quorum-Extends holder seq n = elim (Bool-cases (has_member holder n.quorum_set)) [
  | inl e ↦ rw e (send-Extends holder _ n)
  | inr e ↦ rw e (request_each-Extends seq n.quorum_set n)
]

control-Extends :
    (n : Node)
    → Extends n (send_access_cs_msg n)
      × Extends n (send_finish_cs_msg n)
      × Extends n (send_request_cs_msg n)
unfolding send_access_cs_msg send_finish_cs_msg send_request_cs_msg
control-Extends n =
    (network_send-Extends _ _ _ _ n, network_send-Extends _ _ _ _ n, network_send-Extends _ _ _ _ n)

timer-Extends : (n : Node) (t : ℕ) → Extends n (record n { cs_timer = t })
timer-Extends n t = record {
  new = [];
  sends = sym (append-nil n.sent);
  queue = refl;
  same_id = refl;
  same_start = refl;
  same_end = refl;
}

send_token-Extends : (to : ℤ) (m : Lak) → Extends m.node (send_token to m).node
unfolding send_token
send_token-Extends to m = send-Extends to _ m.node

pass_token-Extends : (to : ℤ) (m : Lak) → Extends m.node (pass_token to m).node
unfolding pass_token send_release
pass_token-Extends to m =
    Extends-trans (send_token-Extends to m)
      (broadcast-Extends MessageType.release _ (send_token to m).node)

access_cs-Extends : (m : Lak) → Extends m.node (access_cs m).node
unfolding access_cs
access_cs-Extends m =
    Extends-trans (timer-Extends m.node (m.cs_time))
      (control-Extends (record (m.node) { cs_timer = m.cs_time })).0

keep_token-Extends : (m : Lak) → Extends m.node (keep_token m).node
unfolding keep_token
keep_token-Extends m = send_receive_each-Extends m.quorum_set m.node

answer_request-Extends : (msg : Entry) (m : Lak) → Extends m.node (answer_request msg m).node
unfolding answer_request send_ack send_relay
answer_request-Extends msg m = ground (
  arith,
  pass_token-Extends msg.from (record m { token_list = insert precedes msg m.token_list }),
  Extends-refl m.node,
  signal-Extends MessageType.ack msg.from m.node,
  send-Extends m.token_holder
      (message_string (record {
        head = record {
          kind = MessageType.relay;
          from = msg.from;
          to = m.token_holder;
          seq = msg.seq;
          relay = m.node_id;
        };
        req_list = [];
      }))
      m.node,
)

-- Where only the other members change, and a test decides which.
same_node-Extends : (m m' : Lak) → m'.node ≡ m.node → Extends m.node m'.node
same_node-Extends m m' e = subst (Extends m.node) (sym e) (Extends-refl m.node)

receive_request-Extends : (msg : Entry) (m : Lak) → Extends m.node (receive_request msg m).node
unfolding receive_request
receive_request-Extends msg m = ground (
  arith,
  answer_request-Extends (record msg { seq = suc_ℤ msg.seq }) (record m { seq = suc_ℤ msg.seq }),
  answer_request-Extends msg m,
)

receive_release-Extends : (msg : Entry) (m : Lak) → Extends m.node (receive_release msg m).node
unfolding receive_release
receive_release-Extends msg m = ground (arith, Extends-refl m.node)

answer_relay-Extends : (msg : Entry) (m : Lak) → Extends m.node (answer_relay msg m).node
unfolding answer_relay
answer_relay-Extends msg m = ground (arith, Extends-refl m.node, pass_token-Extends msg.relay m)

receive_relay-Extends : (msg : Entry) (m : Lak) → Extends m.node (receive_relay msg m).node
unfolding receive_relay
receive_relay-Extends msg m =
    ground
      (arith, answer_relay-Extends msg (record m { seq = msg.seq }), answer_relay-Extends msg m)

take_token-Extends :
    (es : List Entry) (from : ℤ) (m : Lak) → Extends m.node (take_token es from m).node
unfolding take_token
take_token-Extends [] from m = keep_token-Extends m
take_token-Extends (first ∷ rest) from m = elim (Bool-cases (first.from ==ℤ m.node_id)) [
  | inl own ↦ rw own (Extends-trans (keep_token-Extends m) (access_cs-Extends (keep_token m)))
  | inr other ↦ rw other (send_token-Extends from m)
]

-- Handling a message sends, and leaves the queue alone.
pub dispatch-Extends :
    (k : MessageType) (msg : Message) (m : Lak) → Extends m.node (dispatch k msg m).node
unfolding dispatch receive_token receive_ack receive_receive
dispatch-Extends MessageType.request msg m = receive_request-Extends msg.head m
dispatch-Extends MessageType.release msg m = receive_release-Extends msg.head m
dispatch-Extends MessageType.relay msg m = receive_relay-Extends msg.head m
dispatch-Extends MessageType.token msg m = take_token-Extends msg.req_list msg.from m
dispatch-Extends _ msg m = Extends-refl m.node

send_request-Extends : (m : Lak) → Extends m.node (send_request m).node
unfolding send_request
send_request-Extends m =
    ground (arith, access_cs-Extends m, request_quorum-Extends m.token_holder m.seq m.node)

pass_to_first-Extends : (es : List Entry) (m : Lak) → Extends m.node (pass_to_first es m).node
unfolding pass_to_first
pass_to_first-Extends [] m = Extends-refl m.node
pass_to_first-Extends (first ∷ rest) m = pass_token-Extends first.from m

finish_cs-Extends : (m : Lak) → Extends m.node (finish_cs m).node
unfolding finish_cs
finish_cs-Extends m =
    Extends-trans (control-Extends m.node).1
      (pass_to_first-Extends m.token_list (record m { node = send_finish_cs_msg m.node }))

count_down-Extends : (m : Lak) → Extends m.node (count_down m).node
unfolding count_down
count_down-Extends m = ground (arith, finish_cs-Extends m, timer-Extends m.node (m.cs_timer - 1))

counted-Extends : (n : Node) (t k : ℕ) → Extends n (record n { timer = t; num_req = k })
counted-Extends n t k = record {
  new = [];
  sends = sym (append-nil n.sent);
  queue = refl;
  same_id = refl;
  same_start = refl;
  same_end = refl;
}

request_scheduled-Extends : (m : Lak) → Extends m.node (request_scheduled m).node
unfolding request_scheduled
request_scheduled-Extends m = elim (Bool-cases (contains m.time_schedule m.timer)) [
  | inl due ↦
      let n = record (m.node) { num_req = m.num_req + 1 } in
      rw due (
        Extends-trans (counted-Extends m.node m.timer (m.num_req + 1)) (
          Extends-trans (control-Extends n).2
            (send_request-Extends (record m { node = send_request_cs_msg n }))))
  | inr idle ↦ rw idle (Extends-refl m.node)
]

pub tick-Extends : (m : Lak) → Extends m.node (tick m).node
unfolding tick
tick-Extends m =
    let later = record m { node = record (m.node) { timer = m.timer + 1 } } in
    Extends-trans (counted-Extends m.node (m.timer + 1) m.num_req)
      (Extends-trans (count_down-Extends later) (request_scheduled-Extends (count_down later)))
