-- ===== src/Lak/Tokens.antt =====
-- The TOKEN messages among the packets that a node has sent.
use aosproject.Prelude.{
  ℕ, ◌+◌, ◌≡◌, refl, ap, ◌∙◌, inl, inr, Bool, true, false, List, [], ◌∷◌, ◌++◌, arith, Bool-cases,
  ℤ, ◌==ℤ◌,
}
use aosproject.Text.{Bytes, atoi, first_field}
use aosproject.Node.MessageType.{MessageType, of_number, IsEnumerator}
use aosproject.Node.State.{
  network_send, Node, Packet, send, send_access_cs_msg, send_finish_cs_msg, send_request_cs_msg,
}
use aosproject.Lak.Message.{Entry, Message, message_string}
use aosproject.Lak.State.{
  Lak, signal, send_ack, broadcast, send_release, send_receive, send_receive_each, send_relay,
  request_message, request_each, has_member, request_quorum, send_token,
}
use aosproject.Lak.Message.Codec.{message_string-kind}

abbrev pub is_token : MessageType → Bool
is_token MessageType.token = true
is_token _ = false

abbrev pub bit : Bool → ℕ
bit true = 1
bit false = 0

-- What a receiver takes a text for.
abbrev pub weight : Bytes → ℕ
weight text = bit (is_token (of_number (atoi (first_field text))))

unfoldable pub token_count : List Packet → ℕ
token_count [] = 0
token_count (p ∷ ps) = weight p.text + token_count ps

-- How many TOKEN messages a node has sent.
unfoldable pub tokens : Node → ℕ
unfolding token_count
tokens n = token_count n.sent

pub tokens-same : (n n' : Node) → n'.sent ≡ n.sent → tokens n' ≡ tokens n
unfolding tokens
tokens-same n n' e = ap token_count e

pub token_count-append :
    (ps qs : List Packet) → token_count (ps ++ qs) ≡ token_count ps + token_count qs
unfolding token_count
token_count-append [] qs = omega arith
token_count-append (p ∷ ps) qs = omega (arith, token_count-append ps qs)

tokens-network_send :
    (from to time : ℕ) (text : Bytes) (n : Node)
    → tokens (network_send from to time text n) ≡ tokens n + weight text
unfolding tokens network_send
tokens-network_send from to time text n = rw token_count-append (omega arith)

tokens-send :
    (k : MessageType)
    → IsEnumerator k
    → (to f t s r : ℤ) (es : List Entry) (n : Node)
    → tokens (
        send to
          (message_string (record {
            head = record { kind = k; from = f; to = t; seq = s; relay = r };
            req_list = es;
          }))
          n)
      ≡ tokens n + bit (is_token k)
unfolding send
tokens-send k h to f t s r es n =
    let m : Message = record {
      head = record { kind = k; from = f; to = t; seq = s; relay = r };
      req_list = es;
    } in
    rw (tokens-network_send, message_string-kind m h) refl

pub tokens-control_access : (n : Node) → tokens (send_access_cs_msg n) ≡ tokens n
unfolding send_access_cs_msg of_number atoi first_field
tokens-control_access n = rw tokens-network_send (omega arith)

pub tokens-control_finish : (n : Node) → tokens (send_finish_cs_msg n) ≡ tokens n
unfolding send_finish_cs_msg of_number atoi first_field
tokens-control_finish n = rw tokens-network_send (omega arith)

pub tokens-control_request : (n : Node) → tokens (send_request_cs_msg n) ≡ tokens n
unfolding send_request_cs_msg of_number atoi first_field
tokens-control_request n = rw tokens-network_send (omega arith)

pub tokens-send_ack : (to : ℤ) (n : Node) → tokens (send_ack to n) ≡ tokens n
unfolding send_ack signal
tokens-send_ack to n = rw (tokens-send MessageType.ack tt) (omega arith)

tokens-broadcast_release :
    (qs : List ℤ) (n : Node) → tokens (broadcast MessageType.release qs n) ≡ tokens n
unfolding broadcast signal
tokens-broadcast_release [] n = refl
tokens-broadcast_release (q ∷ qs) n = elim (Bool-cases (q ==ℤ n.node_id)) [
  | inl e ↦ rw e (tokens-broadcast_release qs n)
  | inr e ↦
      rw e (rw (tokens-broadcast_release qs _, tokens-send MessageType.release tt) (omega arith))
]

pub tokens-send_release : (n : Node) → tokens (send_release n) ≡ tokens n
unfolding send_release
tokens-send_release n = tokens-broadcast_release n.quorum_set n

tokens-broadcast-receive :
    (qs : List ℤ) (n : Node) → tokens (broadcast MessageType.receive qs n) ≡ tokens n
unfolding broadcast signal
tokens-broadcast-receive [] n = refl
tokens-broadcast-receive (q ∷ qs) n = elim (Bool-cases (q ==ℤ n.node_id)) [
  | inl e ↦ rw e (tokens-broadcast-receive qs n)
  | inr e ↦
      rw e (rw (tokens-broadcast-receive qs _, tokens-send MessageType.receive tt) (omega arith))
]

pub tokens-send_receive_each : (qs : List ℤ) (n : Node) → tokens (send_receive_each qs n) ≡ tokens n
unfolding send_receive_each send_receive
tokens-send_receive_each [] n = refl
tokens-send_receive_each (q ∷ qs) n = elim (Bool-cases (q ==ℤ n.node_id)) [
  | inl e ↦ rw e (tokens-send_receive_each qs n)
  | inr e ↦ rw e (tokens-send_receive_each qs _ ∙ tokens-broadcast-receive n.quorum_set n)
]

pub tokens-send_relay :
    (holder from seq : ℤ) (n : Node) → tokens (send_relay holder from seq n) ≡ tokens n
unfolding send_relay
tokens-send_relay holder from seq n = rw (tokens-send MessageType.relay tt) (omega arith)

tokens-request_each : (seq : ℤ) (qs : List ℤ) (n : Node) → tokens (request_each seq qs n) ≡ tokens n
unfolding request_each request_message
tokens-request_each seq [] n = refl
tokens-request_each seq (q ∷ qs) n = elim (Bool-cases (q ==ℤ n.node_id)) [
  | inl e ↦ rw e (tokens-request_each seq qs n)
  | inr e ↦
      rw e (rw (tokens-request_each seq qs _, tokens-send MessageType.request tt) (omega arith))
]

pub tokens-request_quorum :
    (holder seq : ℤ) (n : Node) → tokens (request_quorum holder seq n) ≡ tokens n
unfolding request_quorum request_message
tokens-request_quorum holder seq n = elim (Bool-cases (has_member holder n.quorum_set)) [
  | inl e ↦ rw (e, tokens-send MessageType.request tt) (omega arith)
  | inr e ↦ rw e (tokens-request_each seq n.quorum_set n)
]

pub tokens-send_token : (to : ℤ) (m : Lak) → tokens (send_token to m).node ≡ tokens m.node + 1
unfolding send_token
tokens-send_token to m = rw (tokens-send MessageType.token tt) refl
