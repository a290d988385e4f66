-- ===== src/Maekawa/Sends.antt =====
-- What the sending loops append, as lists of packets.
use aosproject.Prelude.{
  ◌%◌, ◌^◌, ◌≡◌, refl, inl, inr, List, [], ◌∷◌, ◌++◌, map, append-nil, append_assoc, arith,
  if◌then◌else◌, Bool-cases, ℤ, pos, ◌==ℤ◌, to_unsigned,
}
use aosproject.Text.{Bytes}
use aosproject.Node.MessageType.{MessageType}
use aosproject.Node.State.{control, network_send, Node, Packet, send, send_request_cs_msg}
use aosproject.Maekawa.Message.{Message, message_string}
use aosproject.Maekawa.State.{
  signal, send_relinquish, send_release, request_quorum, release_quorum, relinquish_all,
}

-- The packet that carries a message of a type without further fields.
abbrev pub signal_packet : MessageType → ℤ → Node → Packet
signal_packet kind to n = record {
  from = to_unsigned n.node_id;
  to = to_unsigned to;
  timestamp = n.timer % 2 ^ 32;
  text = message_string (record { kind = kind; from = n.node_id; seq = pos 0 });
}

abbrev pub request_packet : Message → ℤ → Node → Packet
request_packet msg to n = record (signal_packet MessageType.request to n) {
  text = message_string msg;
}

abbrev pub control_packet : Bytes → Node → Packet
control_packet text n = record {
  from = to_unsigned n.node_id;
  to = control;
  timestamp = n.timer;
  text = text;
}

-- The members of a quorum but the node itself.
abbrev pub others : ℤ → List ℤ → List ℤ
others id [] = []
others id (q ∷ qs) = if q ==ℤ id then others id qs else q ∷ others id qs

abbrev pub appended : Node → List Packet → Node
appended n ps = record n { sent = n.sent ++ ps }

abbrev pub release_packets : Node → List ℤ → List Packet
release_packets n qs = map (λ q. signal_packet MessageType.release q n) qs

abbrev pub request_packets : Message → Node → List ℤ → List Packet
request_packets msg n [] = []
request_packets msg n (q ∷ qs) =
    control_packet (b'3' ∷ []) n ∷ request_packet msg q n ∷ request_packets msg n qs

-- A packet does not depend on what was sent before it.
pub request_packets-appended :
    (msg : Message) (n : Node) (ps : List Packet) (qs : List ℤ)
    → request_packets msg (appended n ps) qs ≡ request_packets msg n qs
request_packets-appended msg n ps [] = refl
request_packets-appended msg n ps (q ∷ qs) = rw (request_packets-appended msg n ps qs)

pub release_quorum-sent :
    (qs : List ℤ) (n : Node)
    → release_quorum qs n ≡ appended n (release_packets n (others n.node_id qs))
unfolding release_quorum send_release signal send network_send
release_quorum-sent [] n = ground (arith, append-nil n.sent)
release_quorum-sent (q ∷ qs) n = elim (Bool-cases (q ==ℤ n.node_id)) [
  | inl e ↦ rw e (release_quorum-sent qs n)
  | inr e ↦ rw e (rw (release_quorum-sent qs _) (simp append_assoc))
]

pub request_quorum-sent :
    (msg : Message) (qs : List ℤ) (n : Node)
    → request_quorum msg qs n ≡ appended n (request_packets msg n (others n.node_id qs))
unfolding request_quorum send_request_cs_msg send network_send
request_quorum-sent msg [] n = ground (arith, append-nil n.sent)
request_quorum-sent msg (q ∷ qs) n = elim (Bool-cases (q ==ℤ n.node_id)) [
  | inl e ↦ rw e (request_quorum-sent msg qs n)
  | inr e ↦ rw e (rw (request_quorum-sent msg qs _) (simp append_assoc))
]

pub relinquish_all-sent :
    (ms : List Message) (n : Node)
    → relinquish_all ms n ≡ appended n (map (λ m. signal_packet MessageType.relinquish m.from n) ms)
unfolding relinquish_all send_relinquish signal send network_send
relinquish_all-sent [] n = ground (arith, append-nil n.sent)
relinquish_all-sent (m ∷ ms) n = rw (relinquish_all-sent ms _) (simp append_assoc)
