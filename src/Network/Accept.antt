-- ===== src/Network/Accept.antt =====
-- `NodeNetwork`: the switch of a node, and the thread that accepts connections.
use aosproject.Prelude.{
  ℕ, ◌+◌, ◌*◌, ◌/◌, ◌%◌, ◌^◌, ◌≤◌, ◌<◌, ◌≡◌, refl, ap, ◌∙◌, ◌≢◌, false, some, [], ◌∷◌, ◌++◌, arith,
  leb, ◌==◌, if◌then◌else◌, length, take, pos, to_unsigned,
}
use aosproject.Text.{Bytes, show_int}
use aosproject.Text.Decimal.{codes}
use aosproject.Text.Equal.{same_bytes}
use aosproject.Node.State.{Node, Packet, receive, start_signal, disconnect_signal}
use aosproject.Network.Frame.{
  frame, parse_frame, c_string, le_bytes, text_size, IsText, parse_frame-frame,
}
use aosproject.Quorum.Write.{trans_at, host, trans_at_lem}

abbrev pub start_text : Bytes
start_text = b'S' ∷ b'T' ∷ b'A' ∷ b'R' ∷ b'T' ∷ []

abbrev pub end_text : Bytes
end_text = b'E' ∷ b'N' ∷ b'D' ∷ []

-- `NodeNetwork::getHostName`.
unfoldable pub host_name : ℕ → Bytes
host_name netid =
    if netid == 0
    then codes "localhost"
    else if leb netid 9
    then codes "net0" ++ (show_int (pos netid) ++ codes ".utdallas.edu")
    else codes "net" ++ (show_int (pos netid) ++ codes ".utdallas.edu")

-- `5*((m_node_id/5)+1)`.
unfoldable pub switch_netid : ℕ → ℕ
switch_netid node_id = 5 * (node_id / 5 + 1)

-- What the accepting thread does with what it has read from a connection: a signal of the test bed,
-- or a frame, which is dropped unless it is addressed to the node.
unfoldable pub accept_read : Packet → Bytes → Node → Node
unfolding same_bytes
accept_read p word n =
    if same_bytes start_text word
    then start_signal n
    else if same_bytes end_text word
    then disconnect_signal n
    else if p.to == to_unsigned n.node_id
    then receive p.text n
    else n

unfoldable pub accept_message : Bytes → Node → Node
unfolding accept_read parse_frame c_string
accept_message message n = accept_read (parse_frame message) (c_string message) n

c_string_head :
    (c : ℕ) (s : Bytes) (k : ℕ) (t : Bytes) → c ≢ k → same_bytes (k ∷ t) (c_string (c ∷ s)) ≡ false
unfolding c_string same_bytes
c_string_head c s k t h = ground arith

frame_is_no_signal :
    (p : Packet) (behind : Bytes)
    → p.to ≤ 46
    → (same_bytes start_text (c_string (frame p behind)) ≡ false)
      × (same_bytes end_text (c_string (frame p behind)) ≡ false)
unfolding frame
frame_is_no_signal p behind to =
    let rest = p.from % 256 ∷ (le_bytes 8 p.timestamp ++ take text_size (p.text ++ (0 ∷ behind))) in
    (
      c_string_head (p.to % 256) rest (b'S') (b'T' ∷ b'A' ∷ b'R' ∷ b'T' ∷ []) (omega (arith, to)),
      c_string_head (p.to % 256) rest (b'E') (b'N' ∷ b'D' ∷ []) (omega (arith, to)),
    )

-- A frame to a number up to 46 is delivered, with its text unchanged, to the node that it is addressed
-- to, and to no other, whatever lay behind its text; given that the sender's number fits a byte and
-- the time 8, and that the text has no zero byte and is shorter than the room for it.
pub accept_message-frame :
    (p : Packet) (behind : Bytes) (n : Node)
    → p.to ≤ 46
    → p.from < 256
    → p.timestamp < 2 ^ 64
    → IsText p.text
    → length p.text < text_size
    → accept_message (frame p behind) n
      ≡ (if p.to == to_unsigned n.node_id then receive p.text n else n)
unfolding accept_message
accept_message-frame p behind n to from time t l =
    let is_packet = parse_frame-frame p behind (omega (arith, to), from, time) t l in
    let (no_start, no_end) = frame_is_no_signal p behind to in
    ap (λ q. accept_read q (c_string (frame p behind)) n) is_packet
    ∙ unfold accept_read in rw (no_start, no_end) refl

-- The switch of the host that the test bed gives a node from 1 to 36: a multiple of 5, up to 45, and
-- less than 5 above the host.
pub switch_netid-host :
    (x : ℕ)
    → 1 ≤ x
    → x ≤ 36
    → (trans_at (pos x) ≡ some (host x))
      × (switch_netid (host x) % 5 ≡ 0)
      × (switch_netid (host x) ≤ 45)
      × (host x < switch_netid (host x))
      × (switch_netid (host x) < host x + 5)
unfolding switch_netid
switch_netid-host x l u =
    ((trans_at_lem x l u).0, omega arith, omega (arith, u), omega arith, omega arith)
