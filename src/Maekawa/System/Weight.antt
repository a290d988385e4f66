-- ===== src/Maekawa/System/Weight.antt =====
-- The grants of one node's lock, counted wherever they are: an arbiter is asked for its lock.
use aosproject.Prelude.{
  ◌≤◌, ℕ, ◌+◌, ◌≡◌, refl, ap, ◌∙◌, ◌≢◌, Bool, true, false, ◌&&◌, List, [], ◌∷◌, ◌++◌, arith, ◌==◌,
  ℤ, pos, ◌==ℤ◌, to_unsigned,
}
use aosproject.Maekawa.Message.{Message, message_string, string_message}
use aosproject.Text.{Bytes, atoi, first_field, rest_field}
use aosproject.Node.MessageType.{MessageType, IsEnumerator, of_number}
use aosproject.Node.State.{control, Node, Packet}
use aosproject.Maekawa.Message.Codec.{string_message-message_string}
use aosproject.Maekawa.Sends.{
  signal_packet, request_packet, control_packet, release_packets, request_packets,
}
use aosproject.Maekawa.System.{read}

abbrev pub bit : Bool → ℕ
bit true = 1
bit false = 0

pub bit_le : (b : Bool) → bit b ≤ 1
bit_le true = omega arith
bit_le false = omega arith

abbrev pub is_lock : MessageType → Bool
is_lock MessageType.lock = true
is_lock _ = false

abbrev pub is_release : MessageType → Bool
is_release MessageType.release = true
is_release _ = false

-- What a node sends only when a request has overtaken another counts for two, more than there is.
abbrev pub banned : MessageType → ℕ
banned MessageType.inquire = 2
banned MessageType.relinquish = 2
banned _ = 0

-- A LOCK from the arbiter `a`.
abbrev pub is_grant : ℤ → Message → Bool
is_grant a msg = is_lock msg.kind && (msg.from ==ℤ a)

module _ (a : ℤ) where
  -- A packet: a grant of the arbiter, or a RELEASE on its way to it.
  unfoldable pub packet_weight : Packet → ℕ
  packet_weight p =
      bit (is_grant a (read p.text))
      + bit ((p.to == to_unsigned a) && is_release (read p.text).kind)
      + banned (read p.text).kind

  unfoldable pub packets_weight : List Packet → ℕ
  unfolding packet_weight
  packets_weight [] = 0
  packets_weight (p ∷ ps) = packet_weight p + packets_weight ps

  -- A message in the queue of the node with this number.
  unfoldable pub text_weight : ℤ → Bytes → ℕ
  text_weight id text =
      bit (is_grant a (read text))
      + bit ((id ==ℤ a) && is_release (read text).kind)
      + banned (read text).kind

  unfoldable pub texts_weight : ℤ → List Bytes → ℕ
  unfolding text_weight
  texts_weight id [] = 0
  texts_weight id (text ∷ texts) = text_weight id text + texts_weight id texts

  pub packets_weight-append :
      (ps qs : List Packet) → packets_weight (ps ++ qs) ≡ packets_weight ps + packets_weight qs
  unfolding packets_weight
  packets_weight-append [] qs = omega arith
  packets_weight-append (p ∷ ps) qs = omega (arith, packets_weight-append ps qs)

  pub texts_weight-append :
      (id : ℤ) (s t : List Bytes) → texts_weight id (s ++ t) ≡ texts_weight id s + texts_weight id t
  unfolding texts_weight
  texts_weight-append id [] t = omega arith
  texts_weight-append id (x ∷ s) t = omega (arith, texts_weight-append id s t)

  -- The members of a list that the arbiter's address stands for.
  abbrev pub count_to : List ℤ → ℕ
  count_to [] = 0
  count_to (q ∷ qs) = bit (to_unsigned q == to_unsigned a) + count_to qs

  read-signal :
      (kind : MessageType) (id : ℤ)
      → IsEnumerator kind
      → ((read (message_string (record { kind = kind; from = id; seq = pos 0 }))).kind ≡ kind)
        × ((read (message_string (record { kind = kind; from = id; seq = pos 0 }))).from ≡ id)
  read-signal kind id h =
      let e =
        string_message-message_string (pos 0) (record { kind = kind; from = id; seq = pos 0 }) h in
      (ap (λ (m : Message). m.kind) e, ap (λ (m : Message). m.from) e)

  pub weight-signal :
      (kind : MessageType) (to : ℤ) (n : Node)
      → IsEnumerator kind
      → packet_weight (signal_packet kind to n)
        ≡ bit (is_lock kind && (n.node_id ==ℤ a))
          + bit ((to_unsigned to == to_unsigned a) && is_release kind)
          + banned kind
  unfolding packet_weight
  weight-signal kind to n h = let (k, f) = read-signal kind n.node_id h in rw (k, f) refl

  released :
      (q : ℤ) (n : Node)
      → packet_weight (signal_packet MessageType.release q n) ≡ bit (to_unsigned q == to_unsigned a)
  released q n = weight-signal MessageType.release q n tt ∙ ground arith

  pub weight-release_packets :
      (n : Node) (qs : List ℤ) → packets_weight (release_packets n qs) ≡ count_to qs
  unfolding packets_weight
  weight-release_packets n [] = refl
  weight-release_packets n (q ∷ qs) = omega (arith, released q n, weight-release_packets n qs)

  weight-request :
      (f seq to : ℤ) (n : Node)
      → packet_weight
          (request_packet (record { kind = MessageType.request; from = f; seq = seq }) to n)
        ≡ 0
  unfolding packet_weight
  weight-request f seq to n =
      let e =
        string_message-message_string (pos 0)
          (record { kind = MessageType.request; from = f; seq = seq }) tt in
      rw e (ground arith)

  -- Control messages are no grants, and go elsewhere.
  elsewhere : (b : Bool) → to_unsigned a ≢ control → ((control == to_unsigned a) && b) ≡ false
  elsewhere b h = ground (arith, h)

  pub weight-control_access :
      (n : Node) → to_unsigned a ≢ control → packet_weight (control_packet (b'1' ∷ []) n) ≡ 0
  unfolding packet_weight string_message of_number atoi first_field rest_field
  weight-control_access n h = rw (elsewhere _ h) refl

  pub weight-control_finish :
      (n : Node) → to_unsigned a ≢ control → packet_weight (control_packet (b'2' ∷ []) n) ≡ 0
  unfolding packet_weight string_message of_number atoi first_field rest_field
  weight-control_finish n h = rw (elsewhere _ h) refl

  weight-control_request :
      (n : Node) → to_unsigned a ≢ control → packet_weight (control_packet (b'3' ∷ []) n) ≡ 0
  unfolding packet_weight string_message of_number atoi first_field rest_field
  weight-control_request n h = rw (elsewhere _ h) refl

  pub weight-request_packets :
      (f seq : ℤ) (n : Node) (qs : List ℤ)
      → to_unsigned a ≢ control
      → packets_weight
          (request_packets (record { kind = MessageType.request; from = f; seq = seq }) n qs)
        ≡ 0
  unfolding packets_weight
  weight-request_packets f seq n [] h = refl
  weight-request_packets f seq n (q ∷ qs) h = omega (
    arith,
    weight-control_request n h,
    weight-request f seq q n,
    weight-request_packets f seq n qs h,
  )

  pub weight-lock :
      (to : ℤ) (n : Node)
      → packet_weight (signal_packet MessageType.lock to n) ≡ bit (n.node_id ==ℤ a)
  weight-lock to n = weight-signal MessageType.lock to n tt ∙ ground arith

  pub weight-fail : (to : ℤ) (n : Node) → packet_weight (signal_packet MessageType.fail to n) ≡ 0
  weight-fail to n = weight-signal MessageType.fail to n tt ∙ ground arith
