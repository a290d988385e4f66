-- ===== src/Maekawa/Message/Codec.antt =====
-- What a receiver reads from the text of a message.
use aosproject.Prelude.{◌≡◌, ℤ}
use aosproject.Node.MessageType.{MessageType, to_number, of_number, IsEnumerator}
use aosproject.Text.{int_fields}
use aosproject.Maekawa.Message.{Message, message_string, string_message, show_fields}

abbrev seq_read : MessageType → ℤ → ℤ → ℤ
seq_read MessageType.request raw s = s
seq_read _ raw s = raw

-- What the receiver of `m` has: a REQUEST whole, and of any other message the type and the sender.
abbrev pub received : ℤ → Message → Message
received raw m = record m { seq = seq_read m.kind raw m.seq }

read-show :
    (raw : ℤ) (k : MessageType) (f s : ℤ)
    → IsEnumerator k
    → string_message raw (show_fields k (record { kind = k; from = f; seq = s }))
      ≡ received raw (record { kind = k; from = f; seq = s })
unfolding string_message show_fields to_number of_number
read-show raw MessageType.request f s h = simp int_fields
read-show raw MessageType.release f s h = simp int_fields
read-show raw MessageType.receive f s h = simp int_fields
read-show raw MessageType.ack f s h = simp int_fields
read-show raw MessageType.relay f s h = simp int_fields
read-show raw MessageType.token f s h = simp int_fields
read-show raw MessageType.lock f s h = simp int_fields
read-show raw MessageType.fail f s h = simp int_fields
read-show raw MessageType.inquire f s h = simp int_fields
read-show raw MessageType.relinquish f s h = simp int_fields
read-show raw (MessageType.unknown z) f s h = elim h [ ]

-- Every message whose type is one of the enumerators is read back from its text with its type and
-- its sender, and a REQUEST with its sequence number too; of any other message the sequence number
-- is what the receiver's variable held before.
pub string_message-message_string :
    (raw : ℤ) (m : Message)
    → IsEnumerator m.kind
    → string_message raw (message_string m) ≡ received raw m
unfolding message_string
string_message-message_string raw m h = read-show raw m.kind m.from m.seq h
