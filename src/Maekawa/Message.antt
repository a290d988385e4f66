-- ===== src/Maekawa/Message.antt =====
-- `MAKNode::Message`, its order, and its text. The field `to` of the source is written and never
-- read, so it is left out.
pub mod Codec
use aosproject.Prelude.{
  ◌≡◌, refl, Bool, true, false, ◌&&◌, ◌∷◌, ◌++◌, arith, if◌then◌else◌, ℤ, ◌==ℤ◌, ltb_ℤ, ==ℤ_iff,
  ltb_ℤ_irrefl, ltb_ℤ_trans, ltb_ℤ_connex,
}
use aosproject.Text.{Bytes, space, show_int, atoi, first_field, rest_field}
use aosproject.OrderedSet.{Same}
use aosproject.Node.MessageType.{MessageType, to_number, of_number}

pub record Message : Type 0 where
  pub kind : MessageType
  pub from : ℤ
  pub seq : ℤ

-- `operator <`: by sequence number, then by node.
unfoldable pub precedes : Message → Message → Bool
precedes a b =
    if ltb_ℤ a.seq b.seq
    then true
    else if (a.seq ==ℤ b.seq) && ltb_ℤ a.from b.from
    then true
    else false

show_fields : MessageType → Message → Bytes
show_fields MessageType.request m =
    show_int (to_number m.kind) ++ (space ∷ (show_int m.from ++ (space ∷ show_int m.seq)))
show_fields _ m = show_int (to_number m.kind) ++ (space ∷ show_int m.from)

unfoldable pub message_string : Message → Bytes
unfolding show_fields
message_string m = show_fields m.kind m

-- `raw` is what the field `seq` of a local `Message msg;` happens to hold: only a REQUEST sets it.
read_fields : ℤ → MessageType → Bytes → Message
read_fields raw MessageType.request s = record {
  kind = MessageType.request;
  from = atoi (first_field s);
  seq = atoi (rest_field s);
}
read_fields raw kind s = record { kind = kind; from = atoi (first_field s); seq = raw }

unfoldable pub string_message : ℤ → Bytes → Message
unfolding read_fields
string_message raw s = read_fields raw (of_number (atoi (first_field s))) (rest_field s)

read_fields-raw :
    (raw raw' : ℤ) (k : MessageType) (s : Bytes)
    → ((read_fields raw k s).kind ≡ (read_fields raw' k s).kind)
      × ((read_fields raw k s).from ≡ (read_fields raw' k s).from)
unfolding read_fields
read_fields-raw raw raw' MessageType.request s = (refl, refl)
read_fields-raw raw raw' _ s = (refl, refl)

-- The type and the sender of what is read do not depend on what the memory held.
pub string_message-raw :
    (raw raw' : ℤ) (s : Bytes)
    → ((string_message raw s).kind ≡ (string_message raw' s).kind)
      × ((string_message raw s).from ≡ (string_message raw' s).from)
unfolding string_message
string_message-raw raw raw' s =
    read_fields-raw raw raw' (of_number (atoi (first_field s))) (rest_field s)

pub precedes_irrefl : (a : Message) → precedes a a ≡ false
unfolding precedes
precedes_irrefl a = ground (arith, ltb_ℤ_irrefl a.seq, ltb_ℤ_irrefl a.from)

pub precedes_trans :
    (a b c : Message) → precedes a b ≡ true → precedes b c ≡ true → precedes a c ≡ true
unfolding precedes
precedes_trans a b c p q = ground (
  arith,
  ltb_ℤ_trans a.seq b.seq c.seq,
  ltb_ℤ_trans a.from b.from c.from,
  ==ℤ_iff a.seq b.seq,
  ==ℤ_iff b.seq c.seq,
  ==ℤ_iff a.seq c.seq,
)

-- Messages that the set takes for one have the same number and the same sender.
pub Same-fields : (a b : Message) → Same precedes a b → (a.seq ≡ b.seq) × (a.from ≡ b.from)
unfolding precedes
Same-fields a b s = ground (
  arith,
  ltb_ℤ_connex a.seq b.seq,
  ltb_ℤ_connex a.from b.from,
  ==ℤ_iff a.seq b.seq,
  ==ℤ_iff b.seq a.seq,
)
