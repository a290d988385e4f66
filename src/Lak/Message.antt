-- ===== src/Lak/Message.antt =====
-- `LAKNode::Message`, its order, and its text.
pub mod Codec
use aosproject.Prelude.{
  ℕ, zero, suc, ◌+◌, ◌-◌, ◌*◌, ◌/◌, ◌%◌, ◌^◌, ◌≤◌, ◌<◌, ◌≡◌, refl, sym, ap, ◌∙◌, subst, ◌≢◌, ◌↔◌,
  ◌⊎◌, inl, inr, Bool, true, false, ◌&&◌, ◌||◌, not, Option, none, some, List, [], ◌∷◌, ◌++◌, map,
  append-nil, append_assoc, arith, ltb, leb, ◌==◌, if◌then◌else◌, ==_iff, Bool-cases, Option-cases,
  ◌>>=◌, >>=-eq-some, length, get_elem?, set, take, drop, replicate, In, All, length-append,
  length-replicate, In-append_left, In-append_right, In-append_cases, All-append, ℤ, pos, negsuc,
  minus_one, ◌==ℤ◌, ltb_ℤ, suc_ℤ, pred_ℤ, to_unsigned, ℤ-discrete, ==ℤ_iff, ==ℤ_refl, ltb_ℤ_irrefl,
  ltb_ℤ_trans, ltb_ℤ_connex,
}
use aosproject.Text.{
  Bytes, space, show_int, atoi, first_field, rest_field, NoSpace, show_int-NoSpace, atoi-show_int,
  atoi-show_int-space, first_field-append, rest_field-append, first_field_last, rest_field_last,
}
use aosproject.OrderedSet.{
  insert, IsSorted, Same, insert-All, In-insert_old, In-insert_cases, insert-ne-nil,
  insert-IsSorted, insert_holds,
}
use aosproject.Node.MessageType.{
  MessageType, to_number, of_number, IsEnumerator, of_number-to_number, is_fail,
}
use aosproject.Node.State.{
  control, testbed, new as new_node, contains, receive, get_message, network_send, Node, Packet,
  send, send_access_cs_msg, send_finish_cs_msg, send_request_cs_msg,
}

-- A message without its `req_list`. Those in a list have an empty one: `string_message` builds them
-- so, and `token_list` takes REQUEST and RELAY messages only.
pub record Entry : Type 0 where
  pub kind : MessageType
  pub from : ℤ
  pub to : ℤ
  pub seq : ℤ
  pub relay : ℤ

pub record Message : Type 0 where
  pub head : Entry
  pub open head use *
  pub req_list : List Entry

-- `operator <`: by sequence number, then by node.
unfoldable pub precedes : Entry → Entry → Bool
precedes a b =
    if ltb_ℤ a.seq b.seq
    then true
    else if (a.seq ==ℤ b.seq) && ltb_ℤ a.from b.from
    then true
    else false

-- The type, the sender and the receiver, before what follows.
show_start : MessageType → Entry → Bytes → Bytes
show_start kind e rest =
    show_int (to_number kind) ++ (space ∷ (show_int e.from ++ (space ∷ (show_int e.to ++ rest))))

-- `message_string` of a message in a list, before what follows.
unfoldable pub show_entry : MessageType → Entry → Bytes → Bytes
unfolding show_start
show_entry MessageType.request e rest =
    show_start MessageType.request e (space ∷ (show_int e.seq ++ rest))
show_entry MessageType.relay e rest =
    show_start MessageType.relay e
      (space ∷ (show_int e.seq ++ (space ∷ (show_int e.relay ++ rest))))
show_entry kind e rest = show_start kind e rest

-- The loop over `req_list`.
show_list : List Entry → Bytes
unfolding show_entry
show_list [] = []
show_list (e ∷ es) = space ∷ show_entry e.kind e (show_list es)

show_message : MessageType → Message → Bytes
unfolding show_entry show_list show_start
show_message MessageType.token m = show_start MessageType.token m.head (show_list m.req_list)
show_message kind m = show_entry kind m.head []

unfoldable pub message_string : Message → Bytes
unfolding show_message
message_string m = show_message m.kind m

-- One round of the loop that reads the list of a TOKEN, with the text that it leaves. A RELAY
-- overwrites the sequence number by its last field. `raw` is what the variable held before.
read_entry : Entry → Bytes → Entry × Bytes
read_entry raw s =
    let kind = of_number (atoi (first_field s)) in
    let s1 = rest_field s in
    let s2 = rest_field s1 in
    let s3 = rest_field s2 in
    let s4 = rest_field s3 in
    let entry = record raw {
      kind = kind;
      from = atoi (first_field s1);
      to = atoi (first_field s2);
      seq = atoi (first_field s3);
    } in
    (if to_number kind ==ℤ pos 4
      then (record entry { seq = atoi (first_field s4) }, rest_field s4)
      else (entry, s4))

-- `while (msgstr.length() > 1)`: `none` means that the fuel ran out.
unfoldable pub read_list : ℕ → Entry → Bytes → List Entry → Option (List Entry)
unfolding read_entry
read_list zero raw s es = none
read_list (suc fuel) raw s es =
    let (entry, rest) = read_entry raw s in
    let more = read_list fuel raw rest (insert precedes entry es) in
    if ltb 1 (length s) then more else some es

unfoldable pub read_fields : ℕ → Entry → MessageType → Bytes → Option Message
unfolding read_list
read_fields fuel raw MessageType.request s = some (record {
  head = record raw {
    kind = MessageType.request;
    from = atoi (first_field s);
    to = atoi (first_field (rest_field s));
    seq = atoi (rest_field (rest_field s));
  };
  req_list = [];
})
read_fields fuel raw MessageType.relay s = some (record {
  head = record {
    kind = MessageType.relay;
    from = atoi (first_field s);
    to = atoi (first_field (rest_field s));
    seq = atoi (first_field (rest_field (rest_field s)));
    relay = atoi (rest_field (rest_field (rest_field s)));
  };
  req_list = [];
})
read_fields fuel raw MessageType.token s = do
  req_list ← read_list fuel raw (rest_field (rest_field s)) []
  some (record {
    head = record raw {
      kind = MessageType.token;
      from = atoi (first_field s);
      to = atoi (first_field (rest_field s));
    };
    req_list = req_list;
  })
read_fields fuel raw kind s = some (record {
  head = record raw { kind = kind; from = atoi (first_field s); to = atoi (rest_field s) };
  req_list = [];
})

unfoldable pub string_message : ℕ → Entry → Bytes → Option Message
unfolding read_fields
string_message fuel raw s = read_fields fuel raw (of_number (atoi (first_field s))) (rest_field s)

pub precedes_irrefl : (a : Entry) → precedes a a ≡ false
unfolding precedes
precedes_irrefl a = ground (arith, ltb_ℤ_irrefl a.seq, ltb_ℤ_irrefl a.from)

pub precedes_trans :
    (a b c : Entry) → precedes a b ≡ true → precedes b c ≡ true → precedes a c ≡ true
unfolding precedes
precedes_trans a b c p q = ground (
  arith,
  ltb_ℤ_trans a.seq b.seq c.seq,
  ltb_ℤ_trans a.from b.from c.from,
  ==ℤ_iff a.seq b.seq,
  ==ℤ_iff b.seq c.seq,
  ==ℤ_iff a.seq c.seq,
)
