-- ===== src/Lak/System.antt =====
-- Several token nodes, and the network between them.
pub mod Moves
use aosproject.Prelude.{
  ℕ, zero, suc, ◌+◌, ◌-◌, ◌*◌, ◌/◌, ◌%◌, ◌^◌, ◌≤◌, ◌<◌, ◌≡◌, refl, sym, ap, ◌∙◌, subst, ◌≢◌, ◌↔◌,
  ◌⊎◌, inl, inr, Bool, true, false, ◌&&◌, ◌||◌, not, Option, none, some, List, [], ◌∷◌, ◌++◌, map,
  append-nil, append_assoc, arith, ltb, leb, ◌==◌, if◌then◌else◌, ==_iff, Bool-cases, Option-cases,
  ◌>>=◌, >>=-eq-some, length, get_elem?, set, take, drop, replicate, In, All, length-append,
  length-replicate, In-append_left, In-append_right, In-append_cases, All-append, All-In, ℤ, pos,
  negsuc, minus_one, ◌==ℤ◌, ltb_ℤ, suc_ℤ, pred_ℤ, to_unsigned, ℤ-discrete, ==ℤ_iff, ==ℤ_refl,
  ltb_ℤ_irrefl, ltb_ℤ_trans, ltb_ℤ_connex,
}
use aosproject.Text.{
  Bytes, space, show_int, atoi, first_field, rest_field, NoSpace, show_int-NoSpace, atoi-show_int,
  atoi-show_int-space, first_field-append, rest_field-append, first_field_last, rest_field_last,
}
use aosproject.OrderedSet.{
  insert, IsSorted, Same, insert-All, In-insert_old, In-insert_cases, insert-ne-nil,
  insert-IsSorted, insert_holds,
}
use aosproject.Node.MessageType.{
  MessageType, to_number, of_number, IsEnumerator, of_number-to_number, is_fail,
}
use aosproject.Node.State.{
  control, testbed, new as new_node, contains, receive, get_message, network_send, Node, Packet,
  send, send_access_cs_msg, send_finish_cs_msg, send_request_cs_msg,
}
use aosproject.Lak.Message.{Entry, Message, precedes, message_string, string_message}
use aosproject.Lak.State.{
  Lak, unknown_holder, init, signal, send_ack, broadcast, send_release, send_receive,
  send_receive_each, send_relay, request_message, request_each, has_member, request_quorum,
  send_token,
}
use aosproject.Lak.Handlers.{
  access_cs, send_request, pass_token, answer_request, receive_request, receive_ack, keep_token,
  take_token, receive_token, receive_receive, receive_release, answer_relay, receive_relay,
  pass_to_first, finish_cs, dispatch, receive_message,
}
use aosproject.Lak.Loop.{tick, end_of_run}
use aosproject.Node.Config.{Files}
use aosproject.Quorum.Write.{host}
use aosproject.Family.{update}

-- Each node with its state, and the packets that are on their way: in a switch, or in a socket.
pub record System : Type 0 where
  pub nodes : ℕ → Lak
  pub flying : List Packet

-- Node `j` has come to be `m`: what it has sent is on its way.
abbrev pub moved : System → ℕ → Lak → System
moved s j m = record {
  nodes = update s.nodes j m;
  flying = s.flying ++ drop (length (s.nodes j).sent) m.sent;
}

abbrev pub delivered : Packet → Lak → Lak
delivered p m = record m { node = receive p.text m.node }

-- A packet may be delivered, in any order, or lost; a node handles a message or makes a round.
pub data SystemStep (n : ℕ) (s : System) : System → Type 0 where
  deliver :
      (before after : List Packet) (p : Packet) (j : ℕ)
      → j < n
      → s.flying ≡ before ++ (p ∷ after)
      → p.to ≡ to_unsigned (s.nodes j).node_id
      → SystemStep n s
          (record { nodes = update s.nodes j (delivered p (s.nodes j)); flying = before ++ after })
  lose :
      (before after : List Packet) (p : Packet)
      → s.flying ≡ before ++ (p ∷ after)
      → SystemStep n s (record s { flying = before ++ after })
  handle :
      (j fuel : ℕ) (raw : Entry) (text : Bytes) (n' : Node) {m : Lak}
      → j < n
      → get_message (s.nodes j).node ≡ some (text, n')
      → receive_message fuel raw text (record (s.nodes j) { node = n' }) ≡ some m
      → SystemStep n s (moved s j m)
  round :
      (j : ℕ)
      → j < n
      → get_message (s.nodes j).node ≡ none
      → (s.nodes j).timer < end_of_run
      → SystemStep n s (moved s j (tick (s.nodes j)))

pub data Reach (n : ℕ) (s : System) : System → Type 0 where
  start : Reach n s s
  later : {t u : System} → Reach n s t → SystemStep n t u → Reach n s u

-- What a receiver takes a text for.
abbrev pub kind_of : Bytes → MessageType
kind_of text = of_number (atoi (first_field text))

-- No RELAY is handled by a node without the token.
abbrev pub RelayAtHolder : {n : ℕ} {s t : System} → SystemStep n s t → Type 0
RelayAtHolder (deliver before after p j l e i) = Unit {0}
RelayAtHolder (lose before after p e) = Unit {0}
RelayAtHolder {s = s} (handle j fuel raw text n' l got done) =
    (kind_of text ≢ MessageType.relay) ⊎ ((s.nodes j).has_token ≡ true)
RelayAtHolder (round j l quiet on) = Unit {0}

abbrev pub RelaysAtHolder : {n : ℕ} {s t : System} → Reach n s t → Type 0
RelaysAtHolder start = Unit {0}
RelaysAtHolder (later r st) = RelaysAtHolder r × RelayAtHolder st

-- Nodes 1 to `n` on their hosts, as `init` leaves them, with nothing on its way.
abbrev pub IsBooted : Files → ℕ → System → Type 0
IsBooted files n s =
    (s.flying ≡ [])
    × ((j : ℕ) → j < n → init files (new_node (pos (host (suc j)))) ≡ some (s.nodes j))
