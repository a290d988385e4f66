-- ===== src/DumpSwitch.antt =====
-- dumpswitch/DumpSwitch.cpp: a stand-in for all the switches, with one connection per node.
pub mod Announce
pub mod Examples
use aosproject.Prelude.{
  ℕ, zero, suc, ◌+◌, ◌-◌, ◌*◌, ◌/◌, ◌%◌, ◌^◌, ◌≤◌, ◌<◌, ◌≡◌, refl, sym, ap, ◌∙◌, subst, ◌≢◌, ◌↔◌,
  ◌⊎◌, inl, inr, Bool, true, false, ◌&&◌, ◌||◌, not, Option, none, some, List, [], ◌∷◌, ◌++◌, map,
  append-nil, append_assoc, arith, ltb, leb, ◌==◌, if◌then◌else◌, ==_iff, Bool-cases, Option-cases,
  ◌>>=◌, >>=-eq-some, length, get_elem?, set, take, drop, replicate, In, All, length-append,
  length-replicate, In-append_left, In-append_right, In-append_cases, All-append, All-In, ℤ, pos,
  negsuc, minus_one, ◌==ℤ◌, ltb_ℤ, suc_ℤ, pred_ℤ, to_unsigned, ℤ-discrete, ◌+ℤ◌, quotient, ==ℤ_iff,
  ==ℤ_refl, ltb_ℤ_irrefl, ltb_ℤ_trans, ltb_ℤ_connex,
}
use aosproject.Text.{Bytes, show_int}
use aosproject.Text.Decimal.{codes}
use aosproject.Text.Stream.{Stream, fresh, skip_blanks, get_int}
use aosproject.Text.Equal.{same_bytes}
use aosproject.Network.Frame.{byte_at, c_string, from_le}

-- An entry of `m_socket`: as `new` leaves it, 0, or the number of a socket.
pub data Slot : Type 0 where
  unset : Slot
  null : Slot
  held : ℕ → Slot

-- A line of the log.
pub data Entry : Type 0 where
  received_node : ℤ → Entry
  start_signal : Entry
  end_signal : Entry
  forwarded : ℕ → ℕ → ℕ → Bytes → Entry
  discarded : ℕ → ℕ → ℕ → Bytes → Entry

pub record DumpSwitch : Type 0 where
  pub num_of_nodes : ℕ
  pub slots : List Slot  -- m_socket
  pub connected : ℕ
  pub completed : ℕ
  pub disconnected : ℕ
  pub is_ended : Bool
  pub log : List Entry
  pub sent : List (ℕ × Bytes)  -- a socket, and what it was given to send

-- `init`, by the number of nodes that its file gives.
unfoldable pub init : ℕ → DumpSwitch
init n = record {
  num_of_nodes = n;
  slots = replicate n unset;
  connected = 0;
  completed = 0;
  disconnected = 0;
  is_ended = false;
  log = [];
  sent = [];
}

-- `m_socket[i]->send(message)` for all nodes: `none` follows a pointer that is 0 or was never set.
unfoldable pub send_all : Bytes → List Slot → Option (List (ℕ × Bytes))
send_all message [] = some []
send_all message (unset ∷ slots) = none
send_all message (null ∷ slots) = none
send_all message (held socket ∷ slots) = do
  rest ← send_all message slots
  some ((socket, message) ∷ rest)

is_digit : ℕ → Bool
is_digit c = leb 48 c && leb c 57

begins_digit : Bytes → Bool
unfolding is_digit
begins_digit [] = false
begins_digit (c ∷ s) = is_digit c

begins_number : Bytes → Bool
unfolding is_digit begins_digit
begins_number [] = false
begins_number (c ∷ s) = is_digit c || ((c == b'-' || c == b'+') && begins_digit s)

-- `sscanf(text, "%d", &nodeid)`: `none` leaves it without a value.
unfoldable pub scan_number : Bytes → Option ℤ
unfolding skip_blanks begins_number get_int
scan_number text =
    if begins_number (skip_blanks text) then some (get_int (fresh text) (pos 0)) else none

-- `m_socket[nodeid-1]`.
unfoldable pub slot_of : ℤ → Option ℕ
slot_of (pos (suc i)) = some i
slot_of (pos zero) = none
slot_of (negsuc n) = none

-- When all are connected, START goes to all.
start_if_all : DumpSwitch → Option DumpSwitch
unfolding send_all
start_if_all d =
    if d.connected == d.num_of_nodes
    then (send_all (codes "START") d.slots >>= λ out.
        some (record d { log = d.log ++ (start_signal ∷ []); sent = d.sent ++ out }))
    else some d

-- A node is known: `none` is an index out of the array.
unfoldable pub register_node : ℤ → ℕ → DumpSwitch → Option DumpSwitch
unfolding slot_of start_if_all
register_node nodeid socket d = slot_of nodeid >>= λ i.
    if ltb i (length d.slots)
    then start_if_all (record d {
      slots = set d.slots i (held socket);
      connected = d.connected + 1;
      log = d.log ++ (received_node nodeid ∷ []);
    })
    else none

unfoldable pub complete_node : DumpSwitch → Option DumpSwitch
unfolding send_all
complete_node d =
    if d.completed + 1 == d.num_of_nodes
    then (send_all (codes "END") d.slots >>= λ out. some (record d {
      completed = d.completed + 1;
      log = d.log ++ (end_signal ∷ []);
      sent = d.sent ++ out;
      is_ended = true;
    }))
    else some (record d { completed = d.completed + 1 })

unfoldable pub discard : ℕ → ℕ → ℕ → Bytes → DumpSwitch → DumpSwitch
discard from to timestamp text d = record d {
  log = d.log ++ (discarded from to timestamp text ∷ []);
}

-- To the socket of a node, if it has one; `none` has no entry.
forward_to : Option Slot → ℕ → ℕ → ℕ → Bytes → Bytes → DumpSwitch → Option DumpSwitch
unfolding discard
forward_to none from to timestamp text message d = none
forward_to (some unset) from to timestamp text message d = none
forward_to (some null) from to timestamp text message d = some (discard from to timestamp text d)
forward_to (some (held socket)) from to timestamp text message d = some (record d {
  log = d.log ++ (forwarded from to timestamp text ∷ []);
  sent = d.sent ++ ((socket, message) ∷ []);
})

-- Any other message. Its time is read from 4 bytes, and its text from byte 6 on.
unfoldable pub forward_message : Bytes → DumpSwitch → Option DumpSwitch
unfolding byte_at from_le c_string discard forward_to
forward_message message d =
    let to = byte_at message 0 in
    let from = byte_at message 1 in
    let timestamp = from_le (take 4 (drop 2 message)) in
    let text = c_string (drop 6 message) in
    if leb 1 to && leb to d.num_of_nodes
    then forward_to (get_elem? d.slots (to - 1)) from to timestamp text message d
    else some (discard from to timestamp text d)

unfoldable pub on_receive : Bytes → ℕ → DumpSwitch → Option DumpSwitch
unfolding same_bytes scan_number register_node complete_node forward_message
on_receive message socket d =
    if same_bytes (take 5 message) (codes "NODE ")
    then (scan_number (c_string (drop 5 message)) >>= λ nodeid. register_node nodeid socket d)
    else if same_bytes (take 4 message) (codes "END ")
    then complete_node d
    else forward_message message d

-- The loop of `onDisconnect`; an entry that was never set has no value to compare.
leave : ℕ → List Slot → DumpSwitch → Option (List Slot × DumpSwitch)
leave socket [] d = some ([], d)
leave socket (unset ∷ slots) d = none
leave socket (null ∷ slots) d = leave socket slots d >>= λ (rest, d'). some (null ∷ rest, d')
leave socket (held k ∷ slots) d =
    let gone = k == socket in
    let d1 : DumpSwitch =
      (if gone
        then record d {
          disconnected = d.disconnected + 1;
          is_ended = d.is_ended || d.disconnected + 1 == d.num_of_nodes;
        }
        else d) in
    leave socket slots d1 >>= λ (rest, d'). some ((if gone then null else held k) ∷ rest, d')

unfoldable pub on_disconnect : ℕ → DumpSwitch → Option DumpSwitch
unfolding leave
on_disconnect socket d = do (slots, d') ← leave socket d.slots d; some (record d' { slots = slots })
