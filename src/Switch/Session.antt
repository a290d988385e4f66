-- ===== src/Switch/Session.antt =====
-- `forward`, `handle` and the loop of a connection.
use aosproject.Prelude.{
  ℕ, zero, suc, ◌+◌, ◌%◌, Bool, true, false, ◌&&◌, ◌||◌, not, Option, none, some, List, [], ◌∷◌,
  ◌++◌, ltb, ◌==◌, if◌then◌else◌, ◌>>=◌, length, ℤ, pos, minus_one, ◌==ℤ◌, to_unsigned,
}
use aosproject.Text.{Bytes, show_int}
use aosproject.Text.Stream.{strtol}
use aosproject.Text.Decimal.{codes}
use aosproject.Node.Config.{newline}
use aosproject.Network.Frame.{byte_at, c_string}

-- What the calls of `forward` return, on the way to another host.
pub record Calls : Type 0 where
  pub lookup : ℤ  -- getaddrinfo
  pub found : Bool  -- a result other than NULL
  pub socket : ℤ
  pub connect : ℤ
  pub written : ℤ

-- `forward`: the result is 0 if 1024 bytes were written.
unfoldable pub forward : Calls → ℤ
unfolding ◌==ℤ◌
forward calls =
    if not (calls.lookup ==ℤ pos 0)
    then pos 5
    else if not calls.found
    then pos 4
    else if calls.socket ==ℤ minus_one
    then pos 1
    else if calls.connect ==ℤ minus_one
    then pos 2
    else if not (calls.written ==ℤ pos 1024)
    then pos 3
    else pos 0

-- An answer to the client: a digit, or the bytes of an `int`.
pub data Reply : Type 0 where
  digit : ℕ → Reply
  result : ℤ → Reply

pub record Forward : Type 0 where
  pub to_addr : Bytes
  pub message : Bytes

-- A connection: whether it is still served, its log, what was answered, what was tried to forward.
pub record Session : Type 0 where
  pub is_open : Bool
  pub log_name : Bytes
  pub log : Bytes
  pub replies : List Reply
  pub forwarded : List Forward

unfoldable pub reply : Reply → Session → Session
reply r s = record s { replies = s.replies ++ (r ∷ []) }

-- The loop that cuts off the zeros behind a message.
unfoldable pub cut : ℕ → Bytes → ℕ
unfolding byte_at
cut zero buffer = zero
cut (suc n) buffer = let less = cut n buffer in if byte_at buffer (suc n) == 0 then less else suc n

abbrev pub buffer_size : ℕ
buffer_size = 1024

-- `char b = buffer[msg_length]` is out of the bounds of the buffer if the message fills it.
unfoldable pub message_length : Bytes → Option ℕ
unfolding cut
message_length message =
    if ltb (length message) buffer_size then some (cut (length message) message) else none

-- `log_file << buffer << endl; log_file << msg_length << endl;`.
unfoldable pub log_lines : Bytes → ℕ → Bytes
unfolding c_string
log_lines buffer n = c_string buffer ++ (newline ∷ (show_int (pos n) ++ (newline ∷ [])))

unfoldable pub to_host : ℕ → Bytes
to_host t =
    if ltb t 10
    then codes "net0" ++ (show_int (pos t) ++ codes ".utdallas.edu")
    else codes "net" ++ (show_int (pos t) ++ codes ".utdallas.edu")

-- `char to_addr[18]`.
abbrev pub to_addr_size : ℕ
to_addr_size = 18

-- The second chain of tests: what is neither a control message nor dropped. `sprintf` writes the
-- name of the host and a zero, behind the end of `to_addr` where they do not fit.
unfoldable pub deliver : Calls → Bytes → Session → Option Session
unfolding to_host forward byte_at reply
deliver calls message s =
    let t = byte_at message 0 in
    if t == 46
    then some (record (reply (digit 0) s) { is_open = false })
    else if ltb 45 t || t == 0
    then some (reply (digit 0) s)
    else if ltb to_addr_size (length (to_host t) + 1)
    then none
    else some (
        reply (result (forward calls)) (record s {
          forwarded = s.forwarded ++ (record { to_addr = to_host t; message = message } ∷ []);
        }))

-- `rand` is what `rand()` returns. The sleep of a congested network is left out.
unfoldable pub route : ℕ → ℕ → Calls → Bytes → Session → Option Session
unfolding deliver reply byte_at
route net_status rand calls message s =
    let t = byte_at message 0 in
    if t == 255
    then some (reply (digit 0) s)
    else if (net_status == 3) && ((rand % 10 == 0) && not (t == 44))
    then some (reply (digit 0) s)
    else deliver calls message s

unfoldable pub handle_message : ℕ → ℕ → Calls → Bytes → Session → Option Session
unfolding message_length log_lines route
handle_message net_status rand calls message s = do
  n ← message_length message
  route net_status rand calls message (record s { log = s.log ++ log_lines message n })

-- What `recv` gives.
pub data Received : Type 0 where
  bytes : Bytes → Received
  shutdown : Received
  failed : Received

-- What is received next, what `rand()` then gives, and how the network takes the message.
abbrev pub Event : Type 0
Event = Received × ℕ × Calls

-- `while (1)`, over what is received from the client; at the end of the list it waits for more.
unfoldable pub serve : ℕ → List Event → Session → Option Session
unfolding handle_message
serve net_status [] s = some s
serve net_status ((bytes buffer, rand, calls) ∷ events) s = do
  s' ← handle_message net_status rand calls buffer s
  let rest = serve net_status events s' in if s'.is_open then rest else some s'
serve net_status ((_, rand, calls) ∷ events) s = some (record s { is_open = false })

unfoldable pub log_file_name : ℕ → Bytes
log_file_name n =
    if ltb n 10 then codes "log0" ++ show_int (pos n) else codes "log" ++ show_int (pos n)

-- `handle`: the first message is the number of the node.
unfoldable pub handle : ℕ → Bytes → List Event → Option Session
unfolding serve log_file_name reply c_string to_unsigned strtol
handle net_status first events =
    let node_num = to_unsigned (strtol (c_string first)) in
    let fresh : Session = record {
      is_open = true;
      log_name = [];
      log = [];
      replies = [];
      forwarded = [];
    } in
    let rest =
      serve net_status events
        (reply (digit 0) (record fresh { log_name = log_file_name node_num })) in
    if ltb 45 node_num || node_num == 0
    then some (record (reply (digit 1) fresh) { is_open = false })
    else rest
