-- ===== src/Network/Listen.antt =====
-- `NodeNetwork::AcceptThread`: the connections to a node, one after the other.
use aosproject.Prelude.{
  ℕ, zero, suc, ◌-◌, ◌/◌, ◌^◌, ◌≤◌, ◌<◌, ◌≡◌, refl, ap, ◌∙◌, Bool, true, false, ◌||◌, Option, none,
  some, List, [], ◌∷◌, ◌++◌, append-nil, arith, ◌==◌, if◌then◌else◌, length, take, replicate,
  length-append, ℤ, minus_one, ◌==ℤ◌, to_unsigned,
}
use aosproject.Text.{Bytes}
use aosproject.Text.Decimal.{codes}
use aosproject.Text.Equal.{same_bytes}
use aosproject.Node.State.{Node, Packet, receive}
use aosproject.Socket
use aosproject.Socket.{Socket, Call, buffer_size, is_failure, amount, send_round}
use aosproject.Network.Frame.{frame, parse_frame, c_string, text_size, IsText, le_bytes}
use aosproject.Network.Accept.{start_text, end_text, accept_message, accept_message-frame}
use aosproject.Network.Lifetime.{NodeNetwork, log_line, write_log, send, close_me}

-- `bzero`, then `read`.
abbrev pub filled : Bytes → Bytes
filled got = got ++ replicate (buffer_size - length got) 0

-- The line is written for a frame, whoever it is addressed to.
log_received : Bytes → Option (List Bytes) → Option (List Bytes)
log_received message logfile =
    if same_bytes start_text (c_string message) || same_bytes end_text (c_string message)
    then logfile
    else write_log (log_line (codes "NodeNetwork:: recv") (parse_frame message)) logfile

-- One round of the loop, with what `read` got, or `none` when `accept` fails.
unfoldable pub accept_round : Option Bytes → NodeNetwork → NodeNetwork
unfolding log_received accept_message same_bytes c_string parse_frame log_line
accept_round none n = n
accept_round (some got) n = record n {
  node = accept_message (filled got) n.node;
  logfile = log_received (filled got) n.logfile;
}

-- The loop, for as long as there are results of `accept`.
unfoldable pub accept_loop : List (Option Bytes) → NodeNetwork → NodeNetwork
unfolding accept_round
accept_loop [] n = n
accept_loop (c ∷ cs) n =
    let rest = accept_loop cs (accept_round c n) in if n.thread_running then rest else n

-- `AcceptThread::run`, with the results of `socket` and `gethostbyname`; those of `bind` and `listen`
-- change nothing. `none` is a null pointer.
unfoldable pub run : ℤ → Bool → List (Option Bytes) → NodeNetwork → Option NodeNetwork
unfolding accept_loop
run socket found connections n =
    if found then some (accept_loop connections (record n { accept_socket = socket })) else none

-- `AcceptThread::disconnect`, which nothing calls.
unfoldable pub disconnect : NodeNetwork → NodeNetwork
disconnect n = if n.accept_socket ==ℤ minus_one then n else record n { accept_socket = minus_one }

-- What the connections do to the node: an independent account, without the loop's flag.
abbrev pub handled : List (Option Bytes) → Node → Node
handled [] n = n
handled (none ∷ cs) n = handled cs n
handled (some got ∷ cs) n = handled cs (accept_message (filled got) n)

accept_loop-handled :
    (cs : List (Option Bytes)) (n : NodeNetwork)
    → n.thread_running ≡ true
    → (accept_loop cs n).node ≡ handled cs n.node
unfolding accept_loop accept_round
accept_loop-handled [] n on = refl
accept_loop-handled (none ∷ cs) n on = ground (arith, accept_loop-handled cs n on)
accept_loop-handled (some got ∷ cs) n on =
    ground (arith, accept_loop-handled cs (accept_round (some got) n) on)

close_me-running :
    (joined : Socket → Option Socket) (n : NodeNetwork) {n' : NodeNetwork}
    → close_me joined n ≡ some n'
    → (n'.thread_running ≡ n.thread_running) × (n'.node ≡ n.node) × (n'.m_socket ≡ none)
unfolding close_me
close_me-running joined n e = ground arith

-- Closing does not stop the accepting thread: once it runs, every connection is handled after
-- `close_me` as it would have been before, though the node has no socket left to answer with.
pub close_me_keeps_accepting :
    (joined : Socket → Option Socket) (n : NodeNetwork) {n' : NodeNetwork}
    (cs : List (Option Bytes))
    → n.thread_running ≡ true
    → close_me joined n ≡ some n'
    → ((accept_loop cs n').node ≡ handled cs n.node) × (n'.m_socket ≡ none)
close_me_keeps_accepting joined n {n'} cs on e =
    let (running, same, gone) = close_me-running joined n e in
    (accept_loop-handled cs n' (running ∙ on) ∙ ap (handled cs) same, gone)

length-le_bytes : (k x : ℕ) → length (le_bytes k x) ≡ k
unfolding le_bytes
length-le_bytes zero x = refl
length-le_bytes (suc k) x = ap suc (length-le_bytes k (x / 256))

take_all : (k : ℕ) (s : Bytes) → length s ≡ k → take k s ≡ s
take_all zero [] e = refl
take_all zero (c ∷ s) e = ground arith
take_all (suc k) [] e = refl
take_all (suc k) (c ∷ s) e = ground (arith, take_all k s)

length-take : (k : ℕ) (s : Bytes) → k ≤ length s → length (take k s) ≡ k
length-take zero s h = refl
length-take (suc k) [] h = ground arith
length-take (suc k) (c ∷ s) h = ground (arith, length-take k s)

length-frame :
    (p : Packet) (behind : Bytes)
    → text_size ≤ length (p.text ++ (0 ∷ behind))
    → length (frame p behind) ≡ buffer_size
unfolding frame
length-frame p behind h = omega (
  arith,
  length-append (le_bytes 8 p.timestamp) (take text_size (p.text ++ (0 ∷ behind))),
  length-le_bytes 8 p.timestamp,
  length-take text_size (p.text ++ (0 ∷ behind)) h,
)

take-filled : (s : Bytes) → length s ≡ buffer_size → filled (take buffer_size s) ≡ s
take-filled s e = rw (take_all buffer_size s e) (rw e (append-nil s))

-- What `send` hands over is one buffer of 1024 bytes at the end of the socket's queue. Another node that
-- reads it, its thread running, receives the text if the packet is addressed to it, and else nothing:
-- for a number up to 46, a sender that fits a byte, a time that fits 8, a text without a zero byte that
-- is shorter than the room for it, memory behind it to read, and a socket whose lock is free.
pub send_accepted :
    (p : Packet) (behind : Bytes) (a b : NodeNetwork) {s : Socket}
    → a.m_socket ≡ some s
    → s.is_locked ≡ false
    → text_size ≤ length (p.text ++ (0 ∷ behind))
    → (p.to ≤ 46) × (p.from < 256) × (p.timestamp < 2 ^ 64)
    → IsText p.text
    → length p.text < text_size
    → b.thread_running ≡ true
    → (a' : NodeNetwork) × (s' : Socket) × (buffer : Bytes) × (send p behind a ≡ some a')
      × (a'.m_socket ≡ some s')
      × (s'.messages ≡ s.messages ++ (buffer ∷ []))
      × (length buffer ≡ buffer_size)
      × ((accept_loop (some buffer ∷ []) b).node
          ≡ (if p.to == to_unsigned b.node.node_id then receive p.text b.node else b.node))
unfolding send Socket.send
send_accepted p behind a b {s} connected free memory (to, from, time) text short running =
    let size = length-frame p behind memory in
    let sent : Socket.send (frame p behind) s
        ≡ some (record s { messages = s.messages ++ (take buffer_size (frame p behind) ∷ []) }) =
      rw (free, size) refl in
    let s' : Socket = record s {
      messages = s.messages ++ (take buffer_size (frame p behind) ∷ []);
    } in
    (
      record a {
        logfile = write_log (log_line (codes "NodeNetwork:: send") p) a.logfile;
        m_socket = some s';
      },
      s',
      take buffer_size (frame p behind),
      rw (connected, sent) refl,
      refl,
      refl,
      ap length (take_all buffer_size (frame p behind) size) ∙ size,
      accept_loop-handled (some (take buffer_size (frame p behind)) ∷ []) b running
          ∙ ap (λ m. accept_message m b.node) (take-filled (frame p behind) size)
          ∙ accept_message-frame p behind b.node to from time text short,
    )
