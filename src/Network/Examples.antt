-- ===== src/Network/Examples.antt =====
-- Runs of one node's network, and of two.
use aosproject.Prelude.{
  ℕ, ◌≡◌, refl, true, Option, none, some, [], ◌∷◌, ◌++◌, arith, ◌==◌, if◌then◌else◌, ◌>>=◌, length,
  take, replicate, ℤ, pos, minus_one, ◌==ℤ◌, ltb_ℤ, to_unsigned,
}
use aosproject.Text.{Bytes, show_int}
use aosproject.Text.Decimal.{codes}
use aosproject.Node.State.{Packet, receive}
use aosproject.Socket.{Socket, accepted, buffer_size}
use aosproject.Network.Frame.{c_string}
use aosproject.Network.Accept.{start_text}
use aosproject.Network.Lifetime.{NodeNetwork, new, init, start, Start, send, close_me}
use aosproject.Network.Listen.{handled, accept_loop, close_me_keeps_accepting, send_accepted}

-- Node `x` with a socket whose threads run.
abbrev up : ℕ → NodeNetwork
up x = record (new 0 minus_one x) {
  m_socket = some (accepted (pos 4));
  logfile = some [];
  thread_running = true;
  accepting = true;
}

abbrev lock_to : ℕ → Packet
lock_to x = record { from = 1; to = x; timestamp = 7; text = codes "4 1" }

abbrev zeros : Bytes
zeros = replicate 1030 0

send_accepted_example :
    (a' : NodeNetwork) × (s' : Socket) × (buffer : Bytes) × (send (lock_to 2) zeros (up 1)
      ≡ some a')
    × (a'.m_socket ≡ some s')
    × (s'.messages ≡ (accepted (pos 4)).messages ++ (buffer ∷ []))
    × (length buffer ≡ buffer_size)
    × ((accept_loop (some buffer ∷ []) (up 2)).node ≡ (
        if 2 == to_unsigned (up 2).node.node_id
        then receive (codes "4 1") (up 2).node
        else (up 2).node))
unfolding accepted new
send_accepted_example =
    send_accepted (lock_to 2) zeros (up 1) (up 2) refl refl (omega arith)
      (omega arith, omega arith, omega arith) (ground arith, (ground arith, (ground arith, tt)))
      (omega arith) refl

close_me_keeps_accepting_example :
    ((accept_loop (some start_text ∷ []) (record (up 1) { m_socket = none; logfile = none })).node
      ≡ handled (some start_text ∷ []) (up 1).node)
    × (Path (Option Socket) none none)
unfolding close_me new ◌==ℤ◌ accepted
close_me_keeps_accepting_example =
    close_me_keeps_accepting some (up 1) (some start_text ∷ []) refl refl

-- A node on host 2: its switch is on host 5, and it announces itself with its number.
abbrev started : Start
started = elim (init (some (pos 5500, pos 5600)) true (new 0 minus_one 2)) [
  | none ↦ Start.undefined
  | some n ↦ start (record { socket = pos 4; found = true; connect = pos 0 }) zeros n
]

abbrev announced : Start → Option (Bytes × ℤ)
announced (Start.returned n) = do
  s ← n.m_socket
  some (c_string (take 8 (elim s.messages [ [] ↦ [] | m ∷ ms ↦ m ])), n.m_port)
announced _ = none

start_test : announced started ≡ some (codes "2", pos 5600)
unfolding init start new ltb_ℤ show_int c_string
start_test = refl
