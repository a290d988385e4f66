-- ===== src/Network/Lifetime.antt =====
-- `class NodeNetwork`: from the constructor to `close_me`. What is printed on the screen is left out.
use aosproject.Prelude.{
  ℕ, zero, suc, Bool, true, false, Option, none, some, List, [], ◌∷◌, ◌++◌, if◌then◌else◌, ◌>>=◌, ℤ,
  pos,
}
use aosproject.Text.{Bytes, show_int}
use aosproject.Text.Decimal.{codes}
use aosproject.Node.State.{new as new_node, Node, Packet, testbed}
use aosproject.Socket
use aosproject.Socket.{
  Socket, closed, ConnectCalls, Outcome, connect_host, register_event_listener, disconnect,
  buffer_size,
}
use aosproject.Network.Frame.{frame, c_string}
use aosproject.Network.Accept.{host_name, switch_netid}
use aosproject.Network.Connect.{on_connect}

-- `m_node_id` is the number of the node; for a null pointer, or a file that is not open, stands `none`.
pub record NodeNetwork : Type 0 where
  pub m_node_id : ℕ
  pub m_port : ℤ
  pub m_switch_netid : ℕ  -- not set by the constructor
  pub m_socket : Option Socket
  pub node : Node
  pub logfile : Option (List Bytes)  -- the lines
  pub thread_running : Bool
  pub accepting : Bool  -- m_accept_thread was started
  pub accept_socket : ℤ  -- m_accept_thread.m_socket, not set by the constructor

-- The constructor; `raw` and `raw_socket` are what the fields that it does not set happen to hold.
unfoldable pub new : ℕ → ℤ → ℕ → NodeNetwork
unfolding new_node
new raw raw_socket node_id = record {
  m_node_id = node_id;
  m_port = pos 0;
  m_switch_netid = raw;
  m_socket = none;
  node = new_node (pos node_id);
  logfile = none;
  thread_running = false;
  accepting = false;
  accept_socket = raw_socket;
}

-- `init`, by the two numbers in ports.txt, which both go to `m_port`, and whether the log could be
-- opened. `none`: there is no such file, and `fscanf` is given a null pointer.
unfoldable pub init : Option (ℤ × ℤ) → Bool → NodeNetwork → Option NodeNetwork
unfolding switch_netid register_event_listener
init none opened n = none
init (some (lserver, switch)) opened n = some (record n {
  m_port = switch;
  m_switch_netid = switch_netid n.m_node_id;
  logfile = (if opened then some [] else none);
  m_socket = some (register_event_listener closed).1;
})

-- A line of the log.
unfoldable pub log_line : Bytes → Packet → Bytes
unfolding c_string show_int
log_line what p =
    what
    ++ (codes " from="
        ++ (show_int (pos p.from)
            ++ (codes " to="
                ++ (show_int (pos p.to)
                    ++ (codes " timestamp="
                        ++ (show_int (pos p.timestamp) ++ (codes "  msg: " ++ c_string p.text)))))))

-- What is written to a file that is not open is lost.
abbrev pub write_log : Bytes → Option (List Bytes) → Option (List Bytes)
write_log line none = none
write_log line (some lines) = some (lines ++ (line ∷ []))

-- `none` is a null pointer, or what `Socket::send` may not do.
unfoldable pub send : Packet → Bytes → NodeNetwork → Option NodeNetwork
unfolding frame log_line Socket.send
send p behind n = do
  socket ← n.m_socket
  s ← Socket.send (frame p behind) socket
  some (record n {
    logfile = write_log (log_line (codes "NodeNetwork:: send") p) n.logfile;
    m_socket = some s;
  })

-- `sprintf(buff,"END %d",m_node_id)`.
unfoldable pub send_end_signal : Bytes → NodeNetwork → Option NodeNetwork
unfolding send show_int
send_end_signal behind n =
    send
      (record {
        from = n.m_node_id;
        to = testbed;
        timestamp = 0;
        text = b'E' ∷ b'N' ∷ b'D' ∷ b' ' ∷ show_int (pos n.m_node_id);
      })
      behind n

pub data Start : Type 0 where
  undefined : Start
  exited : Start
  returned : NodeNetwork → Start

-- `onConnect` runs before `connectHost` returns.
connected : Bytes → ℕ → ℕ → Socket → Option Socket
unfolding on_connect
connected behind node_id zero s = some s
connected behind node_id (suc made) s = on_connect node_id behind s

listening : NodeNetwork → Option Socket → Start
listening n none = Start.undefined
listening n (some s) =
    Start.returned (record n { m_socket = some s; thread_running = true; accepting = true })

after_connect : Bytes → NodeNetwork → Outcome → Start
unfolding connected listening
after_connect behind n Outcome.exited = Start.exited
after_connect behind n (Outcome.returned made s) = listening n (connected behind n.m_node_id made s)

-- `start`, by the results of the system calls of `connectHost`.
unfoldable pub start : ConnectCalls → Bytes → NodeNetwork → Start
unfolding after_connect connect_host host_name
start calls behind n = start_with n.m_socket
  where
    start_with : Option Socket → Start
    start_with none = Start.undefined
    start_with (some s) =
        after_connect behind n (connect_host calls (some (host_name n.m_switch_netid)) s)

-- `close_me`, with what the threads of the socket do before they are joined; `none` never returns.
unfoldable pub close_me : (Socket → Option Socket) → NodeNetwork → Option NodeNetwork
unfolding disconnect
close_me joined n = close n.m_socket
  where
    close : Option Socket → Option NodeNetwork
    close none = some (record n { logfile = none })
    close (some s) = do
      s' ← disconnect joined s
      some (record n { m_socket = none; logfile = none })
