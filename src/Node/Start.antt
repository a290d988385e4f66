-- ===== src/Node/Start.antt =====
-- `Node::start`: the phases of a node, and the signals that it waits for.
pub mod Order
use aosproject.Prelude.{Bool, if◌then◌else◌, ◌≡◌, ◌≢◌, true, List, [], ◌∷◌, ◌++◌}
use aosproject.Text.{Bytes, show_int}
use aosproject.Network.Frame.{c_string}
use aosproject.Network.Accept.{accept_message}
use aosproject.Node.State.{Node, send_end_signal}

-- Where `start` is: in or before `m_node_network.start()`, in its first loop, in `run`, in its second
-- loop, or behind it.
pub data Phase : Type 0 where
  opening : Phase
  waiting : Phase
  running : Phase
  finished : Phase
  closed : Phase

-- What the two algorithms have for `run`: the steps of it on the state of this class, and its end.
-- The signals are the network's.
pub record Program : Type 1 where
  pub IsRound : Node → Node → Type 0
  pub IsOver : Node → Type 0
  pub keeps_start : (n n' : Node) → IsRound n n' → n'.start_signaled ≡ n.start_signaled
  pub keeps_end : (n n' : Node) → IsRound n n' → n'.disconnect_signaled ≡ n.disconnect_signaled

module _ (program : Program) where
  -- `m_node_network.start()` calls `connectHost`, which makes the connection to the switch or not,
  -- and starts the accepting thread, which then takes a connection at any time.
  pub data StartStep (p : Phase) (n : Node) : Phase → Node → Type 0 where
    connect : p ≡ Phase.opening → (connected : Bool) → StartStep p n Phase.waiting n
    accept : (message : Bytes) → p ≢ Phase.opening → StartStep p n p (accept_message message n)
    begin : p ≡ Phase.waiting → n.start_signaled ≡ true → StartStep p n Phase.running n
    go_on : {n' : Node} → p ≡ Phase.running → program.IsRound n n' → StartStep p n Phase.running n'
    finish : p ≡ Phase.running → program.IsOver n → StartStep p n Phase.finished (send_end_signal n)
    close : p ≡ Phase.finished → n.disconnect_signaled ≡ true → StartStep p n Phase.closed n

  -- The texts that have come.
  abbrev pub heard : {p q : Phase} {n n' : Node} → StartStep p n q n' → List Bytes
  heard (connect e connected) = []
  heard (accept message o) = c_string message ∷ []
  heard (begin e s) = []
  heard (go_on e r) = []
  heard (finish e o) = []
  heard (close e s) = []

  -- What `onConnect` sends to the switch, past `NodeNetwork::send`: the number of the node.
  abbrev pub announced : {p q : Phase} {n n' : Node} → StartStep p n q n' → List Bytes
  announced {n = n} (connect e connected) = if connected then show_int n.node_id ∷ [] else []
  announced (accept message o) = []
  announced (begin e s) = []
  announced (go_on e r) = []
  announced (finish e o) = []
  announced (close e s) = []

  pub data StartRun (n : Node) : Phase → Node → List Bytes → List Bytes → Type 0 where
    fresh_node : StartRun n Phase.opening n [] []
    step :
        {p q : Phase} {m m' : Node} {words said : List Bytes}
        → StartRun n p m words said
        → (st : StartStep p m q m') → StartRun n q m' (words ++ heard st) (said ++ announced st)
