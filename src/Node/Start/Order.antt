-- ===== src/Node/Start/Order.antt =====
-- `Node::start`: what a node has heard, and what it has sent, in each phase.
use aosproject.Prelude.{false, ◌≡◌, ◌≢◌, ◌⊎◌, true, List, [], ◌∷◌, In}
use aosproject.Text.{Bytes, show_int}
use aosproject.Network.Accept.{start_text, end_text}
use aosproject.Node.State.{Node}
use aosproject.Node.Start.{Phase}

-- The first loop is not behind.
abbrev pub IsEarly : Phase → Type 0
IsEarly p = (p ≡ Phase.opening) ⊎ (p ≡ Phase.waiting)

-- What holds at any time: no signal without its text, and no phase without its signal.
record IsLed (p : Phase) (n : Node) (words : List Bytes) : Type 0 where
  started : n.start_signaled ≡ true → In start_text words
  ended : n.disconnect_signaled ≡ true → In end_text words
  silent : IsEarly p ⊎ In start_text words
  open_still : (p ≢ Phase.closed) ⊎ In end_text words
  unsent : (¬ IsEarly p) ⊎ (n.sent ≡ [])

-- What was sent to the switch past `NodeNetwork::send`.
record IsModest (n0 : Node) (p : Phase) (n : Node) (said : List Bytes) : Type 0 where
  first : (p ≢ Phase.opening) ⊎ ((n ≡ n0) × (said ≡ []))
  once : (said ≡ []) ⊎ (said ≡ show_int n0.node_id ∷ [])

-- `Node::init` leaves the signals and what was sent alone.
IsFresh : Node → Type 0
IsFresh n = (n.start_signaled ≡ false) × (n.disconnect_signaled ≡ false) × (n.sent ≡ [])
