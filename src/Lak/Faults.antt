-- ===== src/Lak/Faults.antt =====
-- Where the token algorithm goes wrong: tokens out of nothing, requests forgotten, and a broadcast
-- sent over and over.
use aosproject.Prelude.{
  ℕ, ◌+◌, ◌*◌, ◌≡◌, refl, ap, ◌∙◌, ◌≢◌, ◌⊎◌, inl, inr, true, false, List, [], ◌∷◌, arith,
  if◌then◌else◌, Bool-cases, length, length-append, ℤ, pos, ◌==ℤ◌, ==ℤ_iff,
}
use aosproject.Node.MessageType.{MessageType}
use aosproject.Node.State.{network_send, Node, send}
use aosproject.Lak.Message.{Entry, Message}
use aosproject.Lak.State.{Lak, signal, broadcast, send_receive, send_receive_each, send_token}
use aosproject.Lak.Handlers.{
  access_cs, pass_token, keep_token, take_token, receive_token, answer_relay, receive_relay,
}
use aosproject.Lak.Tokens.{tokens, tokens-send_token, tokens-send_release}
use aosproject.Lak.Conservation.{total}

pass_token_forges :
    (to : ℤ) (m : Lak)
    → (tokens (pass_token to m).node ≡ tokens m.node + 1)
      × ((pass_token to m).has_token ≡ false)
      × ((pass_token to m).token_holder ≡ to)
unfolding pass_token
pass_token_forges to m = (
  tokens-send_release (send_token to m).node ∙ tokens-send_token to m,
  unfold send_token in refl,
  unfold send_token in refl,
)

-- A node without the token, outside its critical section, that receives RELAY sends a TOKEN all the
-- same, unless it takes node 0 for the holder: there is then one token more than before.
pub receive_relay_forges :
    (msg : Entry) (m : Lak)
    → m.has_token ≡ false
    → m.is_in_cs ≡ false
    → m.token_holder ≢ pos 0
    → (total (receive_relay msg m) ≡ total m + 1) × ((receive_relay msg m).token_holder ≡ msg.relay)
unfolding receive_relay answer_relay
receive_relay_forges msg m without out holder = ground (
  arith,
  ==ℤ_iff m.token_holder (pos 0),
  pass_token_forges msg.relay m,
  pass_token_forges msg.relay (record m { seq = msg.seq }),
)

-- The requests that a TOKEN carries behind the first are forgotten: whatever they are, the node does
-- the same; and the first request is another node's, or its own list stays as it was.
pub receive_token_forgets :
    (msg : Message) (first : Entry) (rest rest' : List Entry) (m : Lak)
    → (receive_token (record msg { req_list = first ∷ rest }) m
        ≡ receive_token (record msg { req_list = first ∷ rest' }) m)
      × ((first.from ≢ m.node_id)
          ⊎ ((receive_token (record msg { req_list = first ∷ rest }) m).token_list ≡ m.token_list))
unfolding receive_token take_token access_cs keep_token
receive_token_forgets msg first rest rest' m = (refl, ground (arith, ==ℤ_iff first.from m.node_id))

-- The others of a quorum.
abbrev pub others : ℤ → List ℤ → List ℤ
others id [] = []
others id (q ∷ qs) = if q ==ℤ id then others id qs else q ∷ others id qs

broadcast_self :
    (kind : MessageType) (q : ℤ) (qs : List ℤ) (n : Node)
    → (q ==ℤ n.node_id) ≡ true
    → broadcast kind (q ∷ qs) n ≡ broadcast kind qs n
unfolding broadcast
broadcast_self kind q qs n e = rw e refl

broadcast_other :
    (kind : MessageType) (q : ℤ) (qs : List ℤ) (n : Node)
    → (q ==ℤ n.node_id) ≡ false
    → broadcast kind (q ∷ qs) n ≡ broadcast kind qs (signal kind q n)
unfolding broadcast
broadcast_other kind q qs n e = rw e refl

-- What a loop of sends leaves: so many more packets, and the rest as it was.
abbrev Sent : Node → ℕ → Node → Type 0
Sent n k n' =
    (length n'.sent ≡ length n.sent + k) × (n'.node_id ≡ n.node_id) × (n'.quorum_set ≡ n.quorum_set)

signal-Sent : (kind : MessageType) (q : ℤ) (n : Node) → Sent n 1 (signal kind q n)
unfolding signal send network_send
signal-Sent kind q n = (length-append n.sent _, refl, refl)

Sent-then : (n n' n'' : Node) (j k : ℕ) → Sent n j n' → Sent n' k n'' → Sent n (j + k) n''
Sent-then n n' n'' j k a b = (omega (arith, a.0, b.0), b.1 ∙ a.1, b.2 ∙ a.2)

broadcast-Sent :
    (kind : MessageType) (qs : List ℤ) (n : Node)
    → Sent n (length (others n.node_id qs)) (broadcast kind qs n)
broadcast-Sent kind [] n = unfold broadcast in (omega arith, refl, refl)
broadcast-Sent kind (q ∷ qs) n = elim (Bool-cases (q ==ℤ n.node_id)) [
  | inl e ↦ rw (broadcast_self kind q qs n e, e) (broadcast-Sent kind qs n)
  | inr e ↦
      rw (broadcast_other kind q qs n e, e)
        (let b = broadcast-Sent kind qs (signal kind q n) in
          let (l, i, s) = signal-Sent kind q n in
          (omega (arith, l, b.0, ap (λ id. length (others id qs)) i), b.1 ∙ i, b.2 ∙ s))
]

each_self :
    (q : ℤ) (qs : List ℤ) (n : Node)
    → (q ==ℤ n.node_id) ≡ true
    → send_receive_each (q ∷ qs) n ≡ send_receive_each qs n
unfolding send_receive_each
each_self q qs n e = rw e refl

each_other :
    (q : ℤ) (qs : List ℤ) (n : Node)
    → (q ==ℤ n.node_id) ≡ false
    → send_receive_each (q ∷ qs) n ≡ send_receive_each qs (send_receive n)
unfolding send_receive_each
each_other q qs n e = rw e refl

send_receive-Sent : (n : Node) → Sent n (length (others n.node_id n.quorum_set)) (send_receive n)
unfolding send_receive
send_receive-Sent n = broadcast-Sent MessageType.receive n.quorum_set n

send_receive_each-Sent :
    (qs : List ℤ) (n : Node)
    → Sent n
        (length (others n.node_id qs) * length (others n.node_id n.quorum_set))
        (send_receive_each qs n)
unfolding send_receive_each send_receive broadcast
send_receive_each-Sent [] n = (omega arith, refl, refl)
send_receive_each-Sent (q ∷ qs) n = elim (Bool-cases (q ==ℤ n.node_id)) [
  | inl e ↦ rw (each_self q qs n e, e) (send_receive_each-Sent qs n)
  | inr e ↦
      let (l, i, t) = send_receive-Sent n in
      let r = send_receive_each-Sent qs (send_receive n) in
      let r' = rw (i, t) at r in rw (each_other q qs n e, e) (omega (arith, l, r'.0), r'.1, r'.2)
]

-- A node that takes the token, from an empty list, tells every other member of its quorum so once
-- for each of them: with `k` others it sends `k * k` messages, where `k` would do.
pub receive_token_floods :
    (msg : Message) (m : Lak)
    → msg.req_list ≡ []
    → let k = length (others m.node_id m.quorum_set) in
      length (receive_token msg m).sent ≡ length m.sent + k * k
unfolding receive_token take_token keep_token
receive_token_floods msg m e = rw e (send_receive_each-Sent m.quorum_set m.node).0
