-- ===== src/Maekawa/System/Effect.antt =====
-- What a part of a method sends, and what it does to the grants of one node's lock.
use aosproject.Prelude.{
  ℕ, ◌+◌, ◌≤◌, ◌≡◌, refl, sym, ap, ◌∙◌, subst, ◌≢◌, Bool, false, List, [], ◌∷◌, ◌++◌, append-nil,
  append_assoc, arith, if◌then◌else◌, ℤ, ◌==ℤ◌, to_unsigned,
}
use aosproject.Maekawa.Message.{Message}
use aosproject.Maekawa.State.{
  Mak, signal, send_locked, send_failed, request_quorum, release_quorum, relinquish_all,
}
use aosproject.Node.MessageType.{MessageType}
use aosproject.Node.State.{
  control, network_send, send, send_access_cs_msg, send_finish_cs_msg, Node, Packet,
}
use aosproject.Maekawa.Sends.{
  signal_packet, control_packet, others, appended, request_packets, release_quorum-sent,
  request_quorum-sent,
}
use aosproject.Maekawa.System.Weight.{
  bit, is_lock, packet_weight, packets_weight, packets_weight-append, count_to,
  weight-release_packets, weight-control_access, weight-control_finish, weight-request_packets,
  weight-lock, weight-fail,
}

-- The node's thread has sent packets of this weight, and nothing else that others see has changed.
pub record Sends (a : ℤ) (weight : ℕ) (n n' : Node) : Type 0 where
  pub new : List Packet
  pub sends : n'.sent ≡ n.sent ++ new
  pub weighs : packets_weight a new ≡ weight
  pub queue : n'.message_queue ≡ n.message_queue
  pub same_id : n'.node_id ≡ n.node_id
  pub same_quorum : n'.quorum_set ≡ n.quorum_set

module _ (a : ℤ) where
  pub Sends-nothing :
      (n n' : Node)
      → n'.sent ≡ n.sent
      → n'.message_queue ≡ n.message_queue
      → n'.node_id ≡ n.node_id
      → n'.quorum_set ≡ n.quorum_set
      → Sends a 0 n n'
  unfolding packets_weight
  Sends-nothing n n' s q i k = record {
    new = [];
    sends = s ∙ sym (append-nil n.sent);
    weighs = refl;
    queue = q;
    same_id = i;
    same_quorum = k;
  }

  pub Sends-trans :
      {v w : ℕ} {n n' n'' : Node} → Sends a v n n' → Sends a w n' n'' → Sends a (v + w) n n''
  Sends-trans {n = n} x y = record {
    new = x.new ++ y.new;
    sends = y.sends ∙ ap (λ l. l ++ y.new) x.sends ∙ append_assoc n.sent x.new y.new;
    weighs = omega (arith, packets_weight-append a x.new y.new, x.weighs, y.weighs);
    queue = y.queue ∙ x.queue;
    same_id = y.same_id ∙ x.same_id;
    same_quorum = y.same_quorum ∙ x.same_quorum;
  }

  pub appended-Sends :
      {w : ℕ} (n : Node) (ps : List Packet) → packets_weight a ps ≡ w → Sends a w n (appended n ps)
  appended-Sends n ps e = record {
    new = ps;
    sends = refl;
    weighs = e;
    queue = refl;
    same_id = refl;
    same_quorum = refl;
  }

  one : (p : Packet) → packets_weight a (p ∷ []) ≡ packet_weight a p
  unfolding packets_weight
  one p = omega arith

  pub send_locked-Sends : (to : ℤ) (n : Node) → Sends a (bit (n.node_id ==ℤ a)) n (send_locked to n)
  unfolding send_locked signal send network_send
  send_locked-Sends to n =
      appended-Sends n (signal_packet MessageType.lock to n ∷ []) (one _ ∙ weight-lock a to n)

  pub send_failed-Sends : (to : ℤ) (n : Node) → Sends a 0 n (send_failed to n)
  unfolding send_failed signal send network_send
  send_failed-Sends to n =
      appended-Sends n (signal_packet MessageType.fail to n ∷ []) (one _ ∙ weight-fail a to n)

  -- The node has nobody to give way to.
  pub relinquish_all-Sends :
      (ms : List Message) (n : Node) → ms ≡ [] → Sends a 0 n (relinquish_all ms n)
  unfolding relinquish_all
  relinquish_all-Sends ms n e =
      subst (λ l. Sends a 0 n (relinquish_all l n)) (sym e) (Sends-nothing n n refl refl refl refl)

  pub release_quorum-Sends :
      (qs : List ℤ) (n : Node) → Sends a (count_to a (others n.node_id qs)) n (release_quorum qs n)
  release_quorum-Sends qs n =
      subst (Sends a _ n) (sym (release_quorum-sent qs n))
        (appended-Sends n _ (weight-release_packets a n (others n.node_id qs)))

  module _ (h : to_unsigned a ≢ control) where
    pub request_quorum-Sends :
        (msg : Message) (qs : List ℤ) (n : Node)
        → msg.kind ≡ MessageType.request
        → Sends a 0 n (request_quorum msg qs n)
    request_quorum-Sends msg qs n is_request =
        subst (Sends a 0 n) (sym (request_quorum-sent msg qs n)) (
          appended-Sends n _ (
            subst
              (λ k.
                packets_weight a (request_packets (record msg { kind = k }) n (others n.node_id qs))
                ≡ 0)
              (sym is_request)
              (weight-request_packets a msg.from msg.seq n (others n.node_id qs) h)))

    pub send_access_cs_msg-Sends : (n : Node) → Sends a 0 n (send_access_cs_msg n)
    unfolding send_access_cs_msg network_send
    send_access_cs_msg-Sends n =
        appended-Sends n (control_packet (b'1' ∷ []) n ∷ []) (one _ ∙ weight-control_access a n h)

    pub send_finish_cs_msg-Sends : (n : Node) → Sends a 0 n (send_finish_cs_msg n)
    unfolding send_finish_cs_msg network_send
    send_finish_cs_msg-Sends n =
        appended-Sends n (control_packet (b'2' ∷ []) n ∷ []) (one _ ∙ weight-control_finish a n h)

-- The answer of `a` is LOCK.
unfoldable pub granted : ℤ → List (ℤ × MessageType) → Bool
granted a [] = false
granted a ((k, v) ∷ m) = if a ==ℤ k then is_lock v else granted a m

-- What a node has of the lock of another, `a`: in its critical section what it will release.
unfoldable pub client_claim : ℤ → Mak → ℕ
unfolding granted
client_claim a m =
    if m.is_in_cs
    then count_to a (others m.node_id m.quorum_set)
    else bit (granted a m.response_map)

-- What a node has of its own lock.
abbrev pub arbiter_claim : ℤ → Mak → ℕ
arbiter_claim a m = bit (m.locked_for.1 ==ℤ a)

-- A part of the node's work, for which it takes grants of the lock of `a`, or releases of it.
pub record Effect (a : ℤ) (grants releases : ℕ) (m m' : Mak) : Type 0 where
  pub weight : ℕ
  pub sends : Sends a weight m.node m'.node
  pub as_client : m.node_id ≢ a → client_claim a m' + weight ≤ client_claim a m + grants
  pub as_arbiter :
      m.node_id ≡ a
      → (rest : ℕ) → arbiter_claim a m + releases + rest ≤ bit m.is_locked
      → arbiter_claim a m' + weight + rest ≤ bit m'.is_locked

pub Effect-trans :
    {a : ℤ} {g r : ℕ} {m m' m'' : Mak}
    → Effect a g r m m'
    → Effect a 0 0 m' m''
    → Effect a g r m m''
Effect-trans {a} x y = record {
  weight = x.weight + y.weight;
  sends = Sends-trans a x.sends y.sends;
  as_client = λ h. omega (arith, x.as_client h, y.as_client (λ e. h (sym x.sends.same_id ∙ e)));
  as_arbiter = λ e rest few. omega (
    arith,
    y.as_arbiter (x.sends.same_id ∙ e) (x.weight + rest) (omega (arith, x.as_arbiter e rest few)),
  );
}
