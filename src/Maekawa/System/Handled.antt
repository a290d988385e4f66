-- ===== src/Maekawa/System/Handled.antt =====
-- What the handlers of REQUEST and RELEASE do to the grants of one node's lock.
use aosproject.Prelude.{
  ℕ, ◌+◌, ◌≤◌, ◌≡◌, refl, sym, ◌∙◌, subst, ◌≢◌, ◌⊎◌, inl, inr, Bool, true, false, Option, none,
  some, List, [], ◌∷◌, arith, if◌then◌else◌, Bool-cases, ◌>>=◌, ℤ, minus_one, ◌==ℤ◌, ==ℤ_iff,
}
use aosproject.Maekawa.Message.{Message, precedes}
use aosproject.Maekawa.State.{Mak, send_failed}
use aosproject.Maekawa.Handlers.{
  request_locked, request_free, release_next, front, erase_from, receive_request, receive_release,
}
use mathlib.Core.Option.{some-injective}
use aosproject.OrderedSet.{insert}
use aosproject.Node.State.{Node}
use aosproject.Maekawa.System.{is_same, comes_first}
use aosproject.Maekawa.System.Weight.{bit, bit_le}
use aosproject.Maekawa.System.Effect.{
  Sends, Sends-nothing, send_locked-Sends, send_failed-Sends, client_claim, arbiter_claim, Effect,
}
use aosproject.Maekawa.System.Formed.{IsHost}

-- Only the base class changes.
pub node-Effect :
    {a : ℤ} (m : Mak) (n : Node) → Sends a 0 m.node n → Effect a 0 0 m (record m { node = n })
unfolding client_claim
node-Effect m n s = record {
  weight = 0;
  sends = s;
  as_client = λ d. ground (arith, s.same_id, s.same_quorum);
  as_arbiter = λ e rest few. omega (arith, few);
}

pub if_then : {b : Bool} {x : Option Mak} (y : Option Mak) → b ≡ true → (if b then x else y) ≡ x
if_then y e = rw e refl

module _ (a : ℤ) (ha : IsHost a) where
  pub nobody-claim : bit (minus_one ==ℤ a) ≡ 0
  nobody-claim = let (k, e, u) = ha in ground (arith, ==ℤ_iff minus_one a, e)

  pub locks-as_client : (m : Mak) → m.node_id ≢ a → bit (m.node_id ==ℤ a) ≡ 0
  locks-as_client m d = ground (arith, ==ℤ_iff m.node_id a, d)

  pub locks-as_arbiter : (m : Mak) → m.node_id ≡ a → bit (m.node_id ==ℤ a) ≡ 1
  locks-as_arbiter m e = ground (arith, ==ℤ_iff m.node_id a, e)

  -- What does not touch the answers.
  pub lock-Effect :
      {g r w : ℕ} {m m' : Mak}
      → Sends a w m.node m'.node
      → m'.is_in_cs ≡ m.is_in_cs
      → m'.response_map ≡ m.response_map
      → (m.node_id ≢ a → w ≡ 0)
      → (m.node_id ≡ a
          → (rest : ℕ) → arbiter_claim a m + r + rest ≤ bit m.is_locked
          → arbiter_claim a m' + w + rest ≤ bit m'.is_locked)
      → Effect a g r m m'
  unfolding client_claim
  lock-Effect {w = w} {m = m} s c k light claims = record {
    weight = w;
    sends = s;
    as_client = λ d. rw (c, k, s.same_id, s.same_quorum, light d) (omega arith);
    as_arbiter = claims;
  }

  request_free-Effect :
      (msg : Message) (m : Mak)
      → msg.from ≢ m.node_id
      → m.is_locked ≡ false
      → Effect a 0 0 m (request_free msg m)
  unfolding request_free client_claim
  request_free-Effect msg m d free = record {
    weight = bit (m.node_id ==ℤ a);
    sends = send_locked-Sends a msg.from m.node;
    as_client = λ e. omega (arith, locks-as_client m e);
    as_arbiter =
        λ e rest few. ground (arith, locks-as_arbiter m e, ==ℤ_iff msg.from a, d, e, few, free);
  }

  -- The queue changes as well.
  pub queue-Effect :
      {g r : ℕ} {m' : Mak} (m : Mak) (q : List Message)
      → Effect a g r (record m { waiting_queue = q }) m'
      → Effect a g r m m'
  unfolding client_claim
  queue-Effect m q x = record {
    weight = x.weight;
    sends = x.sends;
    as_client = x.as_client;
    as_arbiter = x.as_arbiter;
  }

  failed-Effect : (to : ℤ) (m : Mak) → Effect a 0 0 m (record m { node = send_failed to m.node })
  failed-Effect to m = node-Effect m _ (send_failed-Sends a to m.node)

  request_locked-Effect :
      (msg : Message) (first : Option Message) (m m' : Mak)
      → is_same msg first ≡ false
      → (first >>= λ r. some (request_locked r msg m)) ≡ some m'
      → Effect a 0 0 m m'
  unfolding request_locked
  request_locked-Effect msg none m m' order e = cc
  request_locked-Effect msg (some r) m m' order e =
      subst (Effect a 0 0 m) (some-injective _ _ (rw order at e)) (failed-Effect msg.from m)

  pub receive_request-Effect :
      (msg : Message) (m m' : Mak)
      → msg.from ≢ m.node_id
      → (m.is_locked ≡ false) ⊎ (comes_first msg m ≡ false)
      → receive_request msg m ≡ some m'
      → Effect a 0 0 m m'
  unfolding receive_request
  receive_request-Effect msg m m' d order e = elim (Bool-cases m.is_locked) [
    | inl locked ↦
        let later : comes_first msg m ≡ false = ground (arith, order, locked) in
        let queue = insert precedes msg m.waiting_queue in
        queue-Effect m queue
          (request_locked-Effect msg (front queue) _ m' later (sym (if_then _ locked) ∙ e))
    | inr free ↦ queue-Effect m (insert precedes msg m.waiting_queue) (
        subst (Effect a 0 0 _) (some-injective _ _ (rw free at e))
          (request_free-Effect msg _ d free))
  ]

  release_next-Effect : (q : List Message) (m : Mak) → Effect a 0 1 m (release_next q m)
  unfolding release_next
  release_next-Effect [] m =
      lock-Effect (Sends-nothing a m.node m.node refl refl refl refl) refl refl (λ d. refl)
        (λ e r few. omega (arith, few, nobody-claim, bit_le m.is_locked))
  release_next-Effect (first ∷ rest) m = elim (Bool-cases (first.from ==ℤ m.node_id)) [
    | inl own ↦
        lock-Effect (rw own (Sends-nothing a m.node m.node refl refl refl refl)) refl refl
          (λ d. refl) (λ e r few. ground (arith, few))
    | inr other ↦
        lock-Effect (rw other (send_locked-Sends a first.from m.node)) refl refl (locks-as_client m)
          (λ e r few.
            ground (arith, few, other, ==ℤ_iff first.from a, ==ℤ_iff first.from m.node_id, e))
  ]

  pub receive_release-Effect : (msg : Message) (m : Mak) → Effect a 0 1 m (receive_release msg m)
  unfolding receive_release
  receive_release-Effect msg m =
      queue-Effect m (erase_from msg.from m.waiting_queue) (release_next-Effect _ _)
