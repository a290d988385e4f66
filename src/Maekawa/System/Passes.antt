-- ===== src/Maekawa/System/Passes.antt =====
-- The grants at a node, with those that wait in its queue, from one step of the system to the next.
use aosproject.Prelude.{
  ℕ, ◌+◌, ◌≤◌, ◌≡◌, refl, sym, ap, ◌∙◌, ◌≢◌, ◌&&◌, some, [], ◌∷◌, arith, if◌then◌else◌, ℤ, pos,
  ◌==ℤ◌, to_unsigned, ==ℤ_iff,
}
use aosproject.Maekawa.Message.{string_message, string_message-raw}
use aosproject.Maekawa.State.{Mak}
use aosproject.Node.State.{receive, get_message, Node, Packet}
use aosproject.Maekawa.System.{delivered}
use aosproject.Maekawa.System.Weight.{
  banned, text_weight, texts_weight, texts_weight-append, packet_weight, bit, is_release, is_grant,
}
use aosproject.Maekawa.System.Effect.{client_claim, arbiter_claim, Effect}
use aosproject.Maekawa.System.Formed.{IsHost}
use aosproject.Text.{Bytes}

-- What a node has of the lock of `a`, its own or another's.
unfoldable pub claim : ℤ → Mak → ℕ
unfolding client_claim
claim a m = if m.node_id ==ℤ a then arbiter_claim a m else client_claim a m

unfoldable pub held : ℤ → Mak → ℕ
unfolding claim texts_weight
held a m = claim a m + texts_weight a m.node_id m.message_queue

-- The node takes this much from the network, and gives this much to it.
pub record Passes (a : ℤ) (taken given : ℕ) (m m' : Mak) : Type 0 where
  pub as_client : m.node_id ≢ a → held a m' + given ≤ held a m + taken
  pub as_arbiter :
      m.node_id ≡ a
      → (rest : ℕ) → held a m + taken + rest ≤ bit m.is_locked
      → held a m' + given + rest ≤ bit m'.is_locked

claim_client : (a : ℤ) (m : Mak) → m.node_id ≢ a → claim a m ≡ client_claim a m
unfolding claim
claim_client a m d = ground (arith, ==ℤ_iff m.node_id a, d)

claim_arbiter : (a : ℤ) (m : Mak) → m.node_id ≡ a → claim a m ≡ arbiter_claim a m
unfolding claim
claim_arbiter a m e = ground (arith, ==ℤ_iff m.node_id a, e)

pub arbiter-held : (a : ℤ) (m : Mak) → m.node_id ≡ a → arbiter_claim a m ≤ held a m
unfolding held
arbiter-held a m e = omega (arith, claim_arbiter a m e)

pub client-held : (a : ℤ) (m : Mak) → m.node_id ≢ a → client_claim a m ≤ held a m
unfolding held
client-held a m d = omega (arith, claim_client a m d)

-- The queue of `m`, which `Effect` leaves alone, may have held one text more.
Effect-Passes :
    {a : ℤ} {g r : ℕ} (m0 m m' : Mak) (extra : ℕ) (x : Effect a g r m m')
    → (m0.node_id ≡ m.node_id) × (m0.is_locked ≡ m.is_locked)
    → held a m0 ≡ held a m + extra
    → g ≤ extra
    → (m.node_id ≡ a → r ≤ extra)
    → Passes a 0 x.weight m0 m'
unfolding held
Effect-Passes {a} {g} {r} m0 m m' extra x (i, l) more ge re = record {
  as_client = λ d.
      let d' : m.node_id ≢ a = λ e. d (i ∙ e) in
      omega (
        arith,
        x.as_client d',
        more,
        ge,
        claim_client a m d',
        claim_client a m' (λ e. d' (sym x.sends.same_id ∙ e)),
        queue,
      );
  as_arbiter = λ e rest few.
      let e' : m.node_id ≡ a = sym i ∙ e in
      omega (
        arith,
        x.as_arbiter e' (texts_weight a m.node_id m.message_queue + rest)
            (omega (arith, few, more, re e', claim_arbiter a m e', ap bit l)),
        claim_arbiter a m' (x.sends.same_id ∙ e'),
        queue,
      );
}
  where
    queue : texts_weight a m'.node_id m'.message_queue ≡ texts_weight a m.node_id m.message_queue
    queue = rw (x.sends.same_id, x.sends.queue) refl

get_message-queue :
    (n n' : Node) (text : Bytes)
    → get_message n ≡ some (text, n')
    → (n.message_queue ≡ text ∷ n'.message_queue)
      × (n' ≡ record n { message_queue = n'.message_queue })
unfolding get_message
get_message-queue n n' text e = ground arith

pub text_weight-message :
    (a id raw : ℤ) (text : Bytes)
    → text_weight a id text
      ≡ bit (is_grant a (string_message raw text))
        + bit ((id ==ℤ a) && is_release (string_message raw text).kind)
        + banned (string_message raw text).kind
unfolding text_weight
text_weight-message a id raw text =
    let (k, f) = string_message-raw raw (pos 0) text in rw (k, f) refl

-- Taken out of the queue, the message still weighs what it did there.
pub popped :
    (a : ℤ) (m : Mak) (text : Bytes) (n' : Node)
    → get_message m.node ≡ some (text, n')
    → (held a m ≡ held a (record m { node = n' }) + text_weight a m.node_id text)
      × (n'.node_id ≡ m.node_id)
      × (n'.quorum_set ≡ m.quorum_set)
      × (n'.sent ≡ m.sent)
unfolding held claim client_claim texts_weight
popped a m text n' got =
    let (q, same) = get_message-queue m.node n' text got in
    let i = ap (λ (n : Node). n.node_id) same in
    let k = ap (λ (n : Node). n.quorum_set) same in
    let c : claim a (record m { node = n' }) ≡ claim a m = rw (i, k) refl in
    let w = ap (λ z. texts_weight a z n'.message_queue) i in
    (omega (arith, ap (texts_weight a m.node_id) q, c, w), i, k, ap (λ (n : Node). n.sent) same)

pub handle-Passes :
    (a : ℤ)
    → IsHost a
    → (m m' : Mak) (raw : ℤ) (text : Bytes) (n' : Node) → get_message m.node ≡ some (text, n')
    → (x : Effect a
        (bit (is_grant a (string_message raw text)))
        (bit (is_release (string_message raw text).kind))
        (record m { node = n' })
        m')
    → Passes a 0 x.weight m m'
handle-Passes a ha m m' raw text n' got x =
    let (more, i, k, s) = popped a m text n' got in
    let w = text_weight-message a m.node_id raw text in
    Effect-Passes m (record m { node = n' }) m' (text_weight a m.node_id text) x (sym i, refl) more
      (omega (arith, w)) (λ e. ground (arith, w, ==ℤ_iff m.node_id a, i, e))

pub round-Passes : (a : ℤ) (m m' : Mak) (x : Effect a 0 0 m m') → Passes a 0 x.weight m m'
round-Passes a m m' x =
    Effect-Passes m m m' 0 x (refl, refl) (omega arith) (omega arith) (λ e. omega arith)

text_weight-packet :
    (a id : ℤ) (p : Packet) → p.to ≡ to_unsigned id → text_weight a id p.text ≤ packet_weight a p
unfolding text_weight packet_weight
text_weight-packet a id p e = ground (arith, ==ℤ_iff id a, e)

pub delivered-Passes :
    (a : ℤ) (m : Mak) (p : Packet)
    → p.to ≡ to_unsigned m.node_id
    → Passes a (packet_weight a p) 0 m (delivered p m)
unfolding held claim client_claim receive texts_weight
delivered-Passes a m p e =
    let queue = texts_weight-append a m.node_id m.message_queue (p.text ∷ []) in
    let light = text_weight-packet a m.node_id p e in
    let more : held a (delivered p m) ≤ held a m + packet_weight a p =
      omega (arith, queue, light) in
    record {
      as_client = λ d. omega (arith, more);
      as_arbiter = λ same rest few. omega (arith, more, few);
    }
