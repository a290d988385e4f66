-- ===== src/Lak/System/Moves.antt =====
-- No step of the system makes a token.
use aosproject.Prelude.{
  ℕ, ◌+◌, ◌≤◌, ◌<◌, ◌≡◌, refl, sym, ap, ◌∙◌, ◌≢◌, ◌⊎◌, inl, inr, true, some, List, [], ◌∷◌, ◌++◌,
  arith, >>=-eq-some, length, drop,
}
use aosproject.Text.{Bytes, rest_field}
use aosproject.Node.MessageType.{MessageType}
use aosproject.Node.State.{receive, get_message, Node, Packet}
use aosproject.Lak.Message.{Entry, Message, string_message}
use aosproject.Lak.State.{Lak}
use aosproject.Lak.Handlers.{dispatch, receive_message}
use aosproject.Lak.Loop.{tick}
use mathlib.Core.Option.{some-injective}
use aosproject.Family.{update-each, sum, sum-update, sum-one}
use aosproject.Lak.Tokens.{tokens, weight, bit, is_token, token_count, token_count-append}
use aosproject.Lak.Message.Codec.{read_fields-kind}
use aosproject.Lak.Conservation.{IsGuarded, Expected, dispatch-Counted, tick-Keeps}
use aosproject.Lak.Extends.{Extends, dispatch-Extends, tick-Extends}
use aosproject.Lak.System.{
  System, moved, delivered, SystemStep, deliver, lose, handle, round, Reach, start, later, kind_of,
  RelayAtHolder, RelaysAtHolder,
}

unfoldable pub queue_tokens : List Bytes → ℕ
queue_tokens [] = 0
queue_tokens (text ∷ texts) = weight text + queue_tokens texts

queue_tokens-append : (a b : List Bytes) → queue_tokens (a ++ b) ≡ queue_tokens a + queue_tokens b
unfolding queue_tokens
queue_tokens-append [] b = omega arith
queue_tokens-append (t ∷ a) b = omega (arith, queue_tokens-append a b)

-- The tokens at a node: its own, and those in its queue.
unfoldable pub held : Lak → ℕ
unfolding queue_tokens
held m = bit m.has_token + queue_tokens m.message_queue

-- The tokens of the system.
unfoldable pub all_tokens : ℕ → System → ℕ
unfolding held token_count
all_tokens n s = sum held n s.nodes + token_count s.flying

pub record Safe (n : ℕ) (s : System) : Type 0 where
  pub few : all_tokens n s ≤ 1
  pub guarded : (j : ℕ) → j < n → IsGuarded (s.nodes j)

drop-append : (a b : List Packet) → drop (length a) (a ++ b) ≡ b
drop-append [] b = refl
drop-append (p ∷ a) b = drop-append a b

drop-Extends : {n n' : Node} (x : Extends n n') → drop (length n.sent) n'.sent ≡ x.new
drop-Extends {n} x = ap (drop (length n.sent)) x.sends ∙ drop-append n.sent x.new

-- What a node has sent meanwhile.
tokens-new :
    {n n' : Node} → Extends n n' → tokens n' ≡ tokens n + token_count (drop (length n.sent) n'.sent)
unfolding tokens
tokens-new {n} x =
    ap token_count x.sends
    ∙ token_count-append n.sent x.new
    ∙ ap (λ l. token_count n.sent + token_count l) (sym (drop-Extends x))

-- A node that makes no token moves within the system.
moved-Safe :
    (n : ℕ) (s : System) (j : ℕ) (m : Lak)
    → j < n
    → held m + token_count (drop (length (s.nodes j).sent) m.sent) ≤ held (s.nodes j)
    → IsGuarded m
    → Safe n s
    → Safe n (moved s j m)
unfolding all_tokens
moved-Safe n s j m l fewer g safe = record {
  few = omega (
    arith,
    fewer,
    safe.few,
    sum-update held n s.nodes j m l,
    token_count-append s.flying (drop (length (s.nodes j).sent) m.sent),
  );
  guarded = update-each IsGuarded n s.nodes j m g safe.guarded;
}

tick-held :
    (m : Lak)
    → IsGuarded m
    → held (tick m) + token_count (drop (length m.sent) (tick m).sent) ≡ held m
unfolding held
tick-held m g =
    let x = tick-Extends m in
    omega (arith, (tick-Keeps m g).0, tokens-new x, ap queue_tokens x.queue)

dispatch-held :
    (k : MessageType) (msg : Message) (m : Lak)
    → Expected k m
    → held (dispatch k msg m) + token_count (drop (length m.sent) (dispatch k msg m).sent)
      ≡ held m + bit (is_token k)
unfolding held
dispatch-held k msg m h =
    let x = dispatch-Extends k msg m in
    omega (arith, (dispatch-Counted k msg m h).0, tokens-new x, ap queue_tokens x.queue)

get_message-queue :
    (n n' : Node) (text : Bytes)
    → get_message n ≡ some (text, n')
    → (n.message_queue ≡ text ∷ n'.message_queue) × (n'.sent ≡ n.sent)
unfolding get_message
get_message-queue n n' text e = ground arith

string_message-kind :
    (fuel : ℕ) (raw : Entry) (text : Bytes) (msg : Message)
    → string_message fuel raw text ≡ some msg
    → msg.kind ≡ kind_of text
unfolding string_message
string_message-kind fuel raw text msg e =
    read_fields-kind fuel raw (kind_of text) (rest_field text) msg e

Expected-of :
    (k : MessageType) (m : Lak)
    → bit m.has_token + bit (is_token k) ≤ 1
    → (k ≢ MessageType.relay) ⊎ (m.has_token ≡ true)
    → Expected k m
Expected-of MessageType.token m few r = ground (arith, few)
Expected-of MessageType.relay m few (inl r) = absurd (r refl)
Expected-of MessageType.relay m few (inr r) = r
Expected-of _ m few r = tt

token_count-split :
    (before after : List Packet) (p : Packet)
    → token_count (before ++ (p ∷ after)) ≡ token_count (before ++ after) + weight p.text
unfolding token_count
token_count-split before after p =
    omega (arith, token_count-append before (p ∷ after), token_count-append before after)

delivered-held : (p : Packet) (m : Lak) → held (delivered p m) ≡ held m + weight p.text
unfolding held receive queue_tokens
delivered-held p m = omega (arith, queue_tokens-append m.message_queue (p.text ∷ []))

receive_message-dispatch :
    (fuel : ℕ) (raw : Entry) (text : Bytes) (m m' : Lak)
    → receive_message fuel raw text m ≡ some m'
    → (msg : Message) × (msg.kind ≡ kind_of text) × (dispatch (kind_of text) msg m ≡ m')
unfolding receive_message
receive_message-dispatch fuel raw text m m' e =
    let (msg, is_read, same) = >>=-eq-some (string_message fuel raw text) _ e in
    let k = string_message-kind fuel raw text msg is_read in
    (msg, k, rw (← k) (some-injective _ _ same))

handle-Safe :
    (n : ℕ) (s : System) (j fuel : ℕ) (raw : Entry) (text : Bytes) (n' : Node) (m : Lak)
    → j < n
    → get_message (s.nodes j).node ≡ some (text, n')
    → receive_message fuel raw text (record (s.nodes j) { node = n' }) ≡ some m
    → (kind_of text ≢ MessageType.relay) ⊎ ((s.nodes j).has_token ≡ true)
    → Safe n s
    → Safe n (moved s j m)
unfolding held queue_tokens all_tokens
handle-Safe n s j fuel raw text n' m l got done relay safe =
    let m0 = s.nodes j in
    let m1 : Lak = record m0 { node = n' } in
    let (q, sent) = get_message-queue m0.node n' text got in
    let (msg, k, same) = receive_message-dispatch fuel raw text m1 m done in
    let queue = ap queue_tokens q in
    let mine = sum-one held n s.nodes j l in
    let few : bit m0.has_token + bit (is_token (kind_of text)) ≤ 1 =
      omega (arith, safe.few, mine, queue) in
    let expected = Expected-of (kind_of text) m1 few relay in
    let counted = rw same at (dispatch-held (kind_of text) msg m1 expected) in
    let guarded =
      rw same at ((dispatch-Counted (kind_of text) msg m1 expected).1 (safe.guarded j l)) in
    moved-Safe n s j m l (omega (arith, queue, rw sent at counted)) guarded safe

SystemStep-Safe :
    (n : ℕ) {s t : System} (st : SystemStep n s t) → RelayAtHolder st → Safe n s → Safe n t
unfolding all_tokens
SystemStep-Safe n {s} (deliver before after p j l e i) ok safe = record {
  few = omega (
    arith,
    safe.few,
    ap token_count e,
    token_count-split before after p,
    delivered-held p (s.nodes j),
    sum-update held n s.nodes j (delivered p (s.nodes j)) l,
  );
  guarded =
      update-each IsGuarded n s.nodes j (delivered p (s.nodes j)) (safe.guarded j l) safe.guarded;
}
SystemStep-Safe n {s} (lose before after p e) ok safe = record {
  few = omega (arith, safe.few, ap token_count e, token_count-split before after p);
  guarded = safe.guarded;
}
SystemStep-Safe n {s} (handle j fuel raw text n' {m = m} l got done) ok safe =
    handle-Safe n s j fuel raw text n' m l got done ok safe
SystemStep-Safe n {s} (round j l quiet on) ok safe =
    let g = safe.guarded j l in
    moved-Safe n s j (tick (s.nodes j)) l (omega (arith, tick-held (s.nodes j) g))
      (tick-Keeps (s.nodes j) g).1 safe

pub Reach-Safe : (n : ℕ) {s t : System} (r : Reach n s t) → RelaysAtHolder r → Safe n s → Safe n t
Reach-Safe n start ok safe = safe
Reach-Safe n (later r st) (ok, at) safe = SystemStep-Safe n st at (Reach-Safe n r ok safe)
