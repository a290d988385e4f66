-- ===== src/Lak/Runs.antt =====
-- The token over a whole run of a node.
use aosproject.Prelude.{ℕ, ◌+◌, ◌≡◌, refl, ap, ◌∙◌, subst, some, arith}
use aosproject.Text.{Bytes}
use aosproject.Node.MessageType.{MessageType}
use aosproject.Node.State.{receive, get_message, Node}
use aosproject.Lak.Message.{Entry, Message, string_message}
use aosproject.Lak.State.{Lak}
use aosproject.Lak.Handlers.{dispatch, receive_message}
use aosproject.Lak.Loop.{Step, arrive, handle, round}
use mathlib.Core.Option.{some-injective}
use aosproject.Lak.Tokens.{tokens-same, bit, is_token}
use aosproject.Lak.Conservation.{total, IsGuarded, Expected, dispatch-Counted, tick-Keeps}

-- The step handles `j` TOKEN messages, and a message that the node may count on.
abbrev pub Counts : {m m' : Lak} → Step m m' → ℕ → Type 0
Counts (arrive text) j = j ≡ 0
Counts {m} (handle fuel raw text n got done) j =
    (msg : Message) × (string_message fuel raw text ≡ some msg)
    × Expected msg.kind m
    × (j ≡ bit (is_token msg.kind))
Counts (round quiet on) j = j ≡ 0

-- A run in which `k` TOKEN messages were handled.
pub data Run (s : Lak) : ℕ → Lak → Type 0 where
  start : Run s 0 s
  next :
      {k : ℕ} {m m' : Lak} (j l : ℕ)
      → Run s k m
      → (st : Step m m') → Counts st j
      → l ≡ k + j
      → Run s l m'

abbrev Adds : ℕ → Lak → Lak → Type 0
Adds j m m' = IsGuarded m → (total m' ≡ total m + j) × IsGuarded m'

total-node : (m : Lak) (n : Node) → n.sent ≡ m.sent → total (record m { node = n }) ≡ total m
total-node m n e = ap (λ k. k + bit m.has_token) (tokens-same m.node n e)

receive_message-read :
    (fuel : ℕ) (raw : Entry) (text : Bytes) (m m' : Lak) (msg : Message)
    → string_message fuel raw text ≡ some msg
    → receive_message fuel raw text m ≡ some m'
    → dispatch msg.kind msg m ≡ m'
unfolding receive_message
receive_message-read fuel raw text m m' msg e f = some-injective _ _ (rw e at f)

get_message-sent : (n n' : Node) (text : Bytes) → get_message n ≡ some (text, n') → n'.sent ≡ n.sent
unfolding get_message
get_message-sent n n' text e = ground arith

Expected-node :
    (k : MessageType) (m : Lak) (n : Node) → Expected k m → Expected k (record m { node = n })
Expected-node MessageType.token m n h = h
Expected-node MessageType.relay m n h = h
Expected-node _ m n h = h

Step-Adds : {m m' : Lak} (st : Step m m') (j : ℕ) → Counts st j → Adds j m m'
Step-Adds {m} (arrive text) j e g =
    (total-node m (receive text m.node) (unfold receive in refl) ∙ omega (arith, e), g)
Step-Adds {m} (handle fuel raw text n {m' = m'} got done) j (msg, is_read, expected, e) g =
    let m1 = record m { node = n } in
    let (t, h) = dispatch-Counted msg.kind msg m1 (Expected-node msg.kind m n expected) in
    let same = receive_message-read fuel raw text m1 m' msg is_read done in
    subst (λ (x : Lak). (total x ≡ total m + j) × IsGuarded x) same
      (omega (arith, t, e, total-node m n (get_message-sent m.node n text got)), h g)
Step-Adds {m} (round quiet on) j e g = let (t, h) = tick-Keeps m g in (omega (arith, t, e), h)

-- Over every run of a node that starts outside its critical section or with the token, in which no
-- TOKEN arrives while it has the token and RELAY only while it has it: the TOKEN messages that it
-- has sent, and the token that it has, grow by exactly the TOKEN messages that it has handled; and
-- whenever it is in its critical section it has the token.
pub Run-conserves :
    {s m : Lak} {k : ℕ} → Run s k m → IsGuarded s → (total m ≡ total s + k) × IsGuarded m
Run-conserves start g = (omega arith, g)
Run-conserves {s} (next {k} j l r st c e) g =
    let (t, h) = Run-conserves r g in let (u, i) = Step-Adds st j c h in (omega (arith, t, u, e), i)
