-- ===== src/Lak/Program.antt =====
-- The token node as the program of `Node::start`.
use aosproject.Prelude.{ℕ, ◌≤◌, ◌≡◌, refl, ◌∙◌, subst, some, arith, >>=-eq-some}
use aosproject.Text.{Bytes}
use aosproject.Node.State.{Node, get_message, receive}
use aosproject.Node.Start.{Program}
use aosproject.Lak.Message.{Entry, string_message}
use aosproject.Lak.State.{Lak}
use aosproject.Lak.Handlers.{receive_message}
use aosproject.Lak.Loop.{Step, arrive, handle, round, end_of_run}
use aosproject.Lak.Extends.{Extends, dispatch-Extends, tick-Extends}
use mathlib.Core.Option.{some-injective}

-- The signals are as they were.
abbrev Keeps : Node → Node → Type 0
Keeps n n' =
    (n'.start_signaled ≡ n.start_signaled) × (n'.disconnect_signaled ≡ n.disconnect_signaled)

Keeps-trans : (a b c : Node) → Keeps a b → Keeps b c → Keeps a c
Keeps-trans a b c (s, e) (s', e') = (s' ∙ s, e' ∙ e)

Extends-Keeps : {n n' : Node} → Extends n n' → Keeps n n'
Extends-Keeps x = (x.same_start, x.same_end)

get_message-Keeps : (n n' : Node) (text : Bytes) → get_message n ≡ some (text, n') → Keeps n n'
unfolding get_message
get_message-Keeps n n' text e = ground arith

receive_message-Keeps :
    (fuel : ℕ) (raw : Entry) (text : Bytes) (m m' : Lak)
    → receive_message fuel raw text m ≡ some m'
    → Keeps m.node m'.node
unfolding receive_message
receive_message-Keeps fuel raw text m m' e =
    let (msg, is_read, same) = >>=-eq-some (string_message fuel raw text) _ e in
    subst (λ (r : Lak). Keeps m.node r.node) (some-injective _ _ same)
      (Extends-Keeps (dispatch-Extends msg.kind msg m))

Step-Keeps : {m m' : Lak} → Step m m' → Keeps m.node m'.node
Step-Keeps (arrive text) = unfold receive in (refl, refl)
Step-Keeps {m} {m'} (handle fuel raw text n got done) =
    Keeps-trans m.node n m'.node (get_message-Keeps m.node n text got)
      (receive_message-Keeps fuel raw text (record m { node = n }) m' done)
Step-Keeps {m} (round quiet on) = Extends-Keeps (tick-Extends m)

-- A step of the token node, whatever the rest of its state, as one of the base class.
abbrev pub IsLakRound : Node → Node → Type 0
IsLakRound n n' = (m : Lak) × (m' : Lak) × (m.node ≡ n) × (m'.node ≡ n') × Step m m'

pub round-Keeps : (n n' : Node) → IsLakRound n n' → Keeps n n'
round-Keeps n n' (m, m', before, after, st) =
    subst (λ a. Keeps a n') before (subst (λ b. Keeps m.node b) after (Step-Keeps st))

-- `LAKNode::run`.
abbrev pub lak_program : Program
lak_program = record {
  IsRound = IsLakRound;
  IsOver = λ n. end_of_run ≤ n.timer;
  keeps_start = λ n n' r. (round-Keeps n n' r).0;
  keeps_end = λ n n' r. (round-Keeps n n' r).1;
}
