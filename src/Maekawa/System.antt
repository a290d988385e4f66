-- ===== src/Maekawa/System.antt =====
-- Several of Maekawa's nodes, and the network between them.
pub mod Weight
pub mod Effect
pub mod Formed
pub mod Handled
pub mod Answered
pub mod Rounds
pub mod Kept
pub mod KeptRounds
pub mod Dispatched
pub mod Passes
pub mod Safe
pub mod Booted
use aosproject.Prelude.{
  ℕ, zero, suc, ◌+◌, ◌-◌, ◌*◌, ◌/◌, ◌%◌, ◌^◌, ◌≤◌, ◌<◌, ◌≡◌, refl, sym, ap, ◌∙◌, subst, ◌≢◌, ◌↔◌,
  ◌⊎◌, inl, inr, Bool, true, false, ◌&&◌, ◌||◌, not, Option, none, some, List, [], ◌∷◌, ◌++◌, map,
  append-nil, append_assoc, arith, ltb, leb, ◌==◌, if◌then◌else◌, ==_iff, Bool-cases, Option-cases,
  ◌>>=◌, >>=-eq-some, length, get_elem?, set, take, drop, replicate, In, All, length-append,
  length-replicate, In-append_left, In-append_right, In-append_cases, All-append, All-In, ℤ, pos,
  negsuc, minus_one, ◌==ℤ◌, ltb_ℤ, suc_ℤ, pred_ℤ, to_unsigned, ℤ-discrete, ◌+ℤ◌, quotient, ==ℤ_iff,
  ==ℤ_refl, ltb_ℤ_irrefl, ltb_ℤ_trans, ltb_ℤ_connex,
}
use aosproject.Maekawa.Message.{
  Message, precedes, message_string, string_message, precedes_irrefl, precedes_trans, Same-fields,
}
use aosproject.Maekawa.State.{
  Mak, nobody, new, put, has_fail, signal, send_locked, send_failed, send_inquiry, send_relinquish,
  send_release, request_quorum, release_quorum, relinquish_all,
}
use aosproject.Maekawa.Handlers.{
  request_locked, request_free, release_next, serve_next, front, erase_front, erase_from,
  send_request, receive_request, access_cs, receive_locked, receive_inquiry, receive_failed,
  receive_relinquish, receive_release, finish_cs, dispatch, receive_message,
}
use aosproject.Maekawa.Loop.{count_down, tick, end_of_run}
use aosproject.OrderedSet.{insert}
use aosproject.Text.{Bytes}
use aosproject.Node.MessageType.{MessageType}
use aosproject.Node.State.{new as new_node, contains, receive, get_message, Node, Packet}
use aosproject.Node.Config
use aosproject.Node.Config.{Files}
use aosproject.Quorum.Write.{host}
use aosproject.Family.{update}

-- Each node with its state, and the packets that are on their way: in a switch, or in a socket.
pub record System : Type 0 where
  pub nodes : ℕ → Mak
  pub flying : List Packet

-- Node `j` has come to be `m`: what it has sent is on its way.
abbrev pub moved : System → ℕ → Mak → System
moved s j m = record {
  nodes = update s.nodes j m;
  flying = s.flying ++ drop (length (s.nodes j).sent) m.sent;
}

abbrev pub delivered : Packet → Mak → Mak
delivered p m = record m { node = receive p.text m.node }

-- A packet may be delivered, in any order, or lost; a node handles a message or makes a round.
pub data SystemStep (n : ℕ) (s : System) : System → Type 0 where
  deliver :
      (before after : List Packet) (p : Packet) (j : ℕ)
      → j < n
      → s.flying ≡ before ++ (p ∷ after)
      → p.to ≡ to_unsigned (s.nodes j).node_id
      → SystemStep n s
          (record { nodes = update s.nodes j (delivered p (s.nodes j)); flying = before ++ after })
  lose :
      (before after : List Packet) (p : Packet)
      → s.flying ≡ before ++ (p ∷ after)
      → SystemStep n s (record s { flying = before ++ after })
  handle :
      (j : ℕ) (raw : ℤ) (text : Bytes) (n' : Node) {m : Mak}
      → j < n
      → get_message (s.nodes j).node ≡ some (text, n')
      → receive_message raw text (record (s.nodes j) { node = n' }) ≡ some m
      → SystemStep n s (moved s j m)
  round :
      (j : ℕ) {m : Mak}
      → j < n
      → get_message (s.nodes j).node ≡ none
      → (s.nodes j).timer < end_of_run
      → tick (s.nodes j) ≡ some m
      → SystemStep n s (moved s j m)

pub data Reach (n : ℕ) (s : System) : System → Type 0 where
  start : Reach n s s
  later : {t u : System} → Reach n s t → SystemStep n t u → Reach n s u

-- What a receiver reads of a text, but for the field that only a REQUEST has.
abbrev pub read : Bytes → Message
read text = string_message (pos 0) text

-- Would the request be the first in the queue?
abbrev pub is_same : Message → Option Message → Bool
is_same msg none = false
is_same msg (some first) = (first.from ==ℤ msg.from) && (first.seq ==ℤ msg.seq)

abbrev pub comes_first : Message → Mak → Bool
comes_first msg m = is_same msg (front (insert precedes msg m.waiting_queue))

-- Which messages are orderly for a node: requests of others that it is free for or that do not come
-- first, and answers of members of its quorum, LOCK to a request of its own.
abbrev pub IsOrderly : MessageType → Message → Mak → Type 0
IsOrderly MessageType.request msg m =
    (msg.from ≢ m.node_id) × ((m.is_locked ≡ false) ⊎ (comes_first msg m ≡ false))
IsOrderly MessageType.lock msg m =
    (msg.from ≢ m.node_id) × In msg.from m.quorum_set × (m.locked_for.1 ≡ m.node_id)
IsOrderly MessageType.fail msg m = (msg.from ≢ m.node_id) × In msg.from m.quorum_set
IsOrderly _ msg m = Unit {0}

-- Where a round comes to a time of its schedule, the node is free.
abbrev pub IsFreeWhenDue : Mak → Type 0
IsFreeWhenDue m =
    (m' : Mak)
    → count_down (record m { node = record (m.node) { timer = m.timer + 1 } }) ≡ some m'
    → contains m'.time_schedule m'.timer ≡ true
    → m'.is_locked ≡ false

abbrev pub StepIsOrderly : {n : ℕ} {s t : System} → SystemStep n s t → Type 0
StepIsOrderly (deliver before after p j l e i) = Unit {0}
StepIsOrderly (lose before after p e) = Unit {0}
StepIsOrderly {s = s} (handle j raw text n' l got done) =
    IsOrderly (string_message raw text).kind (string_message raw text)
      (record (s.nodes j) { node = n' })
StepIsOrderly {s = s} (round j l quiet on done) = IsFreeWhenDue (s.nodes j)

abbrev pub RunIsOrderly : {n : ℕ} {s t : System} → Reach n s t → Type 0
RunIsOrderly start = Unit {0}
RunIsOrderly (later r st) = RunIsOrderly r × StepIsOrderly st

-- Nodes 1 to `n` on their hosts, as the constructor and `init` leave them, with nothing on its way.
abbrev pub booted : Files → ℤ → Mak
booted files id = record (new id) { node = Config.init files (new_node id) }

abbrev pub IsBooted : Files → ℕ → System → Type 0
IsBooted files n s =
    (s.flying ≡ []) × ((j : ℕ) → j < n → s.nodes j ≡ booted files (pos (host (suc j))))
