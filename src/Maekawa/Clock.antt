-- ===== src/Maekawa/Clock.antt =====
-- How long a node stays in its critical section.
use aosproject.Prelude.{
  ◌+◌, ◌≡◌, refl, ap, subst, ◌⊎◌, inl, inr, true, false, some, arith, ◌==◌, ==_iff, Bool-cases,
  >>=-eq-some,
}
use aosproject.Text.{Bytes}
use aosproject.Node.MessageType.{MessageType}
use aosproject.Node.State.{receive, get_message, network_send, Node, send}
use aosproject.Maekawa.Message.{Message, string_message}
use aosproject.Maekawa.State.{Mak, signal, send_locked, send_failed, send_inquiry}
use aosproject.Maekawa.Handlers.{
  request_locked, request_free, release_next, send_request, receive_request, access_cs,
  receive_locked, receive_inquiry, receive_failed, receive_relinquish, receive_release, finish_cs,
  dispatch, receive_message,
}
use aosproject.Maekawa.Loop.{count_down, request_scheduled, tick, Step, arrive, handle, round}
use mathlib.Core.Option.{some-injective}
use aosproject.Maekawa.Sends.{request_quorum-sent, relinquish_all-sent}
use aosproject.Maekawa.Release.{finish_cs_clock}

-- Still in the critical section, at the same time, with the same time to go.
record Stays (m m' : Mak) : Type 0 where
  inside : m'.is_in_cs ≡ true
  same_time : m'.timer ≡ m.timer
  same_rest : m'.cs_timer ≡ m.cs_timer

Stays-done : {m m' m'' : Mak} → Stays m m' → some m' ≡ some m'' → Stays m m''
Stays-done {m} s e = subst (Stays m) (some-injective _ _ e) s

request-Stays :
    (msg : Message) (m m' : Mak) → m.is_in_cs ≡ true → receive_request msg m ≡ some m' → Stays m m'
unfolding receive_request request_locked request_free send_locked send_inquiry send_failed signal
    send network_send
request-Stays msg m m' h e = ground arith

release-Stays : (msg : Message) (m : Mak) → m.is_in_cs ≡ true → Stays m (receive_release msg m)
unfolding receive_release release_next send_locked signal send network_send
release-Stays msg m h = ground arith

locked-Stays : (msg : Message) (m : Mak) → m.is_in_cs ≡ true → Stays m (receive_locked msg m)
unfolding receive_locked access_cs
locked-Stays msg m h = ground arith

failed-Stays : (msg : Message) (m : Mak) → m.is_in_cs ≡ true → Stays m (receive_failed msg m)
unfolding receive_failed
failed-Stays msg m h = record {
  inside = h;
  same_time = ap (λ (n : Node). n.timer) (relinquish_all-sent m.inquiry_list m.node);
  same_rest = ap (λ (n : Node). n.cs_timer) (relinquish_all-sent m.inquiry_list m.node);
}

inquiry-Stays : (msg : Message) (m : Mak) → m.is_in_cs ≡ true → Stays m (receive_inquiry msg m)
unfolding receive_inquiry
inquiry-Stays msg m h = ground arith

relinquish-Stays :
    (msg : Message) (m m' : Mak)
    → m.is_in_cs ≡ true
    → receive_relinquish msg m ≡ some m'
    → Stays m m'
unfolding receive_relinquish send_locked signal send network_send
relinquish-Stays msg m m' h e = ground arith

dispatch-Stays :
    (k : MessageType) (msg : Message) (m m' : Mak)
    → m.is_in_cs ≡ true
    → dispatch k msg m ≡ some m'
    → Stays m m'
unfolding dispatch
dispatch-Stays MessageType.request msg m m' h e = request-Stays msg m m' h e
dispatch-Stays MessageType.release msg m m' h e = Stays-done (release-Stays msg m h) e
dispatch-Stays MessageType.lock msg m m' h e = Stays-done (locked-Stays msg m h) e
dispatch-Stays MessageType.fail msg m m' h e = Stays-done (failed-Stays msg m h) e
dispatch-Stays MessageType.inquire msg m m' h e = Stays-done (inquiry-Stays msg m h) e
dispatch-Stays MessageType.relinquish msg m m' h e = relinquish-Stays msg m m' h e
dispatch-Stays _ msg m m' h e =
    Stays-done (record { inside = h; same_time = refl; same_rest = refl }) e

scheduled_clock :
    (m : Mak)
    → ((request_scheduled m).is_in_cs ≡ m.is_in_cs)
      × ((request_scheduled m).timer ≡ m.timer)
      × ((request_scheduled m).cs_timer ≡ m.cs_timer)
unfolding request_scheduled send_request
scheduled_clock m = ground (
  arith,
  request_quorum-sent (record { kind = MessageType.request; from = m.node_id; seq = m.seq })
      m.quorum_set (record (m.node) { num_req = m.num_req + 1 }),
)

get_message_clock :
    (n n' : Node) (text : Bytes)
    → get_message n ≡ some (text, n')
    → (n'.timer ≡ n.timer) × (n'.cs_timer ≡ n.cs_timer)
unfolding get_message
get_message_clock n n' text e = ground arith

-- What a round does to the clock of a node in its critical section.
abbrev Clock : Mak → Mak → Type 0
Clock m m' =
    ((m'.is_in_cs ≡ true) × (m'.timer + m'.cs_timer ≡ m.timer + m.cs_timer))
    ⊎ ((m'.is_in_cs ≡ false) × (m.cs_timer ≡ 0) × (m'.timer ≡ m.timer + 1))

started : Mak → Mak
started m = record m { node = record (m.node) { timer = m.timer + 1 } }

count_down-Clock :
    (m m'' : Mak) → m.is_in_cs ≡ true → count_down (started m) ≡ some m'' → Clock m m''
unfolding count_down started finish_cs
count_down-Clock m m'' h e = elim (Bool-cases (m.cs_timer == 0)) [
  | inl over ↦ inr (
      let (out, same, _) = finish_cs_clock (started m) m'' (rw (over, h) at e) in
      (out, (==_iff m.cs_timer 0).0 over, same))
  | inr more ↦ ground arith
]

round-Clock : (m m' : Mak) → m.is_in_cs ≡ true → tick m ≡ some m' → Clock m m'
unfolding tick started
round-Clock m m' h e =
    let (m'', counted, rest) =
      >>=-eq-some (count_down (started m)) (λ n. some (request_scheduled n)) e in
    let done = some-injective _ _ rest in
    subst (Clock m) done (ground (arith, count_down-Clock m m'' h counted, scheduled_clock m''))

-- While a node is in its critical section, `timer + CS_timer` does not change, whatever messages
-- arrive and are handled. It leaves only in a round that finds `CS_timer` at 0, and stays in every
-- other step.
pub Step_in_cs :
    {m m' : Mak}
    → Step m m'
    → m.is_in_cs ≡ true
    → ((m'.is_in_cs ≡ true) × (m'.timer + m'.cs_timer ≡ m.timer + m.cs_timer))
      ⊎ ((m'.is_in_cs ≡ false) × (m.cs_timer ≡ 0) × (m'.timer ≡ m.timer + 1))
Step_in_cs (arrive text) h = inl (h, unfold receive in refl)
Step_in_cs {m} (handle raw text n {m' = m'} got e) h =
    let same = get_message_clock m.node n text got in
    let s =
      dispatch-Stays (string_message raw text).kind (string_message raw text)
        (record m { node = n }) m' h (unfold receive_message in e) in
    inl (s.inside, omega (arith, s.same_time, s.same_rest, same))
Step_in_cs {m} (round {m' = m'} quiet on e) h = round-Clock m m' h e
