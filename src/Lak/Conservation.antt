-- ===== src/Lak/Conservation.antt =====
-- The token: a node neither makes one nor loses one, and enters its critical section only with it.
use aosproject.Prelude.{
  ℕ, ◌+◌, ◌-◌, ◌≡◌, ◌⊎◌, inl, inr, refl, ap, ◌∙◌, true, false, ◌&&◌, List, [], ◌∷◌, arith, ◌==◌,
  Bool-cases, ℤ, ◌==ℤ◌, suc_ℤ,
}
use aosproject.OrderedSet.{insert}
use aosproject.Node.MessageType.{MessageType}
use aosproject.Node.State.{contains, send_finish_cs_msg, send_request_cs_msg}
use aosproject.Lak.Message.{Entry, Message, precedes}
use aosproject.Lak.State.{Lak, send_token}
use aosproject.Lak.Handlers.{
  access_cs, send_request, pass_token, answer_request, receive_request, receive_ack, keep_token,
  take_token, receive_token, receive_receive, receive_release, answer_relay, receive_relay,
  pass_to_first, finish_cs, dispatch,
}
use aosproject.Lak.Loop.{count_down, request_scheduled, tick}
use aosproject.Lak.Tokens.{
  tokens, tokens-same, bit, is_token, tokens-control_access, tokens-control_finish,
  tokens-control_request, tokens-send_ack, tokens-send_release, tokens-send_receive_each,
  tokens-send_relay, tokens-request_quorum, tokens-send_token,
}

-- The tokens that a node has, and has given away.
abbrev pub total : Lak → ℕ
total m = tokens m.node + bit m.has_token

-- Only a node that has the token is in its critical section.
abbrev pub IsGuarded : Lak → Type 0
IsGuarded m = (m.is_in_cs ≡ false) ⊎ (m.has_token ≡ true)

pass_token_total :
    (to : ℤ) (m : Lak)
    → (tokens (pass_token to m).node ≡ tokens m.node + 1)
      × ((pass_token to m).has_token ≡ false)
      × ((pass_token to m).is_in_cs ≡ m.is_in_cs)
unfolding pass_token
pass_token_total to m = (
  tokens-send_release (send_token to m).node ∙ tokens-send_token to m,
  unfold send_token in refl,
  unfold send_token in refl,
)

abbrev Keeps : Lak → Lak → Type 0
Keeps m m' = (total m' ≡ total m) × (IsGuarded m → IsGuarded m')

answer_request-Keeps : (msg : Entry) (m : Lak) → Keeps m (answer_request msg m)
unfolding answer_request
answer_request-Keeps msg m = ground (
  arith,
  pass_token_total msg.from (record m { token_list = insert precedes msg m.token_list }),
  tokens-send_ack msg.from m.node,
  tokens-send_relay m.token_holder msg.from msg.seq m.node,
)

receive_request-Keeps : (msg : Entry) (m : Lak) → Keeps m (receive_request msg m)
unfolding receive_request
receive_request-Keeps msg m = ground (
  arith,
  answer_request-Keeps (record msg { seq = suc_ℤ msg.seq }) (record m { seq = suc_ℤ msg.seq }),
  answer_request-Keeps msg m,
)

answer_relay-Keeps : (msg : Entry) (m : Lak) → m.has_token ≡ true → Keeps m (answer_relay msg m)
unfolding answer_relay
answer_relay-Keeps msg m h = ground (arith, pass_token_total msg.relay m)

receive_relay-Keeps : (msg : Entry) (m : Lak) → m.has_token ≡ true → Keeps m (receive_relay msg m)
unfolding receive_relay
receive_relay-Keeps msg m h =
    ground
      (arith, answer_relay-Keeps msg (record m { seq = msg.seq }) h, answer_relay-Keeps msg m h)

keep_token_total :
    (m : Lak)
    → (tokens (keep_token m).node ≡ tokens m.node)
      × ((keep_token m).has_token ≡ true)
      × ((keep_token m).is_in_cs ≡ m.is_in_cs)
unfolding keep_token
keep_token_total m = (tokens-send_receive_each m.quorum_set m.node, refl, refl)

access_cs_total :
    (m : Lak)
    → (tokens (access_cs m).node ≡ tokens m.node) × ((access_cs m).has_token ≡ m.has_token)
unfolding access_cs
access_cs_total m =
    let n = record (m.node) { cs_timer = m.cs_time } in
    (tokens-control_access n ∙ tokens-same m.node n refl, refl)

send_token_total :
    (to : ℤ) (m : Lak)
    → (tokens (send_token to m).node ≡ tokens m.node + 1)
      × ((send_token to m).has_token ≡ false)
      × ((send_token to m).is_in_cs ≡ m.is_in_cs)
send_token_total to m =
    (tokens-send_token to m, unfold send_token in refl, unfold send_token in refl)

take_token-total :
    (es : List Entry) (from : ℤ) (m : Lak)
    → m.has_token ≡ false
    → (total (take_token es from m) ≡ total m + 1)
      × (IsGuarded m → IsGuarded (take_token es from m))
unfolding take_token
take_token-total [] from m h = ground (arith, keep_token_total m)
take_token-total (first ∷ rest) from m h = elim (Bool-cases (first.from ==ℤ m.node_id)) [
  | inl own ↦ rw own (ground (arith, keep_token_total m, access_cs_total (keep_token m)))
  | inr other ↦ rw other (ground (arith, send_token_total from m))
]

receive_ack-Keeps : (msg : Entry) (m : Lak) → Keeps m (receive_ack msg m)
unfolding receive_ack
receive_ack-Keeps msg m = ground arith

receive_release-Keeps : (msg : Entry) (m : Lak) → Keeps m (receive_release msg m)
unfolding receive_release
receive_release-Keeps msg m = ground arith

receive_receive-Keeps : (msg : Entry) (m : Lak) → Keeps m (receive_receive msg m)
unfolding receive_receive
receive_receive-Keeps msg m = ground arith

-- What a node may count on: no TOKEN comes while it has the token, and RELAY only while it has.
abbrev pub Expected : MessageType → Lak → Type 0
Expected MessageType.token m = m.has_token ≡ false
Expected MessageType.relay m = m.has_token ≡ true
Expected _ m = Unit {0}

abbrev pub Counted : MessageType → Lak → Lak → Type 0
Counted k m m' = (total m' ≡ total m + bit (is_token k)) × (IsGuarded m → IsGuarded m')

counted : (m m' : Lak) → Keeps m m' → (total m' ≡ total m + 0) × (IsGuarded m → IsGuarded m')
counted m m' k = (omega (arith, k.0), k.1)

pub dispatch-Counted :
    (k : MessageType) (msg : Message) (m : Lak) → Expected k m → Counted k m (dispatch k msg m)
unfolding dispatch receive_token
dispatch-Counted MessageType.request msg m h =
    counted m (receive_request msg.head m) (receive_request-Keeps msg.head m)
dispatch-Counted MessageType.release msg m h =
    counted m (receive_release msg.head m) (receive_release-Keeps msg.head m)
dispatch-Counted MessageType.receive msg m h =
    counted m (receive_receive msg.head m) (receive_receive-Keeps msg.head m)
dispatch-Counted MessageType.ack msg m h =
    counted m (receive_ack msg.head m) (receive_ack-Keeps msg.head m)
dispatch-Counted MessageType.relay msg m h =
    counted m (receive_relay msg.head m) (receive_relay-Keeps msg.head m h)
dispatch-Counted MessageType.token msg m h = take_token-total msg.req_list msg.from m h
dispatch-Counted _ msg m h = counted m m (refl, λ g. g)

send_request-Keeps : (m : Lak) → Keeps m (send_request m)
unfolding send_request
send_request-Keeps m =
    ground (arith, access_cs_total m, tokens-request_quorum m.token_holder m.seq m.node)

total-pass_to_first :
    (es : List Entry) (m : Lak) → m.has_token ≡ true → total (pass_to_first es m) ≡ total m
unfolding pass_to_first
total-pass_to_first [] m h = refl
total-pass_to_first (first ∷ rest) m h = ground (arith, pass_token_total first.from m)

finish_cs-Keeps : (m : Lak) → m.has_token ≡ true → Keeps m (finish_cs m)
unfolding finish_cs
finish_cs-Keeps m h = ground (
  arith,
  total-pass_to_first m.token_list (record m { node = send_finish_cs_msg m.node }) h,
  tokens-control_finish m.node,
)

-- What a round does: it keeps the token, if the node is guarded.
abbrev pub KeepsGuarded : Lak → Lak → Type 0
KeepsGuarded m m' = IsGuarded m → (total m' ≡ total m) × IsGuarded m'

count_down-Keeps : (m : Lak) → KeepsGuarded m (count_down m)
unfolding count_down
count_down-Keeps m g = elim (Bool-cases ((m.cs_timer == 0) && m.is_in_cs)) [
  | inl over ↦ rw over (let k = finish_cs-Keeps m (ground arith) in (k.0, k.1 g))
  | inr on ↦ rw on (
    ap (λ t. t + bit m.has_token)
        (tokens-same m.node (record (m.node) { cs_timer = m.cs_timer - 1 }) refl),
    g,
  )
]

request_scheduled-Keeps : (m : Lak) → KeepsGuarded m (request_scheduled m)
unfolding request_scheduled
request_scheduled-Keeps m g = elim (Bool-cases (contains m.time_schedule m.timer)) [
  | inl due ↦
      let counted_node = record (m.node) { num_req = m.num_req + 1 } in
      let k = send_request-Keeps (record m { node = send_request_cs_msg counted_node }) in
      rw due (
        k.0
            ∙ ap (λ t. t + bit m.has_token)
                (tokens-control_request counted_node ∙ tokens-same m.node counted_node refl),
        k.1 g,
      )
  | inr idle ↦ rw idle (refl, g)
]

pub tick-Keeps : (m : Lak) → KeepsGuarded m (tick m)
unfolding tick
tick-Keeps m g =
    let start = record m { node = record (m.node) { timer = m.timer + 1 } } in
    let (t, h) = count_down-Keeps start g in
    let (u, i) = request_scheduled-Keeps (count_down start) h in
    (u ∙ t ∙ ap (λ k. k + bit m.has_token) (tokens-same m.node start.node refl), i)
