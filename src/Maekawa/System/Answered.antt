-- ===== src/Maekawa/System/Answered.antt =====
-- What an answer, LOCK or FAIL, does to the grants of one node's lock.
use aosproject.Prelude.{
  ◌+◌, ◌≤◌, ◌≡◌, refl, sym, ap, ◌∙◌, subst, ◌≢◌, ◌⊎◌, inl, inr, true, false, arith, Bool-cases, In,
  ℤ, ◌==ℤ◌, ==ℤ_iff,
}
use aosproject.Maekawa.Message.{Message}
use aosproject.Maekawa.State.{Mak, put}
use aosproject.Maekawa.Handlers.{access_cs, receive_locked, receive_failed}
use aosproject.Node.MessageType.{MessageType}
use aosproject.Node.State.{send_access_cs_msg, Node}
use aosproject.Maekawa.Sends.{others}
use aosproject.Maekawa.Invariant.Responses.{response}
use aosproject.Maekawa.CriticalSection.{receive_locked_needs_quorum}
use aosproject.Maekawa.System.Weight.{bit, count_to}
use aosproject.Maekawa.System.Effect.{
  Sends-nothing, Sends-trans, relinquish_all-Sends, send_access_cs_msg-Sends, granted, client_claim,
  Effect, Effect-trans,
}
use aosproject.Maekawa.System.Formed.{
  IsHost, Formed, host-address, count_to-one, granted-put, granted-response, put-answers,
}
use aosproject.Maekawa.System.Handled.{node-Effect}

module _ (a : ℤ) (ha : IsHost a) where
  answer_claims :
      (msg : Message) (m : Mak)
      → msg.kind ≡ MessageType.lock
      → bit (granted a (put msg.from msg.kind m.response_map))
        ≤ bit (granted a m.response_map) + bit (msg.from ==ℤ a)
  answer_claims msg m k = ground (
    arith,
    granted-put a msg.from msg.kind m.response_map,
    k,
    ==ℤ_iff a msg.from,
    ==ℤ_iff msg.from a,
  )

  abbrev answered : Message → Mak → Mak
  answered msg m = record m { response_map = put msg.from msg.kind m.response_map }

  -- The answer changes the map, and no more.
  answered-Effect :
      (msg : Message) (m : Mak)
      → msg.kind ≡ MessageType.lock
      → Effect a (bit (msg.from ==ℤ a)) 0 m (answered msg m)
  unfolding client_claim
  answered-Effect msg m k = record {
    weight = 0;
    sends = Sends-nothing a m.node m.node refl refl refl refl;
    as_client = λ d. ground (arith, answer_claims msg m k);
    as_arbiter = λ e rest few. omega (arith, few);
  }

  entered_claim :
      (m : Mak) (n : Node)
      → m.is_in_cs ≡ false
      → count_to a (others m.node_id m.quorum_set) ≤ bit (granted a m.response_map)
      → n.node_id ≡ m.node_id
      → n.quorum_set ≡ m.quorum_set
      → client_claim a (record m { node = n; is_in_cs = true }) ≤ client_claim a m
  unfolding client_claim
  entered_claim m n outside enough i q = rw (outside, i, q) enough

  -- The node enters, and its quorum has answered.
  access_cs-Effect :
      (m : Mak)
      → count_to a (others m.node_id m.quorum_set) ≤ bit (granted a m.response_map)
      → Effect a 0 0 m (access_cs m)
  unfolding access_cs
  access_cs-Effect m enough = elim (Bool-cases m.is_in_cs) [
    | inl inside ↦
        let same : access_cs m ≡ m = rw inside refl in
        subst (Effect a 0 0 m) (sym same)
          (node-Effect m m.node (Sends-nothing a m.node m.node refl refl refl refl))
    | inr outside ↦
        let n = record (m.node) { cs_timer = m.cs_time } in
        let entered : access_cs m ≡ record m { node = send_access_cs_msg n; is_in_cs = true } =
          rw outside refl in
        let s =
          Sends-trans a (Sends-nothing a m.node n refl refl refl refl)
            (send_access_cs_msg-Sends a (host-address a ha) n) in
        subst (Effect a 0 0 m) (sym entered) (record {
          weight = 0;
          sends = s;
          as_client = λ d. omega (
            arith,
            entered_claim m (send_access_cs_msg n) outside enough s.same_id s.same_quorum,
          );
          as_arbiter = λ e rest few. omega (arith, few);
        })
  ]

  pub receive_failed-Effect :
      (msg : Message) (m : Mak)
      → Formed m
      → msg.kind ≡ MessageType.fail
      → Effect a 0 0 m (receive_failed msg m)
  unfolding receive_failed client_claim
  receive_failed-Effect msg m f k =
      let s = relinquish_all-Sends a m.inquiry_list m.node f.quiet in
      record {
        weight = 0;
        sends = s;
        as_client = λ d.
            rw (s.same_id, s.same_quorum)
              (ground (arith, granted-put a msg.from msg.kind m.response_map, k));
        as_arbiter = λ e rest few. omega (arith, few);
      }

  -- The handler of LOCK only enters from the node with the answer.
  receive_locked-cases :
      (msg : Message) (m : Mak)
      → (receive_locked msg m ≡ answered msg m)
        ⊎ ((receive_locked msg m ≡ access_cs (answered msg m)))
  unfolding receive_locked
  receive_locked-cases msg m = ground arith

  quorum_granted :
      (msg : Message) (m : Mak)
      → Formed m
      → msg.kind ≡ MessageType.lock
      → In msg.from m.quorum_set
      → msg.from ≢ m.node_id
      → m.is_in_cs ≡ false
      → receive_locked msg m ≡ access_cs (answered msg m)
      → count_to a (others m.node_id m.quorum_set) ≤ bit (granted a (answered msg m).response_map)
  unfolding access_cs
  quorum_granted msg m f k sender foreign outside e =
      elim (count_to-one a m.node_id m.quorum_set ha f.hosts f.ascending) [
        | inl none_there ↦ omega (arith, none_there)
        | inr (one, member, other) ↦
            let inside : (receive_locked msg m).is_in_cs ≡ true =
              ap (λ (n : Mak). n.is_in_cs) e ∙ rw outside refl in
            let map : (receive_locked msg m).response_map ≡ put msg.from msg.kind m.response_map =
              ap (λ (n : Mak). n.response_map) e ∙ rw outside refl in
            let (v, r, no_fail) =
              receive_locked_needs_quorum msg m f.inv f.own sender (λ s. foreign (sym s)) f.answered
                f.foreign outside inside a member other in
            let has : granted a (put msg.from msg.kind m.response_map) ≡ true =
              granted-response a v (put msg.from msg.kind m.response_map)
                (put-answers msg.from msg.kind m.response_map (inl k) f.answers)
                (ap (response a) (sym map) ∙ r) no_fail in
            omega (arith, one, ap bit has)
      ]

  inside-enough : (m : Mak) → m.is_in_cs ≡ true → Effect a 0 0 m (access_cs m)
  unfolding access_cs
  inside-enough m inside =
      let same : access_cs m ≡ m = rw inside refl in
      subst (Effect a 0 0 m) (sym same)
        (node-Effect m m.node (Sends-nothing a m.node m.node refl refl refl refl))

  pub receive_locked-Effect :
      (msg : Message) (m : Mak)
      → Formed m
      → msg.kind ≡ MessageType.lock
      → In msg.from m.quorum_set
      → msg.from ≢ m.node_id
      → Effect a (bit (msg.from ==ℤ a)) 0 m (receive_locked msg m)
  receive_locked-Effect msg m f k sender foreign =
      let got = answered-Effect msg m k in
      elim (receive_locked-cases msg m) [
        | inl waits ↦ subst (Effect a _ 0 m) (sym waits) got
        | inr enters ↦ subst (Effect a _ 0 m) (sym enters) (elim (Bool-cases m.is_in_cs) [
          | inl inside ↦ Effect-trans got (inside-enough (answered msg m) inside)
          | inr outside ↦ Effect-trans got (
              access_cs-Effect (answered msg m)
                (quorum_granted msg m f k sender foreign outside enters))
        ])
      ]
