-- ===== src/Maekawa/System/Safe.antt =====
-- No step of the system grants a lock twice.
use aosproject.Prelude.{
  ℕ, ◌+◌, ◌-◌, ◌≤◌, ◌<◌, ◌≡◌, refl, sym, ap, ◌∙◌, subst, ◌≢◌, inl, inr, true, ◌&&◌, some, List, [],
  ◌∷◌, ◌++◌, arith, ◌==◌, Bool-cases, length, drop, All-In, ℤ, ◌==ℤ◌, ==ℤ_iff,
}
use aosproject.Maekawa.Message.{string_message}
use aosproject.Maekawa.State.{Mak, new}
use aosproject.Maekawa.Handlers.{receive_message}
use aosproject.Node.State.{receive, get_message, Node, Packet}
use aosproject.Maekawa.Sends.{others}
use aosproject.Maekawa.System.{
  System, moved, delivered, SystemStep, deliver, lose, handle, round, Reach, start, later,
  StepIsOrderly, RunIsOrderly, IsOrderly,
}
use aosproject.Maekawa.System.Weight.{
  banned, bit_le, packet_weight, packets_weight, packets_weight-append, bit, is_release,
}
use aosproject.Node.MessageType.{MessageType}
use aosproject.Maekawa.System.Effect.{arbiter_claim}
use aosproject.Maekawa.System.Formed.{IsHost, Formed, node-Formed}
use aosproject.Text.{Bytes}
use aosproject.Family.{update, update-each, sum, sum-update, sum-one}
use aosproject.Maekawa.System.Dispatched.{dispatch-Effect}
use aosproject.Maekawa.System.Kept.{dispatch-Formed}
use aosproject.Maekawa.System.KeptRounds.{tick-Formed}
use aosproject.Maekawa.System.Rounds.{tick-Effect}
use aosproject.Maekawa.System.Passes.{
  held, Passes, arbiter-held, text_weight-message, popped, handle-Passes, round-Passes,
  delivered-Passes,
}

-- For the lock of every node there is one grant at most, held or on its way, and none if it is free.
pub record Safe (n : ℕ) (ids : ℕ → ℤ) (quorums : ℕ → List ℤ) (s : System) : Type 0 where
  pub formed : (j : ℕ) → j < n → Formed (s.nodes j)
  pub named : (j : ℕ) → j < n → ((s.nodes j).node_id ≡ ids j) × ((s.nodes j).quorum_set ≡ quorums j)
  pub few :
      (q : ℕ)
      → q < n
      → sum (held (ids q)) n s.nodes + packets_weight (ids q) s.flying ≤ bit (s.nodes q).is_locked

drop-append : (a b : List Packet) → drop (length a) (a ++ b) ≡ b
drop-append [] b = refl
drop-append (p ∷ a) b = drop-append a b

packets_weight-split :
    (a : ℤ) (before after : List Packet) (p : Packet)
    → packets_weight a (before ++ (p ∷ after))
      ≡ packets_weight a (before ++ after) + packet_weight a p
unfolding packets_weight
packets_weight-split a before after p =
    omega (arith, packets_weight-append a before (p ∷ after), packets_weight-append a before after)

banned_light : (k : MessageType) → banned k ≤ 1 → banned k ≡ 0
banned_light MessageType.inquire h = absurd (omega (arith, h))
banned_light MessageType.relinquish h = absurd (omega (arith, h))
banned_light _ h = refl

module _ (n : ℕ) (ids : ℕ → ℤ) (quorums : ℕ → List ℤ)
    (distinct : (i j : ℕ) → i < n → j < n → ids i ≡ ids j → i ≡ j) where
  -- A node takes something from the network, and gives something to it.
  abbrev Trade : System → ℕ → Mak → List Packet → Type 0
  Trade s j m flying =
      (a : ℤ)
      → IsHost a
      → (taken : ℕ) × (given : ℕ) × (others : ℕ) × Passes a taken given (s.nodes j) m
        × (packets_weight a s.flying ≡ others + taken)
        × (packets_weight a flying ≡ others + given)

  host_of : (s : System) → Safe n ids quorums s → (q : ℕ) → q < n → IsHost (ids q)
  host_of s safe q l =
      let f = safe.formed q l in
      subst IsHost (safe.named q l).0
        (All-In IsHost (s.nodes q).node_id (s.nodes q).quorum_set f.hosts f.own)

  traded-few :
      (s : System) (j : ℕ) (m : Mak) (flying : List Packet)
      → j < n
      → Safe n ids quorums s
      → Trade s j m flying
      → (q : ℕ) → q < n
      → sum (held (ids q)) n (update s.nodes j m) + packets_weight (ids q) flying
        ≤ bit (update s.nodes j m q).is_locked
  traded-few s j m flying l safe trade q lq =
      let a = ids q in
      let (taken, given, others, pass, before, after) = trade a (host_of s safe q lq) in
      let moves = sum-update (held a) n s.nodes j m l in
      let part = sum-one (held a) n s.nodes j l in
      let few = safe.few q lq in
      elim (Bool-cases (j == q)) [
        | inl same ↦
            let e : j ≡ q = ground (arith, same) in
            let id : (s.nodes j).node_id ≡ a = (safe.named j l).0 ∙ ap ids e in
            let few' : sum (held a) n s.nodes + packets_weight a s.flying
                ≤ bit (s.nodes j).is_locked =
              rw e few in
            let rest = sum (held a) n s.nodes - held a (s.nodes j) + others in
            rw same (
              omega (
                arith,
                moves,
                part,
                before,
                after,
                pass.as_arbiter id rest (omega (arith, few', part, before)),
              ))
        | inr other ↦
            let d : (s.nodes j).node_id ≢ a =
              λ e. absurd (ground (arith, other, distinct j q l lq (sym (safe.named j l).0 ∙ e))) in
            rw other (omega (arith, moves, part, before, after, few, pass.as_client d))
      ]

  traded-Safe :
      (s : System) (j : ℕ) (m : Mak) (flying : List Packet)
      → j < n
      → Safe n ids quorums s
      → Formed m
      → (m.node_id ≡ (s.nodes j).node_id) × (m.quorum_set ≡ (s.nodes j).quorum_set)
      → Trade s j m flying
      → Safe n ids quorums (record { nodes = update s.nodes j m; flying = flying })
  traded-Safe s j m flying l safe f (i, k) trade = record {
    formed = update-each Formed n s.nodes j m f safe.formed;
    named = λ x lx. elim (Bool-cases (j == x)) [
      | inl same ↦
          let e : j ≡ x = ground (arith, same) in
          rw same (i ∙ (safe.named j l).0 ∙ ap ids e, k ∙ (safe.named j l).1 ∙ ap quorums e)
      | inr other ↦ rw other (safe.named x lx)
    ];
    few = traded-few s j m flying l safe trade;
  }

  -- What a node has sent is on its way.
  abbrev Given : Mak → Mak → Type 0
  Given m0 m =
      (a : ℤ)
      → IsHost a
      → (w : ℕ) × (new : List Packet) × (m.sent ≡ m0.sent ++ new)
        × (packets_weight a new ≡ w)
        × Passes a 0 w m0 m

  moved-Safe :
      (s : System) (j : ℕ) (m : Mak)
      → j < n
      → Safe n ids quorums s
      → Formed m
      → (m.node_id ≡ (s.nodes j).node_id) × (m.quorum_set ≡ (s.nodes j).quorum_set)
      → Given (s.nodes j) m
      → Safe n ids quorums (moved s j m)
  moved-Safe s j m l safe f same given =
      let sent = (s.nodes j).sent in
      traded-Safe s j m (s.flying ++ drop (length sent) m.sent) l safe f same (λ a ha.
        let (w, new, sends, weighs, p) = given a ha in
        let on_its_way : drop (length sent) m.sent ≡ new =
          ap (drop (length sent)) sends ∙ drop-append sent new in
        (
          0,
          w,
          packets_weight a s.flying,
          p,
          omega arith,
          omega (
            arith,
            packets_weight-append a s.flying (drop (length sent) m.sent),
            ap (packets_weight a) on_its_way,
            weighs,
          ),
        ))

  -- The lock of a node in its critical section, with a release that it is to handle.
  own_lock :
      (s : System) (j : ℕ) (raw : ℤ) (text : Bytes) (n' : Node)
      → j < n
      → Safe n ids quorums s
      → get_message (s.nodes j).node ≡ some (text, n')
      → let m = record (s.nodes j) { node = n' } in
        arbiter_claim m.node_id m + bit (is_release (string_message raw text).kind)
        ≤ bit m.is_locked
  own_lock s j raw text n' l safe got =
      let a = ids j in
      let m1 : Mak = record (s.nodes j) { node = n' } in
      let (more, i, k, sent) = popped a (s.nodes j) text n' got in
      let e : n'.node_id ≡ a = i ∙ (safe.named j l).0 in
      let claims = ap (λ z. arbiter_claim z m1) e in
      let weighs = text_weight-message a (s.nodes j).node_id raw text in
      let mine : ((s.nodes j).node_id ==ℤ a) ≡ true =
        ground (arith, ==ℤ_iff (s.nodes j).node_id a, (safe.named j l).0) in
      omega (
        arith,
        safe.few j l,
        sum-one (held a) n s.nodes j l,
        more,
        claims,
        arbiter-held a m1 e,
        weighs,
        ap (λ b. bit (b && is_release (string_message raw text).kind)) mine,
      )

  -- A message that is banned is in no queue.
  none_banned :
      (s : System) (j : ℕ) (raw : ℤ) (text : Bytes) (n' : Node)
      → j < n
      → Safe n ids quorums s
      → get_message (s.nodes j).node ≡ some (text, n')
      → banned (string_message raw text).kind ≡ 0
  none_banned s j raw text n' l safe got =
      let a = ids j in
      let (more, i, k, sent) = popped a (s.nodes j) text n' got in
      let weighs = text_weight-message a (s.nodes j).node_id raw text in
      let light : banned (string_message raw text).kind ≤ 1 = omega (
        arith,
        safe.few j l,
        sum-one (held a) n s.nodes j l,
        more,
        weighs,
        bit_le (s.nodes j).is_locked,
      ) in
      banned_light (string_message raw text).kind light

  handle-Safe :
      (s : System) (j : ℕ) (raw : ℤ) (text : Bytes) (n' : Node) (m : Mak)
      → j < n
      → get_message (s.nodes j).node ≡ some (text, n')
      → receive_message raw text (record (s.nodes j) { node = n' }) ≡ some m
      → IsOrderly
          (string_message raw text).kind
          (string_message raw text)
          (record (s.nodes j) { node = n' })
      → Safe n ids quorums s
      → Safe n ids quorums (moved s j m)
  unfolding receive_message
  handle-Safe s j raw text n' m l got done order safe =
      let m0 = s.nodes j in
      let m1 : Mak = record m0 { node = n' } in
      let (more, i, k, sent) = popped (ids j) m0 text n' got in
      let f = node-Formed m0 n' i k (safe.formed j l) in
      let msg = string_message raw text in
      let b = none_banned s j raw text n' l safe got in
      let f' = dispatch-Formed msg m1 m f b order (own_lock s j raw text n' l safe got) done in
      let own = dispatch-Effect (ids j) (host_of s safe j l) msg m1 m f b order done in
      moved-Safe s j m l safe f' (own.sends.same_id ∙ i, own.sends.same_quorum ∙ k)
        (λ a ha.
          let x = dispatch-Effect a ha msg m1 m f b order done in
          (
            x.weight,
            x.sends.new,
            x.sends.sends ∙ ap (λ l. l ++ x.sends.new) sent,
            x.sends.weighs,
            handle-Passes a ha m0 m raw text n' got x,
          ))

  SystemStep-Safe :
      {s t : System} (st : SystemStep n s t)
      → StepIsOrderly st
      → Safe n ids quorums s
      → Safe n ids quorums t
  unfolding receive
  SystemStep-Safe {s} (deliver before after p j l e to) ok safe =
      traded-Safe s j (delivered p (s.nodes j)) (before ++ after) l safe
        (node-Formed (s.nodes j) _ refl refl (safe.formed j l)) (refl, refl)
        (λ a ha. (
          packet_weight a p,
          0,
          packets_weight a (before ++ after),
          delivered-Passes a (s.nodes j) p to,
          ap (packets_weight a) e ∙ packets_weight-split a before after p,
          omega arith,
        ))
  SystemStep-Safe {s} (lose before after p e) ok safe = record {
    formed = safe.formed;
    named = safe.named;
    few = λ q l. omega (
      arith,
      safe.few q l,
      ap (packets_weight (ids q)) e,
      packets_weight-split (ids q) before after p,
    );
  }
  SystemStep-Safe {s} (handle j raw text n' {m = m} l got done) ok safe =
      handle-Safe s j raw text n' m l got done ok safe
  SystemStep-Safe {s} (round j {m = m} l quiet on done) free safe =
      let f = safe.formed j l in
      let own = tick-Effect (ids j) (host_of s safe j l) (s.nodes j) m f free done in
      moved-Safe s j m l safe (tick-Formed (s.nodes j) m f free done)
        (own.sends.same_id, own.sends.same_quorum)
        (λ a ha.
          let x = tick-Effect a ha (s.nodes j) m f free done in
          (x.weight, x.sends.new, x.sends.sends, x.sends.weighs, round-Passes a (s.nodes j) m x))

  pub Reach-Safe :
      {s t : System} (r : Reach n s t)
      → RunIsOrderly r
      → Safe n ids quorums s
      → Safe n ids quorums t
  Reach-Safe start ok safe = safe
  Reach-Safe (later r st) (ok, at) safe = SystemStep-Safe st at (Reach-Safe r ok safe)
