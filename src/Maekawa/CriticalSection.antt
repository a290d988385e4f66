-- ===== src/Maekawa/CriticalSection.antt =====
-- Entering the critical section: what has been heard from the quorum.
use aosproject.Prelude.{
  ◌+◌, ◌≡◌, sym, ◌∙◌, subst, ◌≢◌, inl, inr, true, false, some, List, ◌∷◌, arith, length, In, ℤ,
  ℤ-discrete,
}
use aosproject.Node.MessageType.{MessageType, is_fail}
use aosproject.Maekawa.Message.{Message}
use aosproject.Maekawa.State.{Mak, put, has_fail}
use aosproject.Maekawa.Handlers.{access_cs, receive_locked}
use aosproject.Distinct.{Distinct, Within, covers}
use aosproject.Maekawa.Invariant.{Inv}
use aosproject.Maekawa.Invariant.Responses.{
  keys, response, put-IsSorted, In-put_cases, length-keys, Distinct-of_IsSorted, response_of_key,
}

-- The node has enough answers, and none of them is FAIL.
module _ (msg : Message) (m : Mak) where
  abbrev answers : List (ℤ × MessageType)
  answers = put msg.from msg.kind m.response_map

  entered :
      m.is_in_cs ≡ false
      → (receive_locked msg m).is_in_cs ≡ true
      → (length answers + 1 ≡ length m.quorum_set) × (has_fail answers ≡ false)
  unfolding receive_locked access_cs
  entered e h = ground arith

  not_member_twice :
      m.node_id ≢ msg.from
      → ((q : ℤ) → In q (keys m.response_map) → m.node_id ≢ q)
      → (q : ℤ) → In q (keys answers)
      → m.node_id ≢ q
  not_member_twice sender others q h = elim (In-put_cases q msg.from msg.kind m.response_map h) [
    | inl e ↦ λ s. sender (s ∙ e)
    | inr i ↦ others q i
  ]

  members :
      In m.node_id m.quorum_set
      → In msg.from m.quorum_set
      → Within (keys m.response_map) m.quorum_set
      → Within (m.node_id ∷ keys answers) m.quorum_set
  members self sender within q (inl e) = subst (λ x. In x m.quorum_set) e self
  members self sender within q (inr h) = elim (In-put_cases q msg.from msg.kind m.response_map h) [
    | inl e ↦ subst (λ x. In x m.quorum_set) (sym e) sender
    | inr i ↦ within q i
  ]

-- A node that enters its critical section has an answer from every other member of its quorum, and
-- no member's last answer was FAIL; given that the node belongs to its quorum, and that only other
-- members of the quorum have answered it.
pub receive_locked_needs_quorum :
    (msg : Message) (m : Mak)
    → Inv m
    → In m.node_id m.quorum_set
    → In msg.from m.quorum_set
    → m.node_id ≢ msg.from
    → Within (keys m.response_map) m.quorum_set
    → ((q : ℤ) → In q (keys m.response_map) → m.node_id ≢ q)
    → m.is_in_cs ≡ false
    → (receive_locked msg m).is_in_cs ≡ true
    → (q : ℤ) → In q m.quorum_set
    → m.node_id ≢ q
    → (v : MessageType) × (response q (receive_locked msg m).response_map ≡ some v)
      × (is_fail v ≡ false)
unfolding receive_locked access_cs
receive_locked_needs_quorum msg m v self sender foreign within others outside inside q member
      other =
    let (count, no_fail) = entered msg m outside inside in
    let ks = keys (answers msg m) in
    let distinct : Distinct (m.node_id ∷ ks) = (
      not_member_twice msg m foreign others,
      Distinct-of_IsSorted ks (put-IsSorted msg.from msg.kind m.response_map v.responses),
    ) in
    let covered =
      covers ℤ-discrete (m.node_id ∷ ks) m.quorum_set distinct (members msg m self sender within)
        (omega (arith, length-keys (answers msg m))) q member in
    let (w, r, g) = response_of_key q (answers msg m) no_fail (ground arith) in (w, ground arith, g)
