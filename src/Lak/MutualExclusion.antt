-- ===== src/Lak/MutualExclusion.antt =====
-- The token of a system: there is never a second one, so that one node at most is in its critical section.
use aosproject.Prelude.{
  ℕ, zero, suc, ◌≤◌, ◌<◌, ◌≡◌, sym, ap, ◌∙◌, ◌⊎◌, inl, inr, Bool, true, false, some, List, [], ◌∷◌,
  arith, ℤ, pos, ◌==ℤ◌, ==ℤ_iff,
}
use aosproject.Node.State.{new as new_node, Node}
use aosproject.Lak.State.{Lak, init, start_first, start_state}
use aosproject.Node.Config
use aosproject.Node.Config.{Files, init-fields}
use aosproject.Quorum.Write.{host}
use aosproject.Family.{sum, sum-two}
use aosproject.Lak.Tokens.{bit, token_count}
use aosproject.Lak.Conservation.{IsGuarded}
use aosproject.Lak.System.{System, Reach, RelaysAtHolder, IsBooted}
use aosproject.Lak.System.Moves.{queue_tokens, held, all_tokens, Safe, Reach-Safe}

start_first-token :
    (qs : List ℤ) (n : Node) (m : Lak)
    → start_first qs n ≡ some m
    → (m.message_queue ≡ n.message_queue)
      × (m.is_in_cs ≡ false)
      × ((m.has_token ≡ false) ⊎ (n.node_id ≡ pos 1))
unfolding start_first start_state ◌==ℤ◌
start_first-token [] n m e = cc
start_first-token (q ∷ qs) n m e = ground (arith, ==ℤ_iff n.node_id (pos 1), e)

-- What `init` leaves for the token.
init-Booted :
    (files : Files) (id : ℤ) (m : Lak)
    → init files (new_node id) ≡ some m
    → (m.message_queue ≡ []) × (m.is_in_cs ≡ false) × ((m.has_token ≡ false) ⊎ (id ≡ pos 1))
unfolding init new_node
init-Booted files id m e =
    let n : Node = record (new_node id) { quorum_set = []; time_schedule = [] } in
    let (q, i, k) = init-fields files n in
    let (q', c, t) = start_first-token (Config.init files n).quorum_set (Config.init files n) m e in
    (q' ∙ q, c, elim t [ inl none_here ↦ inl none_here | inr first ↦ inr (sym i ∙ first) ])

bit_le : (b : Bool) → bit b ≤ 1
bit_le true = omega arith
bit_le false = omega arith

Booted-Safe : (files : Files) (n : ℕ) (s : System) → IsBooted files n s → Safe n s
unfolding all_tokens held queue_tokens token_count
Booted-Safe files n s (quiet, boot) = record {
  few = omega (
    arith,
    ap token_count quiet,
    one_at_most n (λ j l. init-Booted files (pos (host (suc j))) (s.nodes j) (boot j l)),
  );
  guarded = λ j l. inl (init-Booted files (pos (host (suc j))) (s.nodes j) (boot j l)).1;
}
  where
    Idle : ℕ → Type 0
    Idle j =
        ((s.nodes j).message_queue ≡ [])
        × ((s.nodes j).is_in_cs ≡ false)
        × (((s.nodes j).has_token ≡ false) ⊎ (pos (host (suc j)) ≡ pos 1))

    light : (j : ℕ) → Idle (suc j) → held (s.nodes (suc j)) ≡ 0
    light j (q, c, inl t) = omega (arith, ap queue_tokens q, ap bit t)
    light j (q, c, inr t) = absurd (ground (arith, t))

    one_at_most : (k : ℕ) → ((j : ℕ) → j < k → Idle j) → sum held k s.nodes ≤ 1
    one_at_most zero h = omega arith
    one_at_most (suc zero) h =
        let (q, c, t) = h 0 (omega arith) in
        omega (arith, ap queue_tokens q, bit_le (s.nodes 0).has_token)
    one_at_most (suc (suc k)) h = omega (
      arith,
      one_at_most (suc k) (λ j l. h j (omega (arith, l))),
      light k (h (suc k) (omega arith)),
    )

three_ways : (i j : ℕ) → (i ≡ j) ⊎ ((i < j) ⊎ (j < i))
three_ways i j = ground arith

holds_token : (m : Lak) → IsGuarded m → m.is_in_cs ≡ true → bit m.has_token ≡ 1
holds_token m (inl out) in_cs = cc (out, in_cs)
holds_token m (inr has) in_cs = ap bit has

-- The token algorithm excludes: take the nodes on the first `n` hosts as `init` leaves them, and any
-- run in which their packets are delivered in any order or lost, and the nodes handle them and make
-- their rounds in any order. If no RELAY is handled by a node without the token, then at no time are
-- two of them in their critical sections.
pub mutual_exclusion :
    (files : Files) (n : ℕ) {s t : System}
    → IsBooted files n s
    → (r : Reach n s t) → RelaysAtHolder r
    → (i j : ℕ) → i < n
    → j < n
    → (t.nodes i).is_in_cs ≡ true
    → (t.nodes j).is_in_cs ≡ true
    → i ≡ j
unfolding all_tokens held
mutual_exclusion files n {s} {t} boot r ok i j li lj ci cj =
    let safe = Reach-Safe n r ok (Booted-Safe files n s boot) in
    let holds_i = holds_token (t.nodes i) (safe.guarded i li) ci in
    let holds_j = holds_token (t.nodes j) (safe.guarded j lj) cj in
    elim (three_ways i j) [
      | inl same ↦ same
      | inr (inl below) ↦
          absurd (omega (arith, safe.few, sum-two held n t.nodes i j below lj, holds_i, holds_j))
      | inr (inr above) ↦
          absurd (omega (arith, safe.few, sum-two held n t.nodes j i above li, holds_i, holds_j))
    ]
