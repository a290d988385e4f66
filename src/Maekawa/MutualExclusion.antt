-- ===== src/Maekawa/MutualExclusion.antt =====
-- Maekawa's nodes on a network: with the quorums of the test bed, one of them at most is in its
-- critical section.
use aosproject.Prelude.{
  ℕ, suc, ◌-◌, ◌≤◌, ◌<◌, ◌≡◌, refl, sym, ap, ◌∙◌, subst, ◌≢◌, ◌⊎◌, inl, inr, true, some, List, [],
  ◌∷◌, arith, ◌==◌, In, ℤ, pos, to_unsigned, ℤ-discrete, ==ℤ_iff,
}
use aosproject.Maekawa.State.{Mak}
use aosproject.Maekawa.Sends.{others}
use aosproject.Maekawa.System.{System, Reach, RunIsOrderly}
use aosproject.Maekawa.System.Weight.{bit, bit_le, count_to}
use aosproject.Maekawa.System.Effect.{client_claim, arbiter_claim}
use aosproject.Maekawa.System.Formed.{Formed, count-skip, count-next}
use aosproject.Family.{sum-two}
use aosproject.Maekawa.System.{IsBooted}
use aosproject.Maekawa.System.Passes.{held, arbiter-held, client-held}
use aosproject.Maekawa.System.Safe.{Safe, Reach-Safe}
use aosproject.Node.Config.{Files}
use aosproject.Quorum.Assignment.{quorum_assignment}
use aosproject.Quorum.Write.{write_quorums, host, host-injective}
use aosproject.Quorum.ReadBack.{set_read}
use aosproject.Quorum.ReadSet.{set_read-own, set_read-hosts, set_read-meet}
use aosproject.Schedule.Write.{Config, write_config}
use aosproject.Maekawa.System.Booted.{set_read-write_config, id_of, booted-Safe}

count_to-member : (a id : ℤ) (qs : List ℤ) → In a qs → id ≢ a → 1 ≤ count_to a (others id qs)
count_to-member a id [] h d = absurd h
count_to-member a id (q ∷ qs) h d = elim (ℤ-discrete q id) [
  | yes own ↦
      let later : In a qs = elim h [ inl e ↦ absurd (d (sym own ∙ e)) | inr i ↦ i ] in
      omega (arith, ap (count_to a) (count-skip a id q qs own), count_to-member a id qs later d)
  | no other ↦ elim h [
    | inl e ↦
        let near : (to_unsigned q == to_unsigned a) ≡ true = ground (arith, e) in
        omega (arith, count-next a id q qs other, ap bit near)
    | inr i ↦ omega (arith, count-next a id q qs other, count_to-member a id qs i d)
  ]
]

-- A node in its critical section holds the lock of every member of its quorum.
inside-held : (a : ℤ) (m : Mak) → Formed m → In a m.quorum_set → m.is_in_cs ≡ true → 1 ≤ held a m
unfolding client_claim
inside-held a m f member inside = elim (ℤ-discrete m.node_id a) [
  | yes own ↦
      let mine : arbiter_claim a m ≡ 1 =
        ground (arith, f.held inside, own, ==ℤ_iff m.locked_for.1 a) in
      omega (arith, mine, arbiter-held a m own)
  | no other ↦
      let claims : client_claim a m ≡ count_to a (others m.node_id m.quorum_set) = rw inside refl in
      omega (
        arith,
        claims,
        count_to-member a m.node_id m.quorum_set member other,
        client-held a m other,
      )
]

three_ways : (i j : ℕ) → (i ≡ j) ⊎ ((i < j) ⊎ (j < i))
three_ways i j = ground arith

-- Two nodes with a common lock are not both inside.
apart :
    (n : ℕ) (ids : ℕ → ℤ) (quorums : ℕ → List ℤ) (t : System)
    → Safe n ids quorums t
    → (i j q : ℕ) → i < j
    → j < n
    → q < n
    → In (ids q) (quorums i)
    → In (ids q) (quorums j)
    → (t.nodes i).is_in_cs ≡ true
    → (t.nodes j).is_in_cs ≡ true
    → ⊥
apart n ids quorums t safe i j q below lj lq mi mj ci cj =
    let li : i < n = omega (arith, below, lj) in
    let holds_i =
      inside-held (ids q) (t.nodes i) (safe.formed i li) (rw (safe.named i li).1 mi) ci in
    let holds_j =
      inside-held (ids q) (t.nodes j) (safe.formed j lj) (rw (safe.named j lj).1 mj) cj in
    omega (
      arith,
      safe.few q lq,
      sum-two (held (ids q)) n t.nodes i j below lj,
      holds_i,
      holds_j,
      bit_le (t.nodes q).is_locked,
    )

distinct_ids : (n i j : ℕ) → i < n → j < n → id_of i ≡ id_of j → i ≡ j
distinct_ids n i j li lj e =
    let same : host (suc i) ≡ host (suc j) = ground (arith, e) in
    omega (arith, host-injective (suc i) (suc j) (omega arith) (omega arith) same)

-- Maekawa's algorithm excludes on these conditions. For up to 36 nodes, take those on the
-- first `n` hosts as the constructor and `init` leave them, with the files that the test bed writes, and
-- any run in which their packets are delivered in any order or lost, and the nodes handle them and make
-- their rounds in any order. Let a node handle a REQUEST of another only while it is free or if that
-- request does not come first in its queue, LOCK and FAIL only of other members of its quorum, and
-- LOCK only while it is locked for a request of its own; and let a request of its own be due only while
-- it is free. Then at no time are two of them in their critical sections.
pub maekawa_excludes :
    (n : ℕ) (c : Config) (files files' : Files) {s t : System}
    → n ≤ 36
    → write_quorums (quorum_assignment n) files ≡ some files'
    → IsBooted (write_config c files') n s
    → (r : Reach n s t) → RunIsOrderly r
    → (i j : ℕ) → i < n
    → j < n
    → (t.nodes i).is_in_cs ≡ true
    → (t.nodes j).is_in_cs ≡ true
    → i ≡ j
maekawa_excludes n c files files' {s} {t} le written boot r ok i j li lj ci cj =
    let config : Files = write_config c files' in
    let quorum : ℕ → List ℤ = λ k. set_read config (suc k) in
    let same = set_read-write_config c files' in
    let start_Safe : Safe n id_of quorum s =
      booted-Safe n config s
        (λ k l. (
          rw (same (suc k))
              (set_read-own n files files' le written (suc k) (omega arith) (omega (arith, l))),
          rw (same (suc k))
              (set_read-hosts n files files' le written (suc k) (omega arith) (omega (arith, l))),
        ))
        boot in
    let safe = Reach-Safe n id_of quorum (distinct_ids n) r ok start_Safe in
    let (q, (l, u), mi, mj) =
      set_read-meet n files files' le written (suc i) (suc j) (omega arith, omega (arith, li))
        (omega arith, omega (arith, lj)) in
    let e : pos (host q) ≡ id_of (q - 1) = ap (λ z. pos (host z)) (omega (arith, l)) in
    let in_i : In (id_of (q - 1)) (quorum i) =
      rw (same (suc i)) (subst (λ z. In z (set_read files' (suc i))) e mi) in
    let in_j : In (id_of (q - 1)) (quorum j) =
      rw (same (suc j)) (subst (λ z. In z (set_read files' (suc j))) e mj) in
    let lq : q - 1 < n = omega (arith, l, u) in
    elim (three_ways i j) [
      | inl equal ↦ equal
      | inr (inl below) ↦
          absurd (apart n id_of quorum t safe i j (q - 1) below lj lq in_i in_j ci cj)
      | inr (inr above) ↦
          absurd (apart n id_of quorum t safe j i (q - 1) above li lq in_j in_i cj ci)
    ]
