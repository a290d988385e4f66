-- ===== src/Maekawa/System/Booted.antt =====
-- The nodes as `init` leaves them, with the files of the test bed.
use aosproject.Prelude.{
  ℕ, zero, suc, ◌<◌, ◌≡◌, refl, sym, ap, ◌∙◌, subst, inl, inr, false, [], arith, ltb, Bool-cases,
  In, All, All-In, ℤ, pos, minus_one, ◌==ℤ◌, ==ℤ_iff,
}
use aosproject.Maekawa.State.{Mak, new}
use aosproject.Maekawa.System.{System}
use aosproject.Maekawa.System.Weight.{texts_weight, packets_weight}
use aosproject.Maekawa.System.Effect.{granted, client_claim}
use aosproject.Maekawa.System.Formed.{IsHost, Formed}
use aosproject.Family.{sum-zero}
use aosproject.Maekawa.System.{booted, IsBooted}
use aosproject.Maekawa.Invariant.{new-Inv, node-Inv}
use aosproject.Maekawa.System.Passes.{claim, held}
use aosproject.Maekawa.System.Safe.{Safe}
use aosproject.Node.State.{new as new_node}
use aosproject.Node.Config.{Files, parse_quorum, init-fields, file_name, quorum_name}
use aosproject.Quorum.Write.{write_file, quorum_file, quorum_file-name, host}
use aosproject.Quorum.ReadBack.{set_read}
use aosproject.Quorum.ReadSet.{set_read-IsSorted}
use aosproject.Schedule.Write.{Config, config_file, write_from, write_config}
use aosproject.Text.Equal.{same_bytes}

config-quorum : (x t : ℕ) → same_bytes (config_file x) (quorum_file t) ≡ false
unfolding config_file quorum_file same_bytes
config-quorum x t = elim (Bool-cases (ltb x 10)) [
  | inl small ↦ elim (Bool-cases (ltb t 10)) [
    | inl low ↦ rw (small, low) refl
    | inr high ↦ rw (small, high) refl
  ]
  | inr large ↦ elim (Bool-cases (ltb t 10)) [
    | inl low ↦ rw (large, low) refl
    | inr high ↦ rw (large, high) refl
  ]
]

-- The files of the configuration are none of the quorums'.
write_from-quorum :
    (left x : ℕ) (c : Config) (files : Files) (t : ℕ)
    → write_from left x c files (quorum_file t) ≡ files (quorum_file t)
unfolding write_from write_file
write_from-quorum zero x c files t = refl
write_from-quorum (suc left) x c files t =
    write_from-quorum left (suc x) _ _ t ∙ rw (config-quorum x t) refl

pub set_read-write_config :
    (c : Config) (files : Files) (x : ℕ) → set_read (write_config c files) x ≡ set_read files x
unfolding parse_quorum write_config new_node
set_read-write_config c files x =
    let same : write_config c files (file_name quorum_name (pos (host x)))
        ≡ files (file_name quorum_name (pos (host x))) =
      rw (← quorum_file-name (host x)) (write_from-quorum 45 1 c files (host x)) in
    rw same refl

abbrev pub id_of : ℕ → ℤ
id_of j = pos (host (suc j))

booted-node :
    (files : Files) (j : ℕ)
    → ((booted files (id_of j)).node_id ≡ id_of j)
      × ((booted files (id_of j)).quorum_set ≡ set_read files (suc j))
      × ((booted files (id_of j)).message_queue ≡ [])
unfolding new_node
booted-node files j = let (q, i, k) = init-fields files (new_node (id_of j)) in (i, k, q)

booted-Formed :
    (files : Files) (j : ℕ)
    → In (id_of j) (set_read files (suc j))
    → All IsHost (set_read files (suc j))
    → Formed (booted files (id_of j))
unfolding new
booted-Formed files j own hosts =
    let (i, k, q) = booted-node files j in
    record {
      inv = node-Inv (new (id_of j)) _ (new-Inv (id_of j));
      own = rw (i, k) own;
      ascending = rw k (set_read-IsSorted files (suc j));
      hosts = rw k hosts;
      answered = λ q e. absurd e;
      foreign = λ q e. absurd e;
      answers = tt;
      requests = tt;
      quiet = refl;
      held = λ e. absurd (ground (arith, e));
    }

booted-held : (files : Files) (j : ℕ) (a : ℤ) → IsHost a → held a (booted files (id_of j)) ≡ 0
unfolding new held claim client_claim granted texts_weight
booted-held files j a (k, e, u) =
    let (i, q, empty) = booted-node files j in
    let nobody_here : (minus_one ==ℤ a) ≡ false = ground (arith, ==ℤ_iff minus_one a, e) in
    rw empty (ground (arith, nobody_here))

pub booted-Safe :
    (n : ℕ) (files : Files) (s : System)
    → ((j : ℕ)
        → j < n
        → In (id_of j) (set_read files (suc j)) × All IsHost (set_read files (suc j)))
    → IsBooted files n s
    → Safe n id_of (λ j. set_read files (suc j)) s
unfolding packets_weight
booted-Safe n files s quorums (quiet, boot) = record {
  formed =
      λ j l. subst Formed (sym (boot j l)) (booted-Formed files j (quorums j l).0 (quorums j l).1);
  named = λ j l.
      let (i, k, q) = booted-node files j in
      (ap (λ (m : Mak). m.node_id) (boot j l) ∙ i, ap (λ (m : Mak). m.quorum_set) (boot j l) ∙ k);
  few = λ q l.
      let hq = All-In IsHost (id_of q) (set_read files (suc q)) (quorums q l).1 (quorums q l).0 in
      omega (
        arith,
        ap (packets_weight (id_of q)) quiet,
        sum-zero (held (id_of q)) n s.nodes
            (λ j lj. ap (held (id_of q)) (boot j lj) ∙ booted-held files j (id_of q) hq),
      );
}
