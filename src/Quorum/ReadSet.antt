-- ===== src/Quorum/ReadSet.antt =====
-- The set that a node reads of the quorum that was written for it.
use aosproject.Prelude.{
  ℕ, suc, ◌≤◌, ◌≡◌, refl, sym, ◌∙◌, subst, some, List, [], ◌∷◌, arith, In, All, All-In, ℤ, pos,
  ltb_ℤ, ltb_ℤ_irrefl, ltb_ℤ_trans,
}
use mathlib.Core.Option.{some-injective}
use aosproject.Text.{Bytes, atoi, atoi-show_int}
use aosproject.OrderedSet.{insert, insert-All, IsSorted, insert-IsSorted}
use aosproject.Distinct.{Distinct}
use aosproject.Node.State.{new as new_node}
use aosproject.Node.Config.{Files, file_name, quorum_name, lines, insert_quorum, parse_quorum}
use aosproject.Quorum.Assignment.{Quorum, quorum_assignment}
use aosproject.Quorum.Assignment.Built.{quorum_assignment-ids}
use aosproject.Quorum.Intersection.{IsNode, quorum_members}
use aosproject.Quorum.Numbering.{In-first_nodes, first_nodes-Distinct, In-ids}
use aosproject.Quorum.Write.{quorum_file, member_lines, write_quorums, host, quorum_file-name}
use aosproject.Quorum.ReadBack.{
  IsNamed, set_read, lines_host, member_lines_cons, insert_quorum_cons, write_quorums_written,
  assigned-IsNamed, read_quorum, quorum_files_meet,
}

-- The number of a host, which fits an address.
abbrev pub IsHost : ℤ → Type 0
IsHost q = (k : ℕ) × (q ≡ pos k) × (k ≤ 45)

insert_quorum-IsSorted :
    (ls : List Bytes) (s : List ℤ) → IsSorted ltb_ℤ s → IsSorted ltb_ℤ (insert_quorum ls s)
unfolding insert_quorum
insert_quorum-IsSorted [] s h = h
insert_quorum-IsSorted (l ∷ ls) s h =
    insert_quorum-IsSorted ls (insert ltb_ℤ (atoi l) s)
      (insert-IsSorted ltb_ℤ ltb_ℤ_irrefl ltb_ℤ_trans (atoi l) s h)

pub set_read-IsSorted : (files : Files) (x : ℕ) → IsSorted ltb_ℤ (set_read files x)
unfolding parse_quorum new_node
set_read-IsSorted files x =
    insert_quorum-IsSorted (lines (files (file_name quorum_name (pos (host x))))) [] tt

read_members-hosts :
    (members : List ℤ) (text : Bytes) (s : List ℤ)
    → All (IsNode 36) members
    → member_lines members ≡ some text
    → All IsHost s
    → All IsHost (insert_quorum (lines text) s)
unfolding member_lines insert_quorum lines
read_members-hosts [] text s nodes e h =
    subst (λ t. All IsHost (insert_quorum (lines t) s)) (some-injective _ _ e) h
read_members-hosts (a ∷ members) text s ((y, ea, l, u), nodes) e h =
    let (rest, r, t) = member_lines_cons y a members text ea l u e in
    rw (t, lines_host (host y) rest, insert_quorum_cons, atoi-show_int (pos (host y)))
      (read_members-hosts members rest (insert ltb_ℤ (pos (host y)) s) nodes r
        (insert-All ltb_ℤ IsHost (pos (host y)) s (host y, refl, omega (arith, u)) h))

-- The quorum of a node from 1 to `n`, with what was written of it.
module _ (n : ℕ) (files files' : Files) (le : n ≤ 36)
    (e : write_quorums (quorum_assignment n) files ≡ some files') where
  quorum_of : (x : ℕ) → 1 ≤ x → x ≤ n → (q : Quorum) × In q (quorum_assignment n) × (q.id ≡ pos x)
  quorum_of x l u =
      In-ids (pos x) (quorum_assignment n) (rw (quorum_assignment-ids n).0 (In-first_nodes n x l u))

  -- A node belongs to the set that it reads.
  pub set_read-own : (x : ℕ) → 1 ≤ x → x ≤ n → In (pos (host x)) (set_read files' x)
  set_read-own x l u =
      let (q, i, ex) = quorum_of x l u in
      read_quorum n files files' x q x le e i ex
        (subst (λ z. In z q.members) ex (quorum_members n (suc n) q i (omega arith)).0)

  pub set_read-hosts : (x : ℕ) → 1 ≤ x → x ≤ n → All IsHost (set_read files' x)
  unfolding parse_quorum new_node
  set_read-hosts x l u =
      let (q, i, ex) = quorum_of x l u in
      let named = assigned-IsNamed n le in
      let distinct = subst Distinct (sym (quorum_assignment-ids n).0) (first_nodes-Distinct n) in
      let text =
        write_quorums_written (quorum_assignment n) files files' x q named distinct e i ex in
      rw (← quorum_file-name (host x)) (
        read_members-hosts q.members (files' (quorum_file (host x))) []
          (All-In IsNamed q (quorum_assignment n) named i).1 text tt)

  -- Any two of them share the host of such a node.
  pub set_read-meet :
      (x y : ℕ)
      → (1 ≤ x) × (x ≤ n)
      → (1 ≤ y) × (y ≤ n)
      → (a : ℕ) × ((1 ≤ a) × (a ≤ n))
        × In (pos (host a)) (set_read files' x)
        × In (pos (host a)) (set_read files' y)
  set_read-meet x y bx by =
      let (written, a, e', l, ix, iy) = quorum_files_meet n x y files le bx by in
      let same : written ≡ files' = some-injective _ _ (sym e' ∙ e) in
      (
        a,
        l,
        subst (λ f. In (pos (host a)) (set_read f x)) same ix,
        subst (λ f. In (pos (host a)) (set_read f y)) same iy,
      )
