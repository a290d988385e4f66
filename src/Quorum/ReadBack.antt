-- ===== src/Quorum/ReadBack.antt =====
-- What the nodes read of the quorums that were written for them.
use aosproject.Prelude.{
  ℕ, suc, ◌≤◌, ◌≡◌, refl, sym, ap, ◌∙◌, subst, ◌≢◌, inl, inr, some, List, [], ◌∷◌, ◌++◌, arith,
  >>=-eq-some, In, All, All-In, ℤ, pos, ltb_ℤ, ltb_ℤ_irrefl, ltb_ℤ_trans, ltb_ℤ_connex,
}
use mathlib.Core.Option.{some-injective}
use aosproject.Text.{Bytes, show_int, show_nat, IsDigit, atoi, atoi-show_int}
use aosproject.Text.Decimal.{show_nat-All}
use aosproject.Text.Equal.{same_bytes_iff}
use aosproject.OrderedSet.{insert, In-insert_old, insert_holds}
use aosproject.Distinct.{Distinct}
use aosproject.Node.State.{new as new_node}
use aosproject.Node.Config.{Files, newline, lines, add_byte, insert_quorum, parse_quorum}
use aosproject.Quorum.Assignment.{Quorum, quorum_assignment}
use aosproject.Quorum.Assignment.Built.{ids, quorum_assignment-ids}
use aosproject.Quorum.Intersection.{IsNode, quorums_intersect, quorum_members}
use aosproject.Quorum.Numbering.{
  In-first_nodes, first_nodes-Distinct, In-ids, All-of_In, IsNode-weaken,
}
use aosproject.Quorum.Write.{
  quorum_file, member_lines, write_file, write_quorums, host, trans_at_lem, host-injective,
  quorum_file-name, quorum_file-injective,
}

lines_shown : (s rest : Bytes) → All IsDigit s → lines (s ++ (newline ∷ rest)) ≡ s ∷ lines rest
unfolding lines add_byte
lines_shown [] rest d = refl
lines_shown (c ∷ s) rest d = rw (lines_shown s rest d.1) (ground arith)

pub lines_host :
    (t : ℕ) (rest : Bytes)
    → lines (show_int (pos t) ++ (newline ∷ rest)) ≡ show_int (pos t) ∷ lines rest
unfolding show_int
lines_host t rest = lines_shown (show_nat t) rest (show_nat-All t)

insert_quorum_keeps : (z : ℤ) (ls : List Bytes) (s : List ℤ) → In z s → In z (insert_quorum ls s)
unfolding insert_quorum
insert_quorum_keeps z [] s h = h
insert_quorum_keeps z (l ∷ ls) s h =
    insert_quorum_keeps z ls (insert ltb_ℤ (atoi l) s) (In-insert_old ltb_ℤ z (atoi l) s h)

insert_holds_it : (z : ℤ) (s : List ℤ) → In z (insert ltb_ℤ z s)
insert_holds_it z s =
    let (y, i, (a, b)) = insert_holds ltb_ℤ ltb_ℤ_irrefl ltb_ℤ_trans z s in
    subst (λ w. In w (insert ltb_ℤ z s)) (sym (ltb_ℤ_connex z y a b)) i

pub member_lines_cons :
    (y : ℕ) (a : ℤ) (members : List ℤ) (text : Bytes)
    → a ≡ pos y
    → 1 ≤ y
    → y ≤ 36
    → member_lines (a ∷ members) ≡ some text
    → (rest : Bytes) × (member_lines members ≡ some rest)
      × (text ≡ show_int (pos (host y)) ++ (newline ∷ rest))
unfolding member_lines
member_lines_cons y a members text ea l u e =
    let found = rw (ea, (trans_at_lem y l u).0) at e in
    let (rest, r, t) = >>=-eq-some (member_lines members) _ found in
    (rest, r, sym (some-injective _ _ t))

pub insert_quorum_cons :
    (l : Bytes) (ls : List Bytes) (s : List ℤ)
    → insert_quorum (l ∷ ls) s ≡ insert_quorum ls (insert ltb_ℤ (atoi l) s)
unfolding insert_quorum
insert_quorum_cons l ls s = refl

-- Every member's host is in the set that is read from the file.
read_members :
    (members : List ℤ) (text : Bytes) (s : List ℤ) (x : ℕ)
    → All (IsNode 36) members
    → member_lines members ≡ some text
    → In (pos x) members
    → In (pos (host x)) (insert_quorum (lines text) s)
unfolding member_lines
read_members [] text s x nodes e h = elim h [ ]
read_members (a ∷ members) text s x ((y, ea, l, u), nodes) e h =
    let (rest, r, t) = member_lines_cons y a members text ea l u e in
    let s' = insert ltb_ℤ (pos (host y)) s in
    rw (t, lines_host (host y) rest, insert_quorum_cons, atoi-show_int (pos (host y)))
      (elim h [
        | inl same ↦ insert_quorum_keeps (pos (host x)) (lines rest) s' (
            subst (λ w. In (pos (host x)) (insert ltb_ℤ (pos (host w)) s)) (cc (ea, same))
              (insert_holds_it (pos (host x)) s))
        | inr later ↦ read_members members rest s' x nodes r later
      ])

member_lines_total :
    (members : List ℤ)
    → All (IsNode 36) members
    → (text : Bytes) × (member_lines members ≡ some text)
unfolding member_lines
member_lines_total [] h = ([], refl)
member_lines_total (a ∷ members) ((x, e, l, u), h) =
    let (rest, r) = member_lines_total members h in
    (show_int (pos (host x)) ++ (newline ∷ rest), rw (e, (trans_at_lem x l u).0, r) refl)

-- A quorum whose nodes there are host names for.
abbrev pub IsNamed : Quorum → Type 0
IsNamed q = IsNode 36 q.id × All (IsNode 36) q.members

write_quorums_total :
    (qs : List Quorum) (files : Files)
    → All IsNamed qs
    → (files' : Files) × (write_quorums qs files ≡ some files')
unfolding write_quorums
write_quorums_total [] files h = (files, refl)
write_quorums_total (q ∷ qs) files (((x, e, l, u), ms), h) =
    let (text, t) = member_lines_total q.members ms in
    let (files', r) = write_quorums_total qs (write_file (quorum_file (host x)) text files) h in
    (files', rw (e, (trans_at_lem x l u).0, t) r)

-- Other quorums leave a file alone.
write_quorums_other :
    (qs : List Quorum) (files files' : Files) (x : ℕ)
    → 1 ≤ x
    → All IsNamed qs
    → ((a : ℤ) → In a (ids qs) → pos x ≢ a)
    → write_quorums qs files ≡ some files'
    → files' (quorum_file (host x)) ≡ files (quorum_file (host x))
unfolding write_quorums write_file
write_quorums_other [] files files' x lx h other e =
    ap (λ fs. fs (quorum_file (host x))) (sym (some-injective _ _ e))
write_quorums_other (q ∷ qs) files files' x lx (((y, ey, l, u), ms), h) other e =
    let (text, t) = member_lines_total q.members ms in
    let differ : quorum_file (host y) ≢ quorum_file (host x) = λ f. other q.id (inl refl) (
      ap pos (sym (host-injective y x l lx (quorum_file-injective (host y) (host x) f)))
      ∙ sym ey) in
    write_quorums_other qs (write_file (quorum_file (host y)) text files) files' x lx h
      (λ a i. other a (inr i)) (rw (ey, (trans_at_lem y l u).0, t) at e)
    ∙ ground (arith, same_bytes_iff (quorum_file (host y)) (quorum_file (host x)))

-- The file of a quorum holds its lines in the end.
pub write_quorums_written :
    (qs : List Quorum) (files files' : Files) (x : ℕ) (q : Quorum)
    → All IsNamed qs
    → Distinct (ids qs)
    → write_quorums qs files ≡ some files'
    → In q qs
    → q.id ≡ pos x
    → member_lines q.members ≡ some (files' (quorum_file (host x)))
unfolding write_quorums write_file
write_quorums_written [] files files' x q h d e i ex = elim i [ ]
write_quorums_written (p ∷ qs) files files' x q (((y, ey, l, u), ms), h) d e i ex =
    let (text, t) = member_lines_total p.members ms in
    let rest = rw (ey, (trans_at_lem y l u).0, t) at e in
    elim i [
      | inl same ↦
          let pid : p.id ≡ pos x = ap (λ r. r.id) same ∙ ex in
          let same_node : y ≡ x = ground (arith, pid, ey) in
          let other =
            write_quorums_other qs (write_file (quorum_file (host y)) text files) files' x
              (rw (← same_node) l) h (λ a j f. d.0 a j (pid ∙ f)) rest in
          let now =
            (same_bytes_iff (quorum_file (host y)) (quorum_file (host x))).1
              (ap (λ z. quorum_file (host z)) same_node) in
          subst (λ r. member_lines r.members ≡ some (files' (quorum_file (host x)))) same
            (t ∙ ap some (sym (other ∙ rw now refl)))
      | inr later ↦
          write_quorums_written qs (write_file (quorum_file (host y)) text files) files' x q h d.1
            rest later ex
    ]

-- The quorum set that the host of a node reads.
abbrev pub set_read : Files → ℕ → List ℤ
set_read files x = (parse_quorum files (new_node (pos (host x)))).quorum_set

pub assigned-IsNamed : (n : ℕ) → n ≤ 36 → All IsNamed (quorum_assignment n)
assigned-IsNamed n le = All-of_In IsNamed (quorum_assignment n) (λ q i.
    let (own, ms, small) = quorum_members n (suc n) q i (omega arith) in
    let named = IsNode-weaken n le q.members ms in
    (All-In (IsNode 36) q.id q.members named own, named))

pub read_quorum :
    (n : ℕ) (files files' : Files) (x : ℕ) (q : Quorum) (a : ℕ)
    → n ≤ 36
    → write_quorums (quorum_assignment n) files ≡ some files'
    → In q (quorum_assignment n)
    → q.id ≡ pos x
    → In (pos a) q.members
    → In (pos (host a)) (set_read files' x)
unfolding parse_quorum new_node
read_quorum n files files' x q a le e i ex h =
    let named = assigned-IsNamed n le in
    let distinct = subst Distinct (sym (quorum_assignment-ids n).0) (first_nodes-Distinct n) in
    let text = write_quorums_written (quorum_assignment n) files files' x q named distinct e i ex in
    rw (← quorum_file-name (host x)) (
      read_members q.members (files' (quorum_file (host x))) [] a
        (All-In IsNamed q (quorum_assignment n) named i).1 text h)

-- For `n` nodes, at most 36, the quorum files can be written, and the sets that any two nodes from 1
-- to `n` then read from them share the host of such a node, whatever the files were before.
pub quorum_files_meet :
    (n x y : ℕ) (files : Files)
    → n ≤ 36
    → (1 ≤ x) × (x ≤ n)
    → (1 ≤ y) × (y ≤ n)
    → (files' : Files) × (a : ℕ) × (write_quorums (quorum_assignment n) files ≡ some files')
      × ((1 ≤ a) × (a ≤ n))
      × In (pos (host a)) (set_read files' x)
      × In (pos (host a)) (set_read files' y)
quorum_files_meet n x y files le (lx, ux) (ly, uy) =
    let (files', e) = write_quorums_total (quorum_assignment n) files (assigned-IsNamed n le) in
    let all = (quorum_assignment-ids n).0 in
    let (p, ip, ep) = In-ids (pos x) (quorum_assignment n) (rw all (In-first_nodes n x lx ux)) in
    let (q, iq, eq) = In-ids (pos y) (quorum_assignment n) (rw all (In-first_nodes n y ly uy)) in
    let (b, (a, ea, l, u), inp, inq) = quorums_intersect n p q ip iq in
    (
      files',
      a,
      e,
      (l, u),
      read_quorum n files files' x p a le e ip ep (rw (← ea) inp),
      read_quorum n files files' y q a le e iq eq (rw (← ea) inq),
    )
