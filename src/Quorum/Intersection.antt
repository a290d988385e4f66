-- ===== src/Quorum/Intersection.antt =====
-- What the grid quorums are for: any two of them meet, and they are small.
use aosproject.Prelude.{
  ℕ, zero, suc, ◌+◌, ◌*◌, ◌≤◌, ◌<◌, ◌≡◌, refl, ◌≢◌, ◌⊎◌, inl, inr, arith, leb, Bool-cases, length,
  In, All, All-In, ℤ, pos, minus_one,
}
use aosproject.Quorum.Grid.{side, matrix, cell, side-least, matrix-cell}
use aosproject.Quorum.Assignment.{
  Quorum, quorum, quorum_assignment, quorum_row, quorum_column, quorum-length, quorum-All,
}
use aosproject.Quorum.Assignment.Built.{IsCellQuorum, quorum_assignment-ids}

-- A number of a node.
abbrev pub IsNode : ℕ → ℤ → Type 0
IsNode n a = (x : ℕ) × (a ≡ pos x) × (1 ≤ x) × (x ≤ n)

cell_node :
    (n row col : ℕ)
    → row < side n
    → col < side n
    → row * side n + col < n
    → cell (matrix n) row col ≡ pos (row * side n + col + 1)
cell_node n row col r c h = ground (arith, matrix-cell n row col r c)

pos_is_no_sentinel : (x : ℕ) (a : ℤ) → a ≡ pos x → a ≢ minus_one
pos_is_no_sentinel x a e = λ f. cc

cell-IsNode :
    (n row col : ℕ)
    → row < side n
    → col < side n
    → cell (matrix n) row col ≢ minus_one
    → IsNode n (cell (matrix n) row col)
cell-IsNode n row col r c o = elim (Bool-cases (leb (row * side n + col + 1) n)) [
  | inl fits ↦
      (row * side n + col + 1, rw (matrix-cell n row col r c, fits) refl, omega arith, ground arith)
  | inr off ↦ elim (o (rw (matrix-cell n row col r c, off) refl)) [ ]
]

times_mono : (a b k : ℕ) → a ≤ b → a * k ≤ b * k
times_mono zero b k h = omega arith
times_mono (suc a) zero k h = omega (arith, h)
times_mono (suc a) (suc b) k h = omega (arith, times_mono a b k (omega (arith, h)))

equal_or_less : (a b : ℕ) → a ≤ b → (a ≡ b) ⊎ (a < b)
equal_or_less a b h = ground arith

-- The side is the least number with room for all nodes.
side-most : (n k : ℕ) → 1 ≤ n → n ≤ k * k → side n ≤ k
side-most n zero some_node enough = omega (arith, some_node, enough)
side-most n (suc k) some_node enough = ground (arith, side-least n (suc k))

below : (i k r : ℕ) → (i < k) ⊎ (i ≡ r) → r < k → i < k
below i k r h l = ground arith

order : (a b : ℕ) → (a ≤ b) ⊎ (b ≤ a)
order a b = ground arith

-- The cell in the row of the first and the column of the second, for a first row that is not below.
cross :
    (n r1 c1 r2 c2 : ℕ)
    → r1 ≤ r2
    → r1 < side n
    → c1 < side n
    → r2 < side n
    → c2 < side n
    → r1 * side n + c1 < n
    → r2 * side n + c2 < n
    → (a : ℤ) × IsNode n a
      × In a (quorum (matrix n) (side n) r1 c1).members
      × In a (quorum (matrix n) (side n) r2 c2).members
cross n r1 c1 r2 c2 le r1k c1k r2k c2k in1 in2 =
    let k = side n in
    let fits : r1 * k + c2 < n = omega (arith, times_mono r1 r2 k le, in2) in
    let at = cell_node n r1 c2 r1k c2k fits in
    let o = pos_is_no_sentinel (r1 * k + c2 + 1) (cell (matrix n) r1 c2) at in
    (
      cell (matrix n) r1 c2,
      (r1 * k + c2 + 1, at, omega arith, omega (arith, fits)),
      quorum_row (matrix n) k r1 c1 c2 c2k o,
      elim (equal_or_less r1 r2 le) [
        | inl same ↦ rw same (quorum_row (matrix n) k r2 c2 c2 c2k (rw same at o))
        | inr below ↦ quorum_column (matrix n) k r2 c2 r1 r1k (omega (arith, below)) o
      ],
    )

-- Any two of the quorums that are assigned to `n` nodes share a node, whose number is between 1 and
-- `n`.
pub quorums_intersect :
    (n : ℕ) (p q : Quorum)
    → In p (quorum_assignment n)
    → In q (quorum_assignment n)
    → (a : ℤ) × IsNode n a × In a p.members × In a q.members
quorums_intersect n p q hp hq =
    let cells = (quorum_assignment-ids n).1 in
    let (r1, c1, r1k, c1k, in1, e1) = All-In (IsCellQuorum n) p (quorum_assignment n) cells hp in
    let (r2, c2, r2k, c2k, in2, e2) = All-In (IsCellQuorum n) q (quorum_assignment n) cells hq in
    rw (e1, e2)
      (elim (order r1 r2) [
        | inl le ↦ cross n r1 c1 r2 c2 le r1k c1k r2k c2k in1 in2
        | inr ge ↦
            let (a, node, h2, h1) = cross n r2 c2 r1 c1 ge r2k c2k r1k c1k in2 in1 in
            (a, node, h1, h2)
      ])

-- The quorum of a node holds the node, holds nodes between 1 and `n` only, and has fewer than `2k`
-- entries for every `k` whose square is not below `n`.
pub quorum_members :
    (n k : ℕ) (q : Quorum)
    → In q (quorum_assignment n)
    → n ≤ k * k
    → In q.id q.members × All (IsNode n) q.members × (length q.members < k + k)
unfolding quorum cell
quorum_members n k q h enough =
    let (r, c, rk, ck, fits, e) =
      All-In (IsCellQuorum n) q (quorum_assignment n) (quorum_assignment-ids n).1 h in
    let m = matrix n in
    let o = pos_is_no_sentinel (r * side n + c + 1) (cell m r c) (cell_node n r c rk ck fits) in
    let least : side n ≤ k = side-most n k (omega (arith, fits)) enough in
    rw e (
      quorum_row m (side n) r c c ck o,
      quorum-All (IsNode n) m (side n) r c (λ i j ir jc f.
          cell-IsNode n i j (below i (side n) r ir rk) (below j (side n) c jc ck) f),
      omega (arith, quorum-length m (side n) r c rk, least),
    )
