-- ===== src/Quorum/Assignment/Built.antt =====
-- What the loops of `QuorumAssignment` build: the quorums of the nodes in reading order.
use aosproject.Prelude.{
  ℕ, zero, suc, ◌+◌, ◌*◌, ◌≤◌, ◌<◌, ◌≡◌, refl, sym, ap, ◌∙◌, subst, ◌≢◌, ◌⊎◌, inl, inr, List, [],
  ◌∷◌, ◌++◌, arith, ◌==◌, Bool-cases, length, All, length-append, All-append, ℤ, pos,
}
use aosproject.Quorum.Grid.{side, matrix, side-enough, matrix-cell}
use aosproject.Quorum.Assignment.{Quorum, quorum, assign_columns, assign_rows, quorum_assignment}

abbrev pub ids : List Quorum → List ℤ
ids [] = []
ids (q ∷ qs) = q.id ∷ ids qs

-- 1, 2, ..., `n`.
abbrev pub first_nodes : ℕ → List ℤ
first_nodes zero = []
first_nodes (suc n) = first_nodes n ++ (pos (suc n) ∷ [])

-- The quorum of a cell that holds a node.
abbrev pub IsCellQuorum : ℕ → Quorum → Type 0
IsCellQuorum n q =
    (row col : ℕ) × (row < side n)
    × (col < side n)
    × (row * side n + col < n)
    × (q ≡ quorum (matrix n) (side n) row col)

-- The quorums of the first `t` cells, as far as they hold nodes.
abbrev Built : ℕ → ℕ → List Quorum → Type 0
Built n t qs =
    (j : ℕ) × (ids qs ≡ first_nodes j)
    × All (IsCellQuorum n) qs
    × (j ≤ n)
    × (j ≤ t)
    × ((j ≡ t) ⊎ (j ≡ n))

length-ids : (qs : List Quorum) → length (ids qs) ≡ length qs
length-ids [] = refl
length-ids (q ∷ qs) = ap suc (length-ids qs)

length-first_nodes : (n : ℕ) → length (first_nodes n) ≡ n
length-first_nodes zero = refl
length-first_nodes (suc n) =
    omega (arith, length-append (first_nodes n) (pos (suc n) ∷ []), length-first_nodes n)

ids-append : (qs qs' : List Quorum) → ids (qs ++ qs') ≡ ids qs ++ ids qs'
ids-append [] qs' = refl
ids-append (q ∷ qs) qs' = ap (λ l. q.id ∷ l) (ids-append qs qs')

Built-length : (n j : ℕ) (qs : List Quorum) → ids qs ≡ first_nodes j → length qs ≡ j
Built-length n j qs e = sym (length-ids qs) ∙ ap length e ∙ length-first_nodes j

quorum-id :
    (n row col : ℕ)
    → row < side n
    → col < side n
    → row * side n + col < n
    → (quorum (matrix n) (side n) row col).id ≡ pos (suc (row * side n + col))
unfolding quorum
quorum-id n row col r c h = ground (arith, matrix-cell n row col r c)

Built-push :
    (n row col : ℕ) (qs : List Quorum)
    → row < side n
    → col < side n
    → length qs ≢ n
    → Built n (row * side n + col) qs
    → Built n (row * side n + suc col) (qs ++ (quorum (matrix n) (side n) row col ∷ []))
Built-push n row col qs r c more (j, e, cells, in_n, in_t, at) =
    let size = Built-length n j qs e in
    let now : j ≡ row * side n + col = ground arith in
    let q = quorum (matrix n) (side n) row col in
    let id = quorum-id n row col r c (omega (arith, now, in_n, size, more)) in
    (
      suc j,
      ids-append qs (q ∷ []) ∙ rw (e, id, now) refl,
      All-append (IsCellQuorum n) qs (q ∷ []) cells
          ((row, col, r, c, omega (arith, now, in_n, size, more), refl), tt),
      omega (arith, size, more, in_n),
      omega (arith, now),
      inl (omega (arith, now)),
    )

-- Once all quorums are there nothing is added.
Built-full : (n t t' : ℕ) (qs : List Quorum) → length qs ≡ n → t ≤ t' → Built n t qs → Built n t' qs
Built-full n t t' qs full l (j, e, cells, in_n, in_t, at) =
    (j, e, cells, in_n, omega (arith, in_t, l), inr (sym (Built-length n j qs e) ∙ full))

assign_columns-Built :
    (n row col left : ℕ) (qs : List Quorum)
    → row < side n
    → col + left ≡ side n
    → Built n (row * side n + col) qs
    → Built n (row * side n + side n) (assign_columns (matrix n) (side n) n row col left qs)
unfolding assign_columns
assign_columns-Built n row col zero qs r e b =
    subst (λ c. Built n (row * side n + c) qs) (omega (arith, e)) b
assign_columns-Built n row col (suc left) qs r e b = elim (Bool-cases (length qs == n)) [
  | inl full ↦ rw full (
      Built-full n (row * side n + col) (row * side n + side n) qs (ground arith) (omega (arith, e))
        b)
  | inr more ↦ rw more (
      assign_columns-Built n row (suc col) left (qs ++ (quorum (matrix n) (side n) row col ∷ [])) r
        (omega (arith, e)) (Built-push n row col qs r (omega (arith, e)) (ground arith) b))
]

assign_rows-Built :
    (n row left : ℕ) (qs : List Quorum)
    → row + left ≡ side n
    → Built n (row * side n) qs
    → Built n (side n * side n) (assign_rows (matrix n) (side n) n row left qs)
unfolding assign_rows
assign_rows-Built n row zero qs e b = subst (λ r. Built n (r * side n) qs) (omega (arith, e)) b
assign_rows-Built n row (suc left) qs e b =
    let b0 : Built n (row * side n + 0) qs = subst (λ t. Built n t qs) (omega arith) b in
    let b1 : Built n (row * side n + side n)
        (assign_columns (matrix n) (side n) n row 0 (side n) qs) =
      assign_columns-Built n row 0 (side n) qs (omega (arith, e)) (omega arith) b0 in
    assign_rows-Built n (suc row) left (assign_columns (matrix n) (side n) n row 0 (side n) qs)
      (omega (arith, e))
      (subst (λ t. Built n t (assign_columns (matrix n) (side n) n row 0 (side n) qs)) (omega arith)
        b1)

-- Of `n` nodes each gets one quorum, in order, and each quorum is that of a cell.
pub quorum_assignment-ids :
    (n : ℕ)
    → (ids (quorum_assignment n) ≡ first_nodes n) × All (IsCellQuorum n) (quorum_assignment n)
unfolding quorum_assignment
quorum_assignment-ids n =
    let (j, e, cells, in_n, in_t, at) =
      assign_rows-Built n 0 (side n) [] (omega arith)
        (0, refl, tt, omega arith, omega arith, inl (omega arith)) in
    let all : j ≡ n = omega (arith, side-enough n, in_n, at) in (rw all at e, cells)
