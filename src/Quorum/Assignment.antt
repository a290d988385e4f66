-- ===== src/Quorum/Assignment.antt =====
-- `QuorumAssignment`: the quorum of each node, its row and its column of the matrix.
pub mod Built
use aosproject.Prelude.{
  ℕ, zero, suc, ◌+◌, ◌-◌, ◌*◌, ◌/◌, ◌%◌, ◌^◌, ◌≤◌, ◌<◌, ◌≡◌, refl, sym, ap, ◌∙◌, subst, ◌≢◌, ◌↔◌,
  ◌⊎◌, inl, inr, Bool, true, false, ◌&&◌, ◌||◌, not, Option, none, some, List, [], ◌∷◌, ◌++◌, map,
  append-nil, append_assoc, arith, ltb, leb, ◌==◌, if◌then◌else◌, ==_iff, Bool-cases, Option-cases,
  ◌>>=◌, >>=-eq-some, length, get_elem?, set, take, drop, replicate, In, All, length-append,
  length-replicate, In-append_left, In-append_right, In-append_cases, All-append, All-In, ℤ, pos,
  negsuc, minus_one, ◌==ℤ◌, ltb_ℤ, suc_ℤ, pred_ℤ, to_unsigned, ℤ-discrete, ==ℤ_iff, ==ℤ_refl,
  ltb_ℤ_irrefl, ltb_ℤ_trans, ltb_ℤ_connex,
}
use aosproject.Quorum.Grid.{side, matrix, cell, node_at, side-enough, matrix-cell}

pub record Quorum : Type 0 where
  pub id : ℤ
  pub members : List ℤ

abbrev push_node : ℤ → List ℤ → List ℤ
push_node x xs = if x ==ℤ minus_one then xs else x ∷ xs

-- The loop over `idx`: the nodes of a row.
unfoldable pub row_members : List (List ℤ) → ℕ → ℕ → ℕ → List ℤ
unfolding cell
row_members m row idx zero = []
row_members m row idx (suc left) = push_node (cell m row idx) (row_members m row (suc idx) left)

-- The loop over `temp`: the nodes of a column in the other rows.
unfoldable pub column_members : List (List ℤ) → ℕ → ℕ → ℕ → ℕ → List ℤ
unfolding cell
column_members m row col temp zero = []
column_members m row col temp (suc left) =
    let more = column_members m row col (suc temp) left in
    if temp == row then more else push_node (cell m temp col) more

unfoldable pub quorum : List (List ℤ) → ℕ → ℕ → ℕ → Quorum
unfolding row_members column_members cell
quorum m k row col = record {
  id = cell m row col;
  members = row_members m row 0 k ++ column_members m row col 0 k;
}

-- The loop over `col`, which stops when all quorums are there.
unfoldable pub assign_columns : List (List ℤ) → ℕ → ℕ → ℕ → ℕ → ℕ → List Quorum → List Quorum
unfolding quorum
assign_columns m k n row col zero qs = qs
assign_columns m k n row col (suc left) qs =
    let more = assign_columns m k n row (suc col) left (qs ++ (quorum m k row col ∷ [])) in
    if length qs == n then qs else more

unfoldable pub assign_rows : List (List ℤ) → ℕ → ℕ → ℕ → ℕ → List Quorum → List Quorum
unfolding assign_columns
assign_rows m k n row zero qs = qs
assign_rows m k n row (suc left) qs =
    assign_rows m k n (suc row) left (assign_columns m k n row 0 k qs)

unfoldable pub quorum_assignment : ℕ → List Quorum
unfolding assign_rows matrix side
quorum_assignment n = assign_rows (matrix n) (side n) n 0 (side n) []

row_members-In :
    (m : List (List ℤ)) (row idx left j : ℕ)
    → j < left
    → cell m row (idx + j) ≢ minus_one
    → In (cell m row (idx + j)) (row_members m row idx left)
unfolding row_members
row_members-In m row idx zero j h e = ground arith
row_members-In m row idx (suc left) zero h e = ground (arith, ==ℤ_iff (cell m row idx) minus_one)
row_members-In m row idx (suc left) (suc j) h e =
    ground (arith, row_members-In m row (suc idx) left j)

column_members-In :
    (m : List (List ℤ)) (row col temp left j : ℕ)
    → j < left
    → temp + j ≢ row
    → cell m (temp + j) col ≢ minus_one
    → In (cell m (temp + j) col) (column_members m row col temp left)
unfolding column_members
column_members-In m row col temp zero j h o e = ground arith
column_members-In m row col temp (suc left) zero h o e =
    ground (arith, ==ℤ_iff (cell m temp col) minus_one)
column_members-In m row col temp (suc left) (suc j) h o e =
    ground (arith, column_members-In m row col (suc temp) left j)

row_members-length :
    (m : List (List ℤ)) (row idx left : ℕ) → length (row_members m row idx left) ≤ left
unfolding row_members
row_members-length m row idx zero = omega arith
row_members-length m row idx (suc left) = ground (arith, row_members-length m row (suc idx) left)

column_members-length_max :
    (m : List (List ℤ)) (row col temp left : ℕ) → length (column_members m row col temp left) ≤ left
unfolding column_members
column_members-length_max m row col temp zero = omega arith
column_members-length_max m row col temp (suc left) =
    ground (arith, column_members-length_max m row col (suc temp) left)

column_members-length :
    (m : List (List ℤ)) (row col temp left : ℕ)
    → row < temp + left
    → temp ≤ row
    → length (column_members m row col temp left) < left
unfolding column_members
column_members-length m row col temp zero h t = ground arith
column_members-length m row col temp (suc left) h t = ground (
  arith,
  column_members-length_max m row col (suc temp) left,
  column_members-length m row col (suc temp) left,
)

-- The quorum of a row and a column: it holds what stands in either, and misses one of their cells.
pub quorum_row :
    (m : List (List ℤ)) (k row col j : ℕ)
    → j < k
    → cell m row j ≢ minus_one
    → In (cell m row j) (quorum m k row col).members
unfolding quorum
quorum_row m k row col j h e =
    In-append_left (cell m row j) (row_members m row 0 k) (column_members m row col 0 k)
      (ground (arith, row_members-In m row 0 k j))

pub quorum_column :
    (m : List (List ℤ)) (k row col j : ℕ)
    → j < k
    → j ≢ row
    → cell m j col ≢ minus_one
    → In (cell m j col) (quorum m k row col).members
unfolding quorum
quorum_column m k row col j h o e =
    In-append_right (cell m j col) (row_members m row 0 k) (column_members m row col 0 k)
      (ground (arith, column_members-In m row col 0 k j))

pub quorum-length :
    (m : List (List ℤ)) (k row col : ℕ) → row < k → length (quorum m k row col).members < k + k
unfolding quorum
quorum-length m k row col h = omega (
  arith,
  length-append (row_members m row 0 k) (column_members m row col 0 k),
  row_members-length m row 0 k,
  column_members-length m row col 0 k (omega (arith, h)) (omega arith),
)

module _ (P : ℤ → Type 0) (m : List (List ℤ)) where
  row_members-All :
      (row idx left : ℕ)
      → ((j : ℕ) → j < idx + left → cell m row j ≢ minus_one → P (cell m row j))
      → All P (row_members m row idx left)
  unfolding row_members
  row_members-All row idx zero h = tt
  row_members-All row idx (suc left) h = ground (
    arith,
    h idx,
    ==ℤ_iff (cell m row idx) minus_one,
    row_members-All row (suc idx) left (λ j l. h j (omega (arith, l))),
  )

  column_members-All :
      (row col temp left : ℕ)
      → ((j : ℕ) → j < temp + left → cell m j col ≢ minus_one → P (cell m j col))
      → All P (column_members m row col temp left)
  unfolding column_members
  column_members-All row col temp zero h = tt
  column_members-All row col temp (suc left) h = ground (
    arith,
    h temp,
    ==ℤ_iff (cell m temp col) minus_one,
    column_members-All row col (suc temp) left (λ j l. h j (omega (arith, l))),
  )

  -- A quorum consists of cells that hold a node.
  pub quorum-All :
      (k row col : ℕ)
      → ((r c : ℕ)
          → (r < k) ⊎ (r ≡ row)
          → (c < k) ⊎ (c ≡ col)
          → cell m r c ≢ minus_one
          → P (cell m r c))
      → All P (quorum m k row col).members
  unfolding quorum
  quorum-All k row col h =
      All-append P (row_members m row 0 k) (column_members m row col 0 k)
        (row_members-All row 0 k (λ j l. h row j (inr refl) (inl (omega (arith, l)))))
        (column_members-All row col 0 k (λ j l. h j col (inl (omega (arith, l))) (inr refl)))
