-- ===== src/Quorum/Grid.antt =====
-- The matrix of `QuorumAssignment`: its side, and the nodes in it.
use aosproject.Prelude.{
  ℕ, zero, suc, ◌+◌, ◌*◌, ◌≤◌, ◌<◌, ◌≡◌, Option, none, some, List, [], ◌∷◌, arith, ltb, leb,
  if◌then◌else◌, get_elem?, ℤ, pos, minus_one,
}

-- `while ((K*K) < n) K++;`, with `n` rounds of fuel.
unfoldable pub side_from : ℕ → ℕ → ℕ → ℕ
side_from zero k n = k
side_from (suc fuel) k n = let more = side_from fuel (suc k) n in if ltb (k * k) n then more else k

unfoldable pub side : ℕ → ℕ
unfolding side_from
side n = side_from n 1 n

-- The matrix starts out as `-1` everywhere. One row of the loops that enter the node numbers, and the
-- count after it.
unfoldable pub fill_row : ℕ → ℕ → ℕ → List ℤ × ℕ
fill_row zero n count = ([], count)
fill_row (suc left) n count =
    let (cells, after) = fill_row left n (if leb count n then suc count else count) in
    ((if leb count n then pos count else minus_one) ∷ cells, after)

unfoldable pub fill_rows : ℕ → ℕ → ℕ → ℕ → List (List ℤ)
unfolding fill_row
fill_rows zero cols n count = []
fill_rows (suc left) cols n count =
    let (cells, after) = fill_row cols n count in cells ∷ fill_rows left cols n after

unfoldable pub matrix : ℕ → List (List ℤ)
unfolding side fill_rows
matrix n = fill_rows (side n) (side n) n 1

unfoldable pub or_free : Option ℤ → ℤ
or_free none = minus_one
or_free (some x) = x

unfoldable pub row_of : List (List ℤ) → ℕ → List ℤ
row_of [] row = []
row_of (cells ∷ rest) zero = cells
row_of (cells ∷ rest) (suc row) = row_of rest row

-- `myMatrix[row][col]`; no loop goes out of its bounds.
unfoldable pub cell : List (List ℤ) → ℕ → ℕ → ℤ
unfolding or_free row_of
cell m row col = or_free (get_elem? (row_of m row) col)

-- What the fill should leave: the nodes in reading order.
abbrev pub node_at : ℕ → ℕ → ℕ → ℤ
node_at n row col =
    if leb (row * side n + col + 1) n then pos (row * side n + col + 1) else minus_one

-- The count after `k` more cells.
abbrev counted : ℕ → ℕ → ℕ → ℕ
counted n count k = if leb (count + k) (suc n) then count + k else suc n

fill_row-after :
    (left n count : ℕ) → count ≤ suc n → (fill_row left n count).1 ≡ counted n count left
unfolding fill_row
fill_row-after zero n count h = ground arith
fill_row-after (suc left) n count h =
    ground (arith, fill_row-after left n (if leb count n then suc count else count))

fill_row-cell :
    (left n count col : ℕ)
    → col < left
    → count ≤ suc n
    → get_elem? (fill_row left n count).0 col
      ≡ some (if leb (count + col) n then pos (count + col) else minus_one)
unfolding fill_row
fill_row-cell zero n count col l h = ground arith
fill_row-cell (suc left) n count zero l h = ground arith
fill_row-cell (suc left) n count (suc col) l h =
    ground (arith, fill_row-cell left n (if leb count n then suc count else count) col)

fill_rows-row :
    (left cols n count row : ℕ)
    → row < left
    → count ≤ suc n
    → row_of (fill_rows left cols n count) row ≡ (fill_row cols n (counted n count (row * cols))).0
unfolding fill_rows row_of
fill_rows-row zero cols n count row l h = ground arith
fill_rows-row (suc left) cols n count zero l h = ground arith
fill_rows-row (suc left) cols n count (suc row) l h =
    let after = fill_row-after cols n count h in
    let r = fill_rows-row left cols n (fill_row cols n count).1 row in ground (arith, after, r)

side_from-enough :
    (fuel k n : ℕ) → n ≤ (k + fuel) * (k + fuel) → n ≤ side_from fuel k n * side_from fuel k n
unfolding side_from
side_from-enough zero k n h = ground arith
side_from-enough (suc fuel) k n h = ground (arith, side_from-enough fuel (suc k) n)

-- The side is the least one with room for all nodes.
pub side-enough : (n : ℕ) → n ≤ side n * side n
unfolding side
side-enough n = side_from-enough n 1 n (ground arith)

-- A cell of the matrix within its sides.
pub matrix-cell :
    (n row col : ℕ) → row < side n → col < side n → cell (matrix n) row col ≡ node_at n row col
unfolding matrix cell or_free
matrix-cell n row col r c =
    let start = counted n 1 (row * side n) in
    let is_row = fill_rows-row (side n) (side n) n 1 row r (omega arith) in
    let is_cell = fill_row-cell (side n) n start col c in rw is_row (ground (arith, is_cell))

side_from-least : (fuel k n j : ℕ) → k ≤ j → j < side_from fuel k n → j * j < n
unfolding side_from
side_from-least zero k n j l h = omega (arith, l, h)
side_from-least (suc fuel) k n j l h = ground (arith, side_from-least fuel (suc k) n j)

pub side-least : (n j : ℕ) → 1 ≤ j → j < side n → j * j < n
unfolding side
side-least n j l h = side_from-least n 1 n j l h
