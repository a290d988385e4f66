-- ===== src/TestBed/Calls.antt =====
-- `forward`, `term_listen` and `term_wait` of testbed.cpp, by the results of their system calls.
use aosproject.Prelude.{
  ℕ, zero, suc, ◌≤◌, ◌<◌, ◌≡◌, refl, Bool, not, Option, none, some, List, [], ◌∷◌, arith, ◌==◌,
  if◌then◌else◌, length, drop, ℤ, pos, minus_one, ◌==ℤ◌, to_unsigned,
}
use aosproject.Text.{Bytes}
use aosproject.Network.Frame.{c_string}

pub record Calls : Type 0 where
  pub lookup : ℤ  -- getaddrinfo
  pub found : Bool  -- a result other than NULL
  pub socket : ℤ
  pub connect : ℤ
  pub written : ℕ  -- an error of `write`, as an `unsigned long`, is no length of a text

-- `forward`: the text up to its first zero is written.
unfoldable pub forward : Calls → Bytes → ℕ
unfolding c_string
forward calls msg =
    if not (calls.lookup ==ℤ pos 0)
    then 5
    else if not calls.found
    then 4
    else if calls.socket ==ℤ minus_one
    then 1
    else if calls.connect ==ℤ minus_one
    then 2
    else if not (calls.written == length (c_string msg))
    then 3
    else 0

-- `term_listen`, with the results of `socket` and `listen`: what it prints, and the socket, which it
-- returns also when it cannot listen.
pub data Printed : Type 0 where
  failed_to_listen : Printed
  nothing : Printed

unfoldable pub term_listen : ℤ → ℤ → Printed × ℕ
unfolding to_unsigned
term_listen socket listen =
    ((if listen ==ℤ pos 0 then Printed.nothing else Printed.failed_to_listen), to_unsigned socket)

-- What `accept` returns, and what is received.
abbrev pub Arrival : Type 0
Arrival = ℤ × Bytes

-- `while( count < num_nodes)`, with the connections that are left; `none` waits for more.
term_wait_from : ℕ → List Arrival → Option (List Arrival)
term_wait_from zero arrivals = some arrivals
term_wait_from (suc left) [] = none
term_wait_from (suc left) (a ∷ arrivals) = term_wait_from left arrivals

unfoldable pub term_wait : ℕ → List Arrival → Option (List Arrival)
unfolding term_wait_from
term_wait num_nodes arrivals = term_wait_from num_nodes arrivals

-- It returns after as many calls of `accept` as there are nodes, and no earlier, whether they failed,
-- and whoever has sent what over the connections.
pub term_wait_counts :
    (num_nodes : ℕ) (arrivals : List Arrival)
    → (num_nodes ≤ length arrivals → term_wait num_nodes arrivals ≡ some (drop num_nodes arrivals))
      × (length arrivals < num_nodes → term_wait num_nodes arrivals ≡ none)
unfolding term_wait term_wait_from
term_wait_counts zero arrivals = (λ e. refl, λ l. absurd (omega (arith, l)))
term_wait_counts (suc left) [] = (λ e. absurd (omega (arith, e)), λ l. refl)
term_wait_counts (suc left) (a ∷ arrivals) =
    let later = term_wait_counts left arrivals in
    (λ e. later.0 (omega (arith, e)), λ l. later.1 (omega (arith, l)))
