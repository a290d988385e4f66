-- ===== src/Contact.antt =====
-- testbed.cpp, `contact_servers`: the listening servers that the test bed starts and stops.
use aosproject.Prelude.{
  ℕ, zero, suc, ◌+◌, ◌-◌, ◌*◌, ◌/◌, ◌%◌, ◌≤◌, ◌≡◌, ap, ◌≢◌, inl, inr, Option, none, some, List, [],
  ◌∷◌, ◌++◌, arith, ltb, ◌==◌, if◌then◌else◌, Bool-cases, ◌>>=◌, pos,
}
use aosproject.Text.{Bytes, show_int}
use aosproject.Text.Decimal.{codes}
use aosproject.Quorum.Write.{host}
use aosproject.Network.Accept.{switch_netid}

-- `to_addr`, for any number of a host.
unfoldable pub server_name : ℕ → Bytes
server_name current =
    if ltb current 10
    then codes "net0" ++ (show_int (pos current) ++ codes ".utdallas.edu")
    else codes "net" ++ (show_int (pos current) ++ codes ".utdallas.edu")

-- `while (count != 0)`: the servers that are contacted, and the number behind the last. `none` means
-- that the fuel ran out. A server that cannot be reached changes nothing.
unfoldable pub contact_from : ℕ → ℕ → ℕ → Option (List Bytes × ℕ)
unfolding server_name
contact_from fuel zero current = some ([], current)
contact_from zero (suc count) current = none
contact_from (suc fuel) (suc count) current = do
  (names, last) ← contact_from fuel (if current % 5 == 0 then suc count else count) (suc current)
  some (server_name current ∷ names, last)

-- The switch of the last group is contacted in the end.
unfoldable pub contact_servers : ℕ → ℕ → Option (List Bytes)
unfolding contact_from
contact_servers fuel num_nodes = do
  (names, current) ← contact_from fuel num_nodes 1
  let switch = if current % 5 == 0 then current else current + 5 - current % 5 in
      some (names ++ (server_name switch ∷ []))

-- The names of `k` servers in a row.
abbrev pub names_from : ℕ → ℕ → List Bytes
names_from current zero = []
names_from current (suc k) = server_name current ∷ names_from (suc current) k

-- Of the numbers up to `n`, those that are no switches.
abbrev nodes_to : ℕ → ℕ
nodes_to n = n - n / 5

contact_from_lem :
    (fuel count current k : ℕ)
    → 1 ≤ current
    → k ≤ fuel
    → (current - 1 + k) % 5 ≢ 0
    → count + nodes_to (current - 1) ≡ nodes_to (current - 1 + k)
    → contact_from fuel count current ≡ some (names_from current k, current + k)
unfolding contact_from
contact_from_lem fuel zero current zero c f m e = ground arith
contact_from_lem fuel zero current (suc k) c f m e = absurd (omega (arith, c, m, e))
contact_from_lem fuel (suc count) current zero c f m e = absurd (omega (arith, c, m, e))
contact_from_lem zero (suc count) current (suc k) c f m e = absurd (omega (arith, f))
contact_from_lem (suc fuel) (suc count) current (suc k) c f m e =
    elim (Bool-cases (current % 5 == 0)) [
      | inl switch ↦
          let on =
            contact_from_lem fuel (suc count) (suc current) k (omega arith) (omega (arith, f))
              (omega (arith, c, m)) (ground (arith, switch, c, e)) in
          rw (switch, on) (ap (λ l. some (names_from current (suc k), l)) (omega arith))
      | inr node ↦
          let on =
            contact_from_lem fuel count (suc current) k (omega arith) (omega (arith, f))
              (omega (arith, c, m)) (ground (arith, node, c, e)) in
          rw (node, on) (ap (λ l. some (names_from current (suc k), l)) (omega arith))
    ]

-- For one node or more, in twice as many rounds as there are nodes, the test bed contacts every
-- server up to the host of the last node, in order, and then the switch of that host.
pub contact_servers_lem :
    (n : ℕ)
    → 1 ≤ n
    → contact_servers (n + n) n
      ≡ some (names_from 1 (host n) ++ (server_name (switch_netid (host n)) ∷ []))
unfolding contact_servers switch_netid
contact_servers_lem n h =
    let loop =
      contact_from_lem (n + n) n 1 (host n) (omega arith) (omega (arith, h)) (omega (arith, h))
        (omega (arith, h)) in
    let current = 1 + host n in
    let switch : (if current % 5 == 0 then current else current + 5 - current % 5)
        ≡ 5 * (host n / 5 + 1) =
      ground (arith, h) in
    rw loop (ap (λ w. some (names_from 1 (host n) ++ (server_name w ∷ []))) switch)
