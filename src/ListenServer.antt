-- ===== src/ListenServer.antt =====
-- listenserver/lserver.cpp and node/main.cpp: how a host starts its node or its switch.
pub mod Main
use aosproject.Prelude.{
  ℕ, zero, suc, ◌/◌, ◌%◌, ◌≤◌, ◌<◌, ◌≡◌, refl, ap, inl, inr, Bool, true, false, ◌||◌, Option, none,
  some, List, [], ◌∷◌, ◌++◌, append-nil, arith, ltb, ◌==◌, if◌then◌else◌, Bool-cases, length, take,
  drop, replicate, ℤ, pos, ◌==ℤ◌,
}
use aosproject.Text.{Bytes, show_int, atoi}
use aosproject.Text.Decimal.{codes, digits, digit}
use aosproject.Text.Equal.{same_bytes}
use aosproject.Contact.{server_name}
use aosproject.Network.Frame.{c_string}
use aosproject.Schedule.Read.{reads_as}

-- `atoi` of the fourth and the fifth byte of the name of the host; `none` is a shorter name.
unfoldable pub get_netid : Bytes → Option ℤ
unfolding atoi
get_netid result = if ltb 4 (length result) then some (atoi (take 2 (drop 3 result))) else none

pub data Role : Type 0 where
  node : Role
  switch : Role

-- For a number of a host, which is not negative.
unfoldable pub get_role : ℕ → Role
get_role netid = if netid % 5 == 0 then Role.switch else Role.node

-- What `system` is called with: `./node.out` with its two arguments, or `./switch`.
pub data Command : Type 0 where
  node_out : Bytes → Bytes → Command
  run_switch : Command

unfoldable pub start : Role → ℕ → ℤ → Command
start Role.node netid algorithm = node_out (show_int (pos netid)) (show_int algorithm)
start Role.switch netid algorithm = run_switch

-- The commands for what `recv` left in the buffer, and whether the server returns.
unfoldable pub serve_message : Role → ℕ → Bytes → List Command × Bool
unfolding reads_as start atoi
serve_message role netid buff =
    if reads_as buff (codes "0") || reads_as buff (codes "1")
    then (start role netid (atoi buff) ∷ [], false)
    else if reads_as buff (codes "EXIT")
    then ([], true)
    else ([], false)

-- A connection, by what each `recv` leaves in the buffer: nothing, from when the client has gone.
unfoldable pub serve : Role → ℕ → List Bytes → List Command × Bool
unfolding serve_message
serve role netid [] = ([], false)
serve role netid (buff ∷ more) =
    let (now, done) = serve_message role netid buff in
    let (later, done') = serve role netid more in
    (if done then (now, true) else (now ++ later, done'))

-- The connections of a host one after the other; each has a process of its own.
unfoldable pub listen : Role → ℕ → List (List Bytes) → List Command
unfolding serve
listen role netid [] = []
listen role netid (c ∷ cs) =
    let (now, done) = serve role netid c in
    let later = listen role netid cs in (if done then now else now ++ later)

-- The algorithm that `node/main.cpp` runs for its second argument.
pub data Algorithm : Type 0 where
  maekawa : Algorithm
  lak : Algorithm

unfoldable pub algorithm_of : Bytes → Algorithm
unfolding atoi
algorithm_of argument = if atoi argument ==ℤ pos 1 then Algorithm.lak else Algorithm.maekawa

first_digit : (x : ℕ) → 10 ≤ x → x < 100 → digits x (x / 10) ≡ digit (x / 10) ∷ []
unfolding digits
first_digit zero l h = absurd (omega (arith, l))
first_digit (suc x) l h =
    let small : ltb (suc x / 10) 10 ≡ true = ground (arith, h) in rw small refl

-- A server reads its own number from its name.
pub get_netid-server_name : (x : ℕ) → x < 100 → get_netid (server_name x) ≡ some (pos x)
unfolding get_netid server_name show_int
get_netid-server_name x h = elim (Bool-cases (ltb x 10)) [
  | inl small ↦ rw small (ground (arith, small))
  | inr big ↦ rw (big, first_digit x (ground (arith, big)) h) (ground (arith, big, h))
]

silence : (role : Role) (netid k : ℕ) → serve role netid (replicate k []) ≡ ([], false)
unfolding serve serve_message reads_as same_bytes c_string
silence role netid zero = refl
silence role netid (suc k) = rw (silence role netid k) refl

message_goes_on :
    (role : Role) (netid : ℕ) (buff : Bytes)
    → reads_as buff (codes "EXIT") ≡ false
    → (serve_message role netid buff).1 ≡ false
unfolding serve_message
message_goes_on role netid buff h =
    elim (Bool-cases (reads_as buff (codes "0") || reads_as buff (codes "1"))) [
      | inl start ↦ rw start refl
      | inr no_start ↦ rw (no_start, h) refl
    ]

-- A server whose client has gone goes on receiving: nothing but EXIT ends a connection.
pub serve_goes_on :
    (role : Role) (netid k : ℕ) (buff : Bytes)
    → reads_as buff (codes "EXIT") ≡ false
    → serve role netid (buff ∷ replicate k []) ≡ ((serve_message role netid buff).0, false)
unfolding serve
serve_goes_on role netid k buff h =
    rw (message_goes_on role netid buff h, silence role netid k)
      (ap (λ c. (c, false)) (append-nil (serve_message role netid buff).0))
