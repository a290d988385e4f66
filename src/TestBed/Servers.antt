-- ===== src/TestBed/Servers.antt =====
-- What the listening servers start, over the connections of a run.
use aosproject.Prelude.{
  ℕ, zero, suc, ◌+◌, ◌%◌, ◌≤◌, ◌<◌, ◌≡◌, refl, sym, ap, ◌∙◌, subst, ◌≢◌, ◌⊎◌, inl, inr, true, false,
  List, [], ◌∷◌, ◌++◌, arith, ◌==◌, if◌then◌else◌, Bool-cases, pos, ◌==ℤ◌,
}
use aosproject.Text.{Bytes, show_int, atoi}
use mathlib.Core.Option.{some-injective}
use aosproject.Text.Decimal.{codes, show_nat, digits}
use aosproject.Text.Equal.{same_bytes, same_bytes_iff}
use aosproject.Quorum.Write.{host}
use aosproject.Network.Accept.{switch_netid}
use aosproject.Network.Frame.{c_string}
use aosproject.Schedule.Read.{reads_as}
use aosproject.Contact.{server_name, names_from}
use aosproject.ListenServer.{
  get_netid-server_name, get_netid, get_role, Command, node_out, run_switch, listen, serve,
  serve_message, start, Algorithm, algorithm_of,
}
use aosproject.TestBed.{Port, Effect, contact, pause, term_wait, collect, clear_logs, cleanup, plan}

-- The connections to one server among those to many: in each the text comes, and nothing more.
abbrev connections_among : Bytes → Bytes → List Bytes → List (List Bytes)
connections_among server text [] = []
connections_among server text (name ∷ names) =
    let more = connections_among server text names in
    if same_bytes server name then (text ∷ []) ∷ more else more

-- The connections to the listening server of a host over a run.
abbrev pub connections : Bytes → List Effect → List (List Bytes)
connections server [] = []
connections server (contact Port.lport text names ∷ es) =
    connections_among server text names ++ connections server es
connections server (contact Port.aport text names ∷ es) = connections server es
connections server (pause n ∷ es) = connections server es
connections server (term_wait n ∷ es) = connections server es
connections server (collect ∷ es) = connections server es
connections server (clear_logs ∷ es) = connections server es
connections server (cleanup ∷ es) = connections server es

server_name_injective : (x y : ℕ) → x < 100 → y < 100 → server_name x ≡ server_name y → x ≡ y
server_name_injective x y l m e =
    let same : pos x ≡ pos y =
      some-injective _ _
        (sym (get_netid-server_name x l) ∙ ap get_netid e ∙ get_netid-server_name y m) in
    ground (arith, same)

other_server :
    (x y : ℕ) → x < 100 → y < 100 → x ≢ y → same_bytes (server_name x) (server_name y) ≡ false
other_server x y l m d =
    ground (arith, same_bytes_iff (server_name x) (server_name y), server_name_injective x y l m, d)

same_server : (s : Bytes) → same_bytes s s ≡ true
same_server s = (same_bytes_iff s s).1 refl

three_ways : (x a : ℕ) → (x ≡ a) ⊎ ((x < a) ⊎ (a < x))
three_ways x a = ground arith

none_among :
    (x a k : ℕ) (text : Bytes) (rest : List Bytes)
    → x < 100
    → a + k ≤ 100
    → (x < a) ⊎ (a + k ≤ x)
    → connections_among (server_name x) text (names_from a k ++ rest)
      ≡ connections_among (server_name x) text rest
none_among x a zero text rest l m out = refl
none_among x a (suc k) text rest l m out =
    rw (other_server x a l (omega (arith, m)) (ground (arith, out)))
      (none_among x (suc a) k text rest l (omega (arith, m)) (ground (arith, out)))

one_among :
    (x a k : ℕ) (text : Bytes) (rest : List Bytes)
    → x < 100
    → a + k ≤ 100
    → a ≤ x
    → x < a + k
    → connections_among (server_name x) text (names_from a k ++ rest)
      ≡ (text ∷ []) ∷ connections_among (server_name x) text rest
one_among x a zero text rest l m low high = absurd (omega (arith, low, high))
one_among x a (suc k) text rest l m low high = elim (three_ways x a) [
  | inl here ↦
      rw
        (subst (λ b. same_bytes (server_name x) (server_name b) ≡ true) here
          (same_server (server_name x)))
        (ap (λ c. (text ∷ []) ∷ c)
          (none_among x (suc a) k text rest l (omega (arith, m)) (inl (omega (arith, here)))))
  | inr (inl below) ↦ absurd (omega (arith, low, below))
  | inr (inr above) ↦ rw (other_server x a l (omega (arith, m)) (ground (arith, above))) (
      one_among x (suc a) k text rest l (omega (arith, m)) (omega (arith, above))
        (omega (arith, high)))
]

-- A server that is contacted: up to the host of the last node, or the switch of that host.
abbrev pub IsContacted : ℕ → ℕ → Type 0
IsContacted n x = ((1 ≤ x) × (x ≤ host n)) ⊎ (x ≡ switch_netid (host n))

switch_beyond : (n : ℕ) → n ≤ 36 → (host n < switch_netid (host n)) × (switch_netid (host n) < 100)
unfolding switch_netid
switch_beyond n h = ground (arith, h)

pub once_among :
    (n x : ℕ) (text : Bytes)
    → n ≤ 36
    → IsContacted n x
    → connections_among
        (server_name x)
        text
        (names_from 1 (host n) ++ (server_name (switch_netid (host n)) ∷ []))
      ≡ (text ∷ []) ∷ []
once_among n x text h (inl (low, high)) =
    let (beyond, small) = switch_beyond n h in
    one_among x 1 (host n) text _ (omega (arith, high, h)) (omega (arith, h)) low
      (omega (arith, high))
    ∙ rw
        (other_server x (switch_netid (host n)) (omega (arith, high, h)) small
          (λ e. omega (arith, e, high, beyond)))
        refl
once_among n x text h (inr is_switch) =
    let (beyond, small) = switch_beyond n h in
    none_among x 1 (host n) text _ (omega (arith, is_switch, small)) (omega (arith, h))
      (inr (omega (arith, is_switch, beyond)))
    ∙ rw (is_switch, same_server (server_name (switch_netid (host n)))) refl

pub connections_over :
    (n : ℕ) (server : Bytes) (servers : List Bytes)
    → ((text : Bytes) → connections_among server text servers ≡ (text ∷ []) ∷ [])
    → connections server (plan n servers)
      ≡ (codes "0" ∷ []) ∷ (codes "1" ∷ []) ∷ (codes "EXIT" ∷ []) ∷ []
unfolding plan
connections_over n server servers once =
    rw (once (codes "0"), once (codes "1"), once (codes "EXIT")) refl

-- What a host starts in a run, once for each algorithm.
abbrev pub starts : ℕ → List Command
starts x =
    if x % 5 == 0
    then run_switch ∷ run_switch ∷ []
    else node_out (show_int (pos x)) (codes "0") ∷ node_out (show_int (pos x)) (codes "1") ∷ []

pub listen_run :
    (x : ℕ)
    → listen (get_role x) x ((codes "0" ∷ []) ∷ (codes "1" ∷ []) ∷ (codes "EXIT" ∷ []) ∷ [])
      ≡ starts x
unfolding listen serve serve_message get_role start reads_as c_string same_bytes show_int show_nat
    digits atoi
listen_run x = elim (Bool-cases (x % 5 == 0)) [
  | inl switch ↦ rw switch refl
  | inr node ↦ rw node refl
]

-- The algorithms that the programs of a node run.
abbrev pub algorithms : List Command → List Algorithm
algorithms [] = []
algorithms (node_out netid algorithm ∷ cs) = algorithm_of algorithm ∷ algorithms cs
algorithms (run_switch ∷ cs) = algorithms cs

pub algorithms_run :
    (x : ℕ) → x % 5 ≢ 0 → algorithms (starts x) ≡ Algorithm.maekawa ∷ Algorithm.lak ∷ []
unfolding algorithm_of atoi ◌==ℤ◌
algorithms_run x h = let other : (x % 5 == 0) ≡ false = ground (arith, h) in rw other refl
