-- ===== src/TestBed.antt =====
-- testbed.cpp, `main`: a run of both algorithms, and the results of each.
pub mod Calls
pub mod Servers
pub mod Rounds
pub mod Examples
use aosproject.Prelude.{
  ℕ, zero, suc, ◌+◌, ◌-◌, ◌*◌, ◌/◌, ◌%◌, ◌^◌, ◌≤◌, ◌<◌, ◌≡◌, refl, sym, ap, ◌∙◌, subst, ◌≢◌, ◌↔◌,
  ◌⊎◌, inl, inr, Bool, true, false, ◌&&◌, ◌||◌, not, Option, none, some, List, [], ◌∷◌, ◌++◌, map,
  append-nil, append_assoc, arith, ltb, leb, ◌==◌, if◌then◌else◌, ==_iff, Bool-cases, Option-cases,
  ◌>>=◌, >>=-eq-some, length, get_elem?, set, take, drop, replicate, In, All, length-append,
  length-replicate, In-append_left, In-append_right, In-append_cases, All-append, All-In, ℤ, pos,
  negsuc, minus_one, ◌==ℤ◌, ltb_ℤ, suc_ℤ, pred_ℤ, to_unsigned, ℤ-discrete, ◌+ℤ◌, quotient, ==ℤ_iff,
  ==ℤ_refl, ltb_ℤ_irrefl, ltb_ℤ_trans, ltb_ℤ_connex,
}
use aosproject.Text.{Bytes}
use aosproject.Text.Decimal.{codes}
use aosproject.Text.Equal.{same_bytes}
use aosproject.Node.Config.{Files}
use aosproject.Quorum.Assignment.{quorum_assignment}
use aosproject.Quorum.Write.{write_quorums}
use aosproject.Schedule.Write.{Config, write_config}
use aosproject.Schedule.Read.{read_config}
use aosproject.Contact.{contact_servers}
use aosproject.Results.Log.{Data, get_results}
use aosproject.TestBed.Calls.{Arrival, term_wait as wait_for_nodes}

-- The two numbers in ports.txt: of the listening servers, and of the switches.
pub data Port : Type 0 where
  lport : Port
  aport : Port

-- What `main` does to the hosts and to the files, in its order.
pub data Effect : Type 0 where
  contact : Port → Bytes → List Bytes → Effect  -- each of these servers gets the text
  pause : ℕ → Effect  -- sleep
  term_wait : ℕ → Effect  -- until as many connections have come
  collect : Effect  -- get_results
  clear_logs : Effect
  cleanup : Effect

-- The number of nodes: a loop that counts a negative one down to 0 does not end.
unfoldable pub count_of : ℤ → Option ℕ
count_of (pos n) = some n
count_of (negsuc n) = none

unfoldable pub plan : ℕ → List Bytes → List Effect
plan n servers =
    contact Port.lport (codes "0") servers
    ∷ pause 20
    ∷ contact Port.aport (codes "START") servers
    ∷ term_wait n
    ∷ contact Port.aport (codes "END") servers
    ∷ collect
    ∷ clear_logs
    ∷ contact Port.lport (codes "1") servers
    ∷ pause 20
    ∷ contact Port.aport (codes "START") servers
    ∷ term_wait n
    ∷ contact Port.aport (codes "END") servers
    ∷ pause 20
    ∷ contact Port.lport (codes "EXIT") servers
    ∷ collect
    ∷ clear_logs
    ∷ cleanup
    ∷ []

-- What a run leaves, and the results that it prints under the names of the algorithms.
pub record Outcome : Type 0 where
  pub files : Files
  pub effects : List Effect
  pub maekawa : Data
  pub ours : Data

-- `main`, with the logs as they are when each of the two results is collected, and what `accept` and
-- `recv` give on the socket that `term_listen` made, over the whole run: `none` where a `term_wait`
-- goes on waiting, and the program with it.
unfoldable pub run_testbed : ℕ → Files → Files → Files → List Arrival → Option Outcome
unfolding count_of plan wait_for_nodes
run_testbed fuel files logs1 logs2 arrivals = do
  c ← read_config fuel (files (codes "config.txt"))
  n ← count_of c.num_nodes
  files1 ← write_quorums (quorum_assignment n) files
  servers ← contact_servers (n + n) n
  later ← wait_for_nodes n arrivals
  res1 ← get_results n logs1
  last ← wait_for_nodes n later
  res2 ← get_results n logs2
  some (record {
    files = write_config c files1;
    effects = plan n servers;
    maekawa = res1;
    ours = res2;
  })
