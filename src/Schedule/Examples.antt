-- ===== src/Schedule/Examples.antt =====
-- A config.txt, as it is read and as it reaches the nodes.
use aosproject.Prelude.{ℕ, ◌≡◌, refl, some, List, [], ◌∷◌, arith, ◌>>=◌, All, pos}
use aosproject.Text.Decimal.{codes}
use aosproject.Text.{atoi}
use aosproject.Node.Config.{to_ulong}
use aosproject.Node.Config.{parse_schedule}
use aosproject.Node.State.{new as new_node}
use aosproject.Quorum.Write.{host}
use aosproject.Schedule.Write.{Config, write_config}
use aosproject.Schedule.ReadBack.{IsSetOf}
use aosproject.Schedule.Read.{read_config}
use aosproject.Schedule.ConfigText.{
  Time, remark, gap, request, Line, comment, blank, num_nodes, net_reliable, net_congested,
  res_alloc_time, requests, file_text, IsLine,
}
use aosproject.Schedule.EndToEnd.{config_reaches_nodes}

abbrev time : ℕ → ℕ → ℕ → Time
time m s ms = record { minutes = m; seconds = s; milliseconds = ms }

abbrev sample : List Line
sample =
    comment (codes "use it")
    ∷ blank
    ∷ num_nodes (pos 4)
    ∷ net_reliable (pos 1)
    ∷ net_congested (pos 0)
    ∷ res_alloc_time (time 0 0 5)
    ∷ requests (
        gap
        ∷ request 1 (time 0 0 10)
        ∷ request 2 (time 0 1 15)
        ∷ remark (codes "(3,0:0:15)")
        ∷ request 1 (time 1 0 20)
        ∷ [])
    ∷ []

sample-IsLine : All IsLine sample
sample-IsLine = ground arith

config_reaches_nodes_example :
    (c : Config) × (read_config 14 (file_text sample) ≡ some c)
    × ((parse_schedule (write_config c (λ name. [])) (new_node (pos (host 1)))).cs_time ≡ 5)
    × IsSetOf
        (parse_schedule (write_config c (λ name. [])) (new_node (pos (host 1)))).time_schedule
        (10 ∷ 60020 ∷ [])
config_reaches_nodes_example =
    config_reaches_nodes sample 14 1 (λ name. []) sample-IsLine (omega arith) (omega arith)
      (omega arith)

-- What is missing reads as nothing, and what follows the bracket is not read.
loose_request :
    (read_config 6 (codes "request_start\n(2,:1:15)x\nrequest_end\n") >>= λ c. some (c.times 2))
    ≡ some (1015 ∷ [])
unfolding read_config atoi to_ulong
loose_request = refl
