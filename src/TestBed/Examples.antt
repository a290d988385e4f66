-- ===== src/TestBed/Examples.antt =====
-- A run of the test bed for two nodes.
use aosproject.Prelude.{◌≡◌, refl, false, List, [], ◌∷◌, pos}
use aosproject.Text.{show_int}
use aosproject.Text.Decimal.{codes, show_nat, digits}
use aosproject.Node.Config.{Files}
use aosproject.Schedule.Read.{reads_as}
use aosproject.Text.Equal.{same_bytes}
use aosproject.Network.Frame.{c_string}
use aosproject.Schedule.ConfigText.{Line, comment, num_nodes, file_text}
use aosproject.Results.Log.{Data}
use aosproject.ListenServer.{get_role, node_out, serve, serve_message, start}
use aosproject.TestBed.Calls.{Arrival}

abbrev two_nodes : List Line
two_nodes = comment (codes "two nodes") ∷ num_nodes (pos 2) ∷ []

abbrev config_only : Files
config_only = λ name. file_text two_nodes

abbrev no_logs : Files
no_logs = λ name. []

abbrev nothing : Data
nothing = record { msg_count = 0; avg_length = pos 0; avg_wait = 0; runtime = 0; conflict = false }

-- Both nodes connect once in each of the two runs.
abbrev four : List Arrival
four = (pos 5, []) ∷ (pos 6, []) ∷ (pos 7, []) ∷ (pos 8, []) ∷ []

-- A listening server whose client has gone goes on receiving, whatever it was told but EXIT.
left_behind :
    serve (get_role 2) 2 (codes "1" ∷ [] ∷ [] ∷ [] ∷ [])
    ≡ (node_out (codes "2") (codes "1") ∷ [], false)
unfolding serve serve_message reads_as c_string same_bytes get_role start show_int show_nat digits
left_behind = refl
