-- ===== src/Examples.antt =====
-- Runs of the test bed, the network and the switch, and their theorems at them.
use aosproject.Prelude.{
  ℕ, ◌+◌, ◌≤◌, ◌<◌, ◌≡◌, refl, ◌⊎◌, ◌↔◌, inl, inr, true, false, none, some, List, [], ◌∷◌, ◌++◌,
  quotient, ◌+ℤ◌, arith, length, replicate, In, All, length-replicate, ℤ, pos, ◌==ℤ◌, to_unsigned,
}
use aosproject.Text.{Bytes, space}
use aosproject.Node.State.{Packet, receive, new as new_node}
use aosproject.Node.Config.{Files}
use aosproject.Quorum.Grid.{side, matrix, cell, side_from, fill_rows, fill_row, row_of, or_free}
use aosproject.Quorum.Assignment.{
  Quorum, quorum, quorum_assignment, row_members, column_members, assign_rows, assign_columns,
}
use aosproject.Quorum.Assignment.Built.{ids, IsCellQuorum, quorum_assignment-ids}
use aosproject.Quorum.Intersection.{IsNode, quorums_intersect, quorum_members}
use aosproject.Quorum.Write.{host, write_quorums}
use aosproject.Quorum.ReadBack.{set_read, quorum_files_meet}
use aosproject.Network.Frame.{frame, byte_at, c_string}
use aosproject.Network.Accept.{accept_message, accept_message-frame, switch_netid}
use aosproject.Switch.Main.{Connection, Outcome, accept_loop, main, main_drops_nothing}
use aosproject.Switch.Session.{
  Calls, Session, digit, handle_message, bytes, shutdown, handle, Event,
}
use aosproject.Switch.Forwarding.{
  IsDropped, IsServed, handle_message-IsServed, handle_message-frame,
}
use aosproject.Switch.Idle.{HasForward, IsIdle, handle_forwards_nothing}
use aosproject.Text.Stream.{strtol}
use aosproject.Text.{atoi}
use aosproject.Node.Config.{newline, parse_schedule}
use aosproject.Schedule.Write.{Config, write_config}
use aosproject.Schedule.ReadBack.{IsSetOf, parse_schedule-write_config}
use aosproject.Contact.{server_name, contact_servers, names_from, contact_servers_lem}
use aosproject.Results.Log.{Data, get_results}
use aosproject.Results.Blind.{Entries, logged, get_results_blind}
use aosproject.Results.{CritSec, get_conflict, Conflict, get_conflict_iff}

five : List Quorum
five = quorum_assignment 5

first_quorum : Quorum
first_quorum = quorum (matrix 5) (side 5) 0 0

last_quorum : Quorum
last_quorum = quorum (matrix 5) (side 5) 1 1

last_members : last_quorum.members ≡ pos 4 ∷ pos 5 ∷ pos 2 ∷ []
unfolding last_quorum quorum row_members column_members matrix side side_from fill_rows fill_row
    cell row_of or_free ◌==ℤ◌
last_members = refl

first-In : In first_quorum five
unfolding five quorum_assignment assign_rows assign_columns side side_from first_quorum
first-In = inl refl

last-In : In last_quorum five
unfolding five quorum_assignment assign_rows assign_columns side side_from last_quorum
last-In = inr (inr (inr (inr (inl refl))))

quorums_intersect_example :
    (a : ℤ) × IsNode 5 a × In a first_quorum.members × In a last_quorum.members
unfolding five
quorums_intersect_example = quorums_intersect 5 first_quorum last_quorum first-In last-In

quorum_members_example :
    In last_quorum.id last_quorum.members
    × All (IsNode 5) last_quorum.members
    × (length last_quorum.members < 6)
unfolding five
quorum_members_example = quorum_members 5 3 last_quorum last-In (omega arith)

quorum_assignment-ids_example :
    (ids five ≡ pos 1 ∷ pos 2 ∷ pos 3 ∷ pos 4 ∷ pos 5 ∷ []) × All (IsCellQuorum 5) five
unfolding five
quorum_assignment-ids_example = quorum_assignment-ids 5

-- The files of a fresh run.
abbrev no_files : Files
no_files = λ name. []

quorum_files_meet_example :
    (files' : Files) × (a : ℕ) × (write_quorums (quorum_assignment 20) no_files ≡ some files')
    × ((1 ≤ a) × (a ≤ 20))
    × In (pos (host a)) (set_read files' 3)
    × In (pos (host a)) (set_read files' 18)
quorum_files_meet_example =
    quorum_files_meet 20 3 18 no_files (omega arith) (omega arith) (omega arith)

packet : Packet
packet = record { from = 2; to = 3; timestamp = 70000; text = b'1' ∷ space ∷ b'2' ∷ [] }

accept_message-frame_example :
    accept_message (frame packet (9 ∷ 9 ∷ [])) (new_node (pos 3))
    ≡ receive packet.text (new_node (pos 3))
unfolding packet new_node to_unsigned
accept_message-frame_example =
    accept_message-frame packet (9 ∷ 9 ∷ []) (new_node (pos 3)) (omega arith) (omega arith)
      (omega arith) (λ e. omega (arith, e), (λ e. omega (arith, e), (λ e. omega (arith, e), tt)))
      (omega arith)

well : Calls
well = record { lookup = pos 0; found = true; socket = pos 3; connect = pos 0; written = pos 1024 }

connection : Session
connection = record {
  is_open = true;
  log_name = [];
  log = [];
  replies = digit 0 ∷ [];
  forwarded = [];
}

-- A message for host 7 that is lost, with zeros behind it.
handle_message-IsServed_example :
    ((1 ≤ 7)
      × (7 ≤ 45)
      × (¬ IsDropped 3 10 7)
      × (handle_message 3 10 well (7 ∷ 2 ∷ 0 ∷ []) connection ≡ none))
    ⊎ ((s' : Session) × (handle_message 3 10 well (7 ∷ 2 ∷ 0 ∷ []) connection ≡ some s')
        × IsServed 3 10 (7 ∷ 2 ∷ 0 ∷ []) connection s')
unfolding byte_at
handle_message-IsServed_example =
    handle_message-IsServed 3 10 well (7 ∷ 2 ∷ 0 ∷ []) connection (omega arith)

handle_message-frame_example :
    handle_message 1 0 well (frame packet (replicate 1014 9)) connection ≡ none
handle_message-frame_example =
    handle_message-frame 1 0 well connection packet (replicate 1014 9)
      (omega (arith, length-replicate {A = ℕ} 1014 9))

-- A control message, which is only logged.
abbrev one_message : List Event
one_message = (bytes (255 ∷ 2 ∷ []), 0, well) ∷ (shutdown, 0, well) ∷ []

handle_forwards_nothing_example :
    (((◌≡◌ {A = ℕ} 7 0) ⊎ (45 < 7))
      × (s : Session) × (handle 1 (b'7' ∷ []) one_message ≡ some s)
      × (s.log ≡ [])
      × (s.replies ≡ digit 1 ∷ []))
    ⊎ (((1 ≤ 7) × (7 ≤ 45))
        × ((HasForward 1 one_message × (handle 1 (b'7' ∷ []) one_message ≡ none))
            ⊎ ((¬ HasForward 1 one_message)
                × (s : Session) × (handle 1 (b'7' ∷ []) one_message ≡ some s)
                × IsIdle s)))
unfolding strtol c_string to_unsigned atoi
handle_forwards_nothing_example =
    handle_forwards_nothing 1 (b'7' ∷ []) one_message (omega arith, (tt, tt))

section_of : ℕ → ℕ → ℕ → CritSec
section_of node started finished = record {
  node = node;
  requested = 5;
  started = started;
  finished = finished;
}

get_conflict_iff_example :
    (get_conflict (section_of 1 10 20) (section_of 2 15 30 ∷ []) ≡ true)
    ↔ Conflict (section_of 1 10 20) (section_of 2 15 30 ∷ [])
unfolding section_of
get_conflict_iff_example =
    get_conflict_iff (section_of 1 10 20) (section_of 2 15 30 ∷ []) (omega arith) (omega arith, tt)

abbrev busy : Config
busy = record {
  num_nodes = pos 8;
  reliable = pos 0;
  congested = pos 1;
  alloc_time = 300;
  times = λ x. 1200 ∷ (50 + x) ∷ [];
}

parse_schedule-write_config_example :
    let n = parse_schedule (write_config busy no_files) (new_node (pos 7)) in
    (n.cs_time ≡ 300) × IsSetOf n.time_schedule (1200 ∷ 57 ∷ [])
parse_schedule-write_config_example =
    parse_schedule-write_config busy no_files 7 (omega arith) (omega arith) (omega arith)
      (omega arith, (omega arith, (omega arith, tt)))

contact_servers_lem_example : contact_servers 12 6 ≡ some (names_from 1 7 ++ (server_name 10 ∷ []))
unfolding switch_netid
contact_servers_lem_example = contact_servers_lem 6 (omega arith)

-- A request of the first node, as it announces it to the test bed.
abbrev announced : Packet
announced = record { from = 1; to = 255; timestamp = 7; text = b'3' ∷ [] }

abbrev entries : ℕ → Entries
entries y = (announced, [], 9) ∷ []

get_results_blind_example :
    (d : Data) × (get_results 3 (λ name. logged (entries 0)) ≡ some d)
    × (d.conflict ≡ false)
    × (d.runtime ≡ 0)
    × (d.avg_wait ≡ 0)
get_results_blind_example =
    get_results_blind 3 (λ name. logged (entries 0)) entries (omega arith) (λ y l m. refl)
      (λ y l m. ((omega arith, (λ e. omega (arith, e)), inl refl, omega arith), tt))

-- A log of the form that `get_results` reads: each type at the second byte, then a time of 8 bytes.
abbrev stamped : ℕ → ℕ → Bytes
stamped kind time = 255 ∷ kind ∷ time ∷ 1 ∷ 1 ∷ 1 ∷ 1 ∷ 1 ∷ 1 ∷ 1 ∷ newline ∷ b'9' ∷ newline ∷ []

abbrev one_section : Bytes
one_section = stamped (b'3') 20 ++ (stamped (b'1') 50 ++ stamped (b'2') 90)

one_section_found :
    get_results 1 (λ name. one_section)
    ≡ some (record {
      msg_count = 1;
      avg_length = pos 0;
      avg_wait = 15;
      runtime = 72340172838076762;
      conflict = false;
    })
unfolding get_results quotient ◌+ℤ◌ atoi
one_section_found = refl

-- The switch on host 10, with a client that sends one message while `rand()` gives 10.
abbrev one_client : List Connection
one_client =
    record { fork = pos 7; first = b'7' ∷ []; events = (bytes (3 ∷ 2 ∷ []), 10, well) ∷ [] } ∷ []

main_drops_nothing_example :
    main (server_name 10) (write_config busy no_files) (pos 3) (pos 0) one_client
    ≡ Outcome.serves (
        accept_loop 2 (
          record { fork = pos 7; first = b'7' ∷ []; events = (bytes (3 ∷ 2 ∷ []), 1, well) ∷ [] }
          ∷ []))
unfolding ◌==ℤ◌
main_drops_nothing_example =
    main_drops_nothing busy no_files (pos 3) 10 one_client (omega arith) (omega arith) refl
