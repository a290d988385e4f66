-- ===== src/Node/Config.antt =====
-- `Node::parse_quorum` and `Node::parse_schedule`. A file that cannot be opened reads as empty.
use aosproject.Prelude.{
  ℕ, ◌≡◌, refl, ◌-◌, ◌%◌, ◌^◌, List, [], ◌∷◌, ◌++◌, ltb, ◌==◌, if◌then◌else◌, ℤ, pos, negsuc, ltb_ℤ,
}
use aosproject.Text.{Bytes, show_int, atoi}
pub use aosproject.Text.Stream.{newline}
use aosproject.Text.Stream.{strtol}
use aosproject.OrderedSet.{insert}
use aosproject.Node.State.{Node}

-- The file system: the contents behind each name.
abbrev pub Files : Type 0
Files = Bytes → Bytes

-- The lines that a `getline` loop reads: a last line needs no newline, and an empty one is none.
unfoldable pub add_byte : ℕ → List Bytes → List Bytes
add_byte c [] = (c ∷ []) ∷ []
add_byte c (l ∷ ls) = (c ∷ l) ∷ ls

unfoldable pub lines : Bytes → List Bytes
unfolding add_byte
lines [] = []
lines (c ∷ s) = if c == newline then [] ∷ lines s else add_byte c (lines s)

-- `sprintf(path, id <= 9 ? "name0%d" : "name%d", id)`.
unfoldable pub file_name : Bytes → ℤ → Bytes
file_name name id = if ltb_ℤ (pos 9) id then name ++ show_int id else name ++ (b'0' ∷ show_int id)

abbrev pub quorum_name : Bytes
quorum_name = b'q' ∷ b'u' ∷ b'o' ∷ b'r' ∷ b'u' ∷ b'm' ∷ []

abbrev pub config_name : Bytes
config_name = b'c' ∷ b'o' ∷ b'n' ∷ b'f' ∷ b'i' ∷ b'g' ∷ []

unfoldable pub insert_quorum : List Bytes → List ℤ → List ℤ
insert_quorum [] s = s
insert_quorum (l ∷ ls) s = insert_quorum ls (insert ltb_ℤ (atoi l) s)

unfoldable pub parse_quorum : Files → Node → Node
unfolding lines file_name insert_quorum
parse_quorum files n = record n {
  quorum_set = insert_quorum (lines (files (file_name quorum_name n.node_id))) n.quorum_set;
}

-- What `atol` returns, in an `unsigned long`: a negative number wraps around.
unfoldable pub to_ulong : ℤ → ℕ
to_ulong (pos n) = n % 2 ^ 64
to_ulong (negsuc n) = 2 ^ 64 - 1 - n % 2 ^ 64

-- `atol` is `strtol`: it cuts to what a `long` holds.
unfoldable pub insert_times : List Bytes → List ℕ → List ℕ
unfolding to_ulong strtol
insert_times [] s = s
insert_times (l ∷ ls) s = insert_times ls (insert ltb (to_ulong (strtol l)) s)

-- The first line is the time in the critical section; `getline` at the end leaves it empty.
unfoldable pub read_schedule : List Bytes → Node → Node
unfolding insert_times to_ulong strtol
read_schedule [] n = record n { cs_time = to_ulong (strtol []) }
read_schedule (l ∷ ls) n = record n {
  cs_time = to_ulong (strtol l);
  time_schedule = insert_times ls n.time_schedule;
}

unfoldable pub parse_schedule : Files → Node → Node
unfolding lines file_name read_schedule
parse_schedule files n = read_schedule (lines (files (file_name config_name n.node_id))) n

-- `Node::init`; the socket that `m_node_network.init` opens is not part of the state.
unfoldable pub init : Files → Node → Node
unfolding parse_quorum parse_schedule
init files n = parse_schedule files (parse_quorum files n)

read_schedule-fields :
    (ls : List Bytes) (n : Node)
    → ((read_schedule ls n).message_queue ≡ n.message_queue)
      × ((read_schedule ls n).node_id ≡ n.node_id)
      × ((read_schedule ls n).quorum_set ≡ n.quorum_set)
unfolding read_schedule
read_schedule-fields [] n = (refl, refl, refl)
read_schedule-fields (l ∷ ls) n = (refl, refl, refl)

-- `init` leaves the queue and the number alone, and the quorum is the one that was read.
pub init-fields :
    (files : Files) (n : Node)
    → ((init files n).message_queue ≡ n.message_queue)
      × ((init files n).node_id ≡ n.node_id)
      × ((init files n).quorum_set ≡ (parse_quorum files n).quorum_set)
unfolding init parse_quorum parse_schedule
init-fields files n = read_schedule-fields _ (parse_quorum files n)
