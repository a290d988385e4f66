-- ===== src/Schedule/Read.antt =====
-- `read_config`: the configuration of a run, from the text of config.txt.
use aosproject.Prelude.{
  ℕ, zero, suc, ◌+◌, ◌*◌, ◌%◌, ◌^◌, Bool, ◌||◌, Option, none, some, [], ◌∷◌, ◌++◌, ◌==◌,
  if◌then◌else◌, ◌>>=◌, ℤ, pos,
}
use aosproject.Text.{Bytes}
use aosproject.Text.Decimal.{codes}
use aosproject.Text.Equal.{same_bytes}
use aosproject.Text.Stream.{Stream, fresh, get_until, getline, get_int, strtol}
use aosproject.Node.Config.{newline, to_ulong}
use aosproject.Network.Frame.{byte_at, c_string}
use aosproject.Quorum.Write.{trans_at}
use aosproject.Family.{update}
use aosproject.Schedule.Write.{Config}

-- After the `memset`.
abbrev pub no_config : Config
no_config = record {
  num_nodes = pos 0;
  reliable = pos 0;
  congested = pos 0;
  alloc_time = 0;
  times = λ x. [];
}

-- A comment, or an empty line.
unfoldable pub is_skipped : Bytes → Bool
unfolding byte_at
is_skipped buffer = byte_at buffer 0 == b'#' || byte_at buffer 0 == 0

-- `strcmp(buffer.c_str(), line) == 0`.
unfoldable pub reads_as : Bytes → Bytes → Bool
unfolding c_string same_bytes
reads_as buffer line = same_bytes (c_string buffer) line

-- An `unsigned long` that is added to, and one that is multiplied.
unfoldable pub add_ulong : ℕ → ℤ → ℕ
unfolding to_ulong
add_ulong a z = (a + to_ulong z) % 2 ^ 64

-- Minutes, seconds and milliseconds, the last up to the byte `last`.
unfoldable pub read_time : ℕ → Bytes → ℕ
unfolding get_until strtol to_ulong add_ulong
read_time last time =
    let (minutes, st1) = get_until (b':') (fresh time) [] in
    let (seconds, st2) = get_until (b':') st1 minutes in
    let (milliseconds, st3) = get_until last st2 seconds in
    add_ulong (add_ulong (to_ulong (strtol minutes) * 60 % 2 ^ 64) (strtol seconds) * 1000 % 2 ^ 64)
      (strtol milliseconds)

-- A request: `none` for a node that the table of hosts does not have.
unfoldable pub add_request : Bytes → Config → Option Config
unfolding get_until trans_at strtol read_time
add_request buffer c =
    let (before, st1) = get_until (b'(') (fresh buffer) [] in
    let (number, st2) = get_until (b',') st1 before in
    let (time, st3) = get_until (b')') st2 [] in
    trans_at (strtol number) >>= λ node.
    some (record c { times = update c.times node (c.times node ++ (read_time (b')') time ∷ [])) })

unfoldable pub read_request : Bytes → Config → Option Config
unfolding is_skipped add_request
read_request buffer c = if is_skipped buffer then some c else add_request buffer c

-- `while (strcmp(buffer.c_str(), "request_end") != 0)`: the end of the file does not end it.
unfoldable pub read_requests : ℕ → Bytes → Stream → Config → Option (Bytes × Stream × Config)
unfolding get_until reads_as read_request
read_requests zero buffer st c = none
read_requests (suc fuel) buffer st c =
    let (next, st') = getline st buffer in
    if reads_as buffer (codes "request_end")
    then some (buffer, st, c)
    else (do c' ← read_request buffer c; read_requests fuel next st' c')

-- `key=value`; other lines are passed over.
unfoldable pub read_option : Bytes → Config → Config
unfolding get_until same_bytes get_int read_time
read_option buffer c =
    let (key, st) = get_until (b'=') (fresh buffer) [] in
    if same_bytes key (codes "num_nodes")
    then record c { num_nodes = get_int st c.num_nodes }
    else if same_bytes key (codes "net_reliable")
    then record c { reliable = get_int st c.reliable }
    else if same_bytes key (codes "net_congested")
    then record c { congested = get_int st c.congested }
    else if same_bytes key (codes "res_alloc_time")
    then record c { alloc_time = read_time newline (getline st []).0 }
    else c

-- One round of `while( ! config_file.eof())`.
unfoldable pub read_line : ℕ → Bytes → Stream → Config → Option (Bytes × Stream × Config)
unfolding get_until is_skipped reads_as read_requests read_option
read_line fuel buffer st c =
    let (next, st') = getline st buffer in
    if is_skipped buffer
    then some (next, st', c)
    else if reads_as buffer (codes "request_start")
    then read_requests fuel next st' c
    else some (next, st', read_option buffer c)

unfoldable pub read_lines : ℕ → Bytes → Stream → Config → Option Config
unfolding read_line
read_lines zero buffer st c = none
read_lines (suc fuel) buffer st c =
    if st.eof
    then some c
    else (do (buffer', st', c') ← read_line fuel buffer st c; read_lines fuel buffer' st' c')

-- `none`: a node number out of the table, or out of fuel.
unfoldable pub read_config : ℕ → Bytes → Option Config
unfolding get_until read_lines
read_config fuel file =
    let (buffer, st) = getline (fresh file) [] in read_lines fuel buffer st no_config
