-- ===== src/Switch/Main.antt =====
-- `main` of vswitch.cpp: what the switch reads of its host and its file, and the connections it serves,
-- each in a process of its own. The port, which is the second number in ports.txt, is left out.
use aosproject.Prelude.{
  ℕ, ◌%◌, ◌≤◌, ◌<◌, ◌≡◌, refl, ap, ◌∙◌, ◌≢◌, inl, inr, Option, none, some, List, [], ◌∷◌, ◌++◌, map,
  arith, ltb, if◌then◌else◌, Bool-cases, Option-cases, ◌>>=◌, length, take, drop, ℤ, pos, ◌==ℤ◌,
  ltb_ℤ, to_unsigned,
}
use aosproject.Text.{Bytes, show_int, atoi}
use aosproject.Text.Decimal.{codes}
use aosproject.Text.Stream.{fresh, get_int, strtol, saturated_small, newline}
use aosproject.Node.Config.{Files}
use aosproject.Contact.{server_name}
use aosproject.ListenServer.{get_netid, get_netid-server_name}
use aosproject.Schedule.Write.{Config, config_file, write_config}
use aosproject.Schedule.ReadBack.{write_config-switch}
use aosproject.Switch.Session.{
  Event, bytes, shutdown, failed, Session, Calls, handle, serve, handle_message, route,
  message_length,
}

-- `strtol` of the fourth and the fifth byte of the name of the host; `none` is a shorter name.
unfoldable pub node_number : Bytes → Option ℤ
unfolding strtol
node_number hostname =
    if ltb 4 (length hostname) then some (strtol (take 2 (drop 3 hostname))) else none

unfoldable pub status_file : ℤ → Bytes
unfolding show_int
status_file node_num =
    if ltb_ℤ node_num (pos 10)
    then codes "config0" ++ show_int node_num
    else codes "config" ++ show_int node_num

-- `ifile >> net_status`; `raw` is what the variable happens to hold.
unfoldable pub net_status : Files → ℤ → ℤ → ℤ
unfolding status_file get_int
net_status files raw node_num = get_int (fresh (files (status_file node_num))) raw

-- A connection that is accepted: what `fork` returns, and what comes over it.
pub record Connection : Type 0 where
  pub fork : ℤ
  pub first : Bytes
  pub events : List Event

-- `while(1)`: the parent serves the connection and ends, and the child goes on. If `fork` fails, the
-- same process goes on, and the connection is not served.
unfoldable pub accept_loop : ℕ → List Connection → List (Option Session)
unfolding handle
accept_loop status [] = []
accept_loop status (c ∷ cs) =
    let rest = accept_loop status cs in
    if ltb_ℤ (pos 0) c.fork then handle status c.first c.events ∷ rest else rest

pub data Outcome : Type 0 where
  undefined : Outcome
  returned : ℕ → Outcome
  serves : List (Option Session) → Outcome

listening : ℕ → ℤ → List Connection → Outcome
unfolding accept_loop
listening status listen connections =
    if listen ==ℤ pos 0 then Outcome.serves (accept_loop status connections) else Outcome.returned 1

run : Files → ℤ → ℤ → List Connection → Option ℤ → Outcome
unfolding net_status listening to_unsigned
run files raw listen connections none = Outcome.undefined
run files raw listen connections (some node_num) =
    listening (to_unsigned (net_status files raw node_num)) listen connections

-- `main`, with the result of `listen`.
unfoldable pub main : Bytes → Files → ℤ → ℤ → List Connection → Outcome
unfolding node_number run
main hostname files raw listen connections = run files raw listen connections (node_number hostname)

-- Whatever `rand()` gives, nothing is lost.
abbrev pub spared : List Event → List Event
spared events = map (λ (e : Event). (e.0, 1, e.2)) events

route-spared :
    (status rand : ℕ) (calls : Calls) (message : Bytes) (s : Session)
    → status ≢ 3
    → route status rand calls message s ≡ route status 1 calls message s
unfolding route
route-spared status rand calls message s h = ground (arith, h)

handle_message-spared :
    (status rand : ℕ) (calls : Calls) (message : Bytes) (s : Session)
    → status ≢ 3
    → handle_message status rand calls message s ≡ handle_message status 1 calls message s
unfolding handle_message
handle_message-spared status rand calls message s h = elim (Option-cases (message_length message)) [
  | inl long ↦ rw long refl
  | inr (n, e) ↦ rw e (route-spared status rand calls message _ h)
]

serve_on : ℕ → List Event → Session → Option Session
serve_on status events s' = if s'.is_open then serve status events s' else some s'

serve_on-same :
    (status : ℕ) (events events' : List Event) (r : Option Session)
    → ((t : Session) → serve status events t ≡ serve status events' t)
    → (r >>= serve_on status events) ≡ (r >>= serve_on status events')
unfolding serve_on
serve_on-same status events events' none h = refl
serve_on-same status events events' (some t) h = rw (h t) refl

serve-spared :
    (status : ℕ) (events : List Event) (s : Session)
    → status ≢ 3
    → serve status events s ≡ serve status (spared events) s
unfolding serve serve_on
serve-spared status [] s h = refl
serve-spared status ((bytes buffer, rand, calls) ∷ events) s h =
    rw (handle_message-spared status rand calls buffer s h) (
      serve_on-same status events (spared events) (handle_message status 1 calls buffer s)
        (λ t. serve-spared status events t h))
serve-spared status ((shutdown, rand, calls) ∷ events) s h = refl
serve-spared status ((failed, rand, calls) ∷ events) s h = refl

handle-spared :
    (status : ℕ) (first : Bytes) (events : List Event)
    → status ≢ 3
    → handle status first events ≡ handle status first (spared events)
unfolding handle
handle-spared status first events h = rw (serve-spared status events _ h) refl

accept_loop-spared :
    (status : ℕ) (cs : List Connection)
    → status ≢ 3
    → accept_loop status cs
      ≡ accept_loop status (map (λ (c : Connection). record c { events = spared c.events }) cs)
unfolding accept_loop
accept_loop-spared status [] h = refl
accept_loop-spared status (c ∷ cs) h =
    ground (arith, handle-spared status c.first c.events h, accept_loop-spared status cs h)

abbrev mode : Config → ℕ
mode c = if c.congested ==ℤ pos 1 then 2 else 1

status_of :
    (c : Config) (raw : ℤ)
    → get_int
        (fresh (show_int (pos (if c.congested ==ℤ pos 1 then 2 else 1)) ++ (newline ∷ [])))
        raw
      ≡ pos (mode c)
unfolding get_int show_int atoi
status_of c raw = elim (Bool-cases (c.congested ==ℤ pos 1)) [
  | inl busy ↦ rw busy refl
  | inr idle ↦ rw idle refl
]

node_number-server_name : (x : ℕ) → x < 100 → node_number (server_name x) ≡ some (pos x)
unfolding node_number strtol get_netid
node_number-server_name x h =
    ground (arith, get_netid-server_name x h, saturated_small x (omega (arith, h)))

status_file-config_file : (x : ℕ) → status_file (pos x) ≡ config_file x
unfolding status_file config_file ltb_ℤ
status_file-config_file x = elim (Bool-cases (ltb x 10)) [
  | inl small ↦ rw small refl
  | inr big ↦ rw big refl
]

-- The switch on host `x`, given the file that the test bed writes for it, serves every connection for
-- which `fork` gave a parent, and none of them ever loses a message to `rand()`: the sessions are those
-- of a switch whose `rand()` always spares the message, whatever the file config.txt says of reliability.
pub main_drops_nothing :
    (c : Config) (files : Files) (raw : ℤ) (x : ℕ) (connections : List Connection)
    → 1 ≤ x
    → x ≤ 45
    → x % 5 ≡ 0
    → main (server_name x) (write_config c files) raw (pos 0) connections
      ≡ Outcome.serves (
          accept_loop
            (if c.congested ==ℤ pos 1 then 2 else 1)
            (map (λ (k : Connection). record k { events = spared k.events }) connections))
unfolding main run listening ◌==ℤ◌ to_unsigned
main_drops_nothing c files raw x connections l u s =
    let number = node_number-server_name x (omega (arith, u)) in
    let name = status_file-config_file x in
    let status : net_status (write_config c files) raw (pos x) ≡ pos (mode c) =
      ap (λ f. get_int (fresh (write_config c files f)) raw) name
      ∙ ap (λ t. get_int (fresh t) raw) (write_config-switch c files x l u s)
      ∙ status_of c raw in
    let known : mode c ≢ 3 = ground arith in
    let fits : to_unsigned (pos (mode c)) ≡ mode c = ground arith in
    rw number (
      rw status (
        ap (λ k. Outcome.serves (accept_loop k connections)) fits
        ∙ ap Outcome.serves (accept_loop-spared (mode c) connections known)))
