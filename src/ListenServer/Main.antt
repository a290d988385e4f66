-- ===== src/ListenServer/Main.antt =====
-- `main` of listenserver/lserver.cpp. The port, which is the first number in ports.txt, is left out.
use aosproject.Prelude.{
  ℕ, ◌<◌, ◌≡◌, refl, Option, some, List, [], ◌∷◌, if◌then◌else◌, ℤ, pos, ◌==ℤ◌, ltb_ℤ,
}
use aosproject.Text.{Bytes}
use aosproject.Contact.{server_name}
use aosproject.ListenServer.{get_netid, get_netid-server_name, get_role, Command, listen}

-- A connection that is accepted: what `fork` returns, and what each `recv` leaves in the buffer. A call
-- of `accept` that fails is no exception, as its result is kept as an `unsigned int`.
pub record Connection : Type 0 where
  pub fork : ℤ
  pub texts : List Bytes

-- The parent serves the connection; if `fork` fails nobody does.
unfoldable pub served : List Connection → List (List Bytes)
served [] = []
served (c ∷ cs) = let rest = served cs in if ltb_ℤ (pos 0) c.fork then c.texts ∷ rest else rest

pub data Outcome : Type 0 where
  nameless : Outcome  -- the name of the host is too short, or its number negative
  returned : ℕ → Outcome
  runs : List Command → Outcome

run : ℤ → List Connection → Option ℤ → Outcome
unfolding served listen get_role
run result connections (some (pos netid)) =
    if result ==ℤ pos 0
    then Outcome.runs (listen (get_role netid) netid (served connections))
    else Outcome.returned 1
run result connections _ = Outcome.nameless

-- `main`, with the name of the host and the result of the call of `listen`.
unfoldable pub main : Bytes → ℤ → List Connection → Outcome
unfolding get_netid run
main hostname result connections = run result connections (get_netid hostname)

-- On a host of the network that can listen, `main` serves as its own number and role say.
pub main-server_name :
    (x : ℕ) (connections : List Connection)
    → x < 100
    → main (server_name x) (pos 0) connections
      ≡ Outcome.runs (listen (get_role x) x (served connections))
unfolding main run ◌==ℤ◌
main-server_name x connections h = rw (get_netid-server_name x h) refl
