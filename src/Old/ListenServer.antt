-- ===== src/Old/ListenServer.antt =====
-- listenserver_old/ListenServer.cpp: a listening server with a thread per connection.
use aosproject.Prelude.{
  ℕ, ◌≡◌, sym, ap, ◌∙◌, Bool, true, false, Option, none, some, List, [], ◌∷◌, ◌++◌, append-nil,
  append_assoc, arith, ltb, if◌then◌else◌, take, All, ℤ, pos, minus_one, ◌==ℤ◌, to_unsigned,
}
use aosproject.Text.{Bytes}
use aosproject.Text.Decimal.{codes}
use aosproject.Text.Equal.{same_bytes}

pub record ListenServer : Type 0 where
  pub m_end : Bool
  pub m_server_sock : ℤ
  pub threads : List ℤ  -- the sockets of the threads that were started, oldest first
  pub returned : Bool  -- `start` has returned

-- The constructor; `raw` is what `m_server_sock` happens to hold.
abbrev pub new : ℤ → ListenServer
new raw = record { m_end = false; m_server_sock = raw; threads = []; returned = false }

-- `set_end`, which shuts the socket: the call of `accept` that waits returns.
unfoldable pub set_end : ListenServer → ListenServer
set_end s = record s { m_end = true }

-- `start` up to the loop, with the results of `socket` and `listen`, and what it returns at once.
unfoldable pub begin : ℤ → ℤ → ListenServer → Option ℕ × ListenServer
begin socket listen s =
    if listen ==ℤ pos 0
    then (none, record s { m_server_sock = socket; returned = s.m_end })
    else (some 1, record s { returned = true })

-- What happens while `start` is in its loop: `accept` returns, or a thread has read from its socket.
pub data Event : Type 0 where
  accepts : ℤ → Event
  reads : Bytes → Event

-- `client_sock` is an `unsigned int`: -1 is greater than 0. Behind the round the loop tests `m_end`.
unfoldable pub accept_round : ℤ → ListenServer → ListenServer
unfolding to_unsigned
accept_round result s = record s {
  threads = (if ltb 0 (to_unsigned result) then s.threads ++ (result ∷ []) else s.threads);
  returned = s.m_end;
}

-- `NodeThread::run`, with what `recv` left in the buffer: `strncmp` compares 4 bytes.
unfoldable pub thread_run : Bytes → ListenServer → ListenServer
unfolding same_bytes set_end
thread_run buff s = if same_bytes (take 4 buff) (codes "EXIT") then set_end s else s

unfoldable pub step : Event → ListenServer → ListenServer
unfolding accept_round thread_run
step (accepts result) s = if s.returned then s else accept_round result s
step (reads buff) s = thread_run buff s

unfoldable pub run : List Event → ListenServer → ListenServer
unfolding step
run [] s = s
run (e ∷ es) s = run es (step e s)

-- No EXIT is read.
abbrev pub IsQuiet : Event → Type 0
IsQuiet (accepts result) = Unit {0}
IsQuiet (reads buff) = same_bytes (take 4 buff) (codes "EXIT") ≡ false

-- The results of `accept` but 0.
abbrev pub accepted : List Event → List ℤ
accepted [] = []
accepted (accepts result ∷ es) =
    let rest = accepted es in if ltb 0 (to_unsigned result) then result ∷ rest else rest
accepted (reads buff ∷ es) = accepted es

run-quiet :
    (es more : List Event) (s : ListenServer)
    → All IsQuiet es
    → (s.m_end ≡ false) × (s.returned ≡ false)
    → run (es ++ more) s ≡ run more (record s { threads = s.threads ++ accepted es })
unfolding run step accept_round thread_run
run-quiet [] more s q on = ground (arith, append-nil s.threads)
run-quiet (accepts result ∷ es) more s q (on, up) =
    let now : ListenServer = record s {
      threads = (if ltb 0 (to_unsigned result) then s.threads ++ (result ∷ []) else s.threads);
    } in
    let step1 : step (accepts result) s ≡ now = ground arith in
    let more_threads : now.threads ++ accepted es ≡ s.threads ++ accepted (accepts result ∷ es) =
      ground (arith, append_assoc s.threads (result ∷ []) (accepted es)) in
    ap (run (es ++ more)) step1
    ∙ run-quiet es more now q.1 (on, up)
    ∙ ap (λ t. run more (record s { threads = t })) more_threads
run-quiet (reads buff ∷ es) more s q on =
    ap (run (es ++ more)) (ground (arith, q.0)) ∙ run-quiet es more s q.1 on

-- The server serves every connection until one of them reads EXIT, and it then returns from the
-- `accept` that it waits in, but not without a thread for its result: also when `accept` has failed, for
-- the socket -1.
pub exit_starts_one_more :
    (es : List Event) (buff : Bytes) (s : ListenServer)
    → All IsQuiet es
    → (s.m_end ≡ false) × (s.returned ≡ false)
    → same_bytes (take 4 buff) (codes "EXIT") ≡ true
    → ((run es s).returned ≡ false)
      × ((run es s).threads ≡ s.threads ++ accepted es)
      × ((run (es ++ (reads buff ∷ accepts minus_one ∷ [])) s).returned ≡ true)
      × ((run (es ++ (reads buff ∷ accepts minus_one ∷ [])) s).threads
          ≡ (s.threads ++ accepted es) ++ (minus_one ∷ []))
unfolding run step accept_round thread_run set_end
exit_starts_one_more es buff s q (on, up) exit =
    let end = reads buff ∷ accepts minus_one ∷ [] in
    let quiet : run es s ≡ record s { threads = s.threads ++ accepted es } =
      ap (λ l. run l s) (sym (append-nil es)) ∙ run-quiet es [] s q (on, up) in
    let ended : run (es ++ end) s ≡ record s {
      m_end = true;
      threads = (s.threads ++ accepted es) ++ (minus_one ∷ []);
      returned = true;
    } =
      run-quiet es end s q (on, up) ∙ ground (arith, exit, up, on) in
    (
      ap (λ (t : ListenServer). t.returned) quiet ∙ up,
      ap (λ (t : ListenServer). t.threads) quiet,
      ap (λ (t : ListenServer). t.returned) ended,
      ap (λ (t : ListenServer). t.threads) ended,
    )
