-- ===== src/Old/ServerSocket.antt =====
-- socket_old/ServerSocket.cpp: a server socket with its accepting thread.
use aosproject.Prelude.{
  ℕ, ◌%◌, ◌^◌, ◌≡◌, refl, ◌≢◌, Bool, true, false, Option, some, List, [], ◌∷◌, ◌++◌, append_assoc,
  arith, if◌then◌else◌, ◌>>=◌, ℤ, pos, minus_one, ◌==ℤ◌, ltb_ℤ, to_unsigned, ==ℤ_iff, ==ℤ_refl,
}

-- The calls of the event listener. The socket of a new connection stands for the object made of it.
pub data Call : Type 0 where
  on_accept : ℤ → Call
  on_disconnect : Call

pub record ServerSocket : Type 0 where
  pub m_socket : ℤ  -- int
  pub sin_port : ℕ  -- in m_addr
  pub has_listener : Bool  -- m_event_listener != 0
  pub thread_running : Bool
  pub calls : List Call

-- The constructor; `raw` is what `m_addr` happens to hold.
abbrev pub new : ℕ → ServerSocket
new raw = record {
  m_socket = minus_one;
  sin_port = raw;
  has_listener = false;
  thread_running = false;
  calls = [];
}

pub data Result : Type 0 where
  exited : Result
  undefined : Result  -- a null pointer
  returned : ServerSocket → Result

-- `init`, with the results of `socket` and `gethostbyname`. `htons` keeps 16 bits.
unfoldable pub init : ℤ → Bool → ℤ → ServerSocket → Result
unfolding to_unsigned
init socket found port s =
    if ltb_ℤ socket (pos 0)
    then Result.exited
    else if found
    then Result.returned (record s { m_socket = socket; sin_port = to_unsigned port % 2 ^ 16 })
    else Result.undefined

-- `start`: the results of `setsockopt` and `bind` change nothing.
unfoldable pub start : ServerSocket → ServerSocket
start s = record s { thread_running = true }

unfoldable pub notify : Call → ServerSocket → ServerSocket
notify call s = if s.has_listener then record s { calls = s.calls ++ (call ∷ []) } else s

-- `disconnect`, with what the accepting thread does before it is joined; `none` never returns.
unfoldable pub disconnect :
    (ServerSocket → Option ServerSocket) → ServerSocket → Option ServerSocket
unfolding notify
disconnect joined s =
    if s.m_socket ==ℤ minus_one
    then some s
    else (joined (record s { m_socket = minus_one; thread_running = false }) >>= λ t.
        some (notify Call.on_disconnect t))

unfoldable pub register_event_listener : ServerSocket → Bool × ServerSocket
register_event_listener s =
    if s.has_listener then (false, s) else (true, record s { has_listener = true })

unfoldable pub unregister_event_listener : ServerSocket → Bool × ServerSocket
unregister_event_listener s =
    if s.has_listener then (true, record s { has_listener = false }) else (false, s)

-- One round of `AcceptThread::run`, with the result of `accept`.
unfoldable pub accept_round : ℤ → ServerSocket → ServerSocket
unfolding notify
accept_round result s = if result ==ℤ minus_one then s else notify (Call.on_accept result) s

-- Its loop, for as long as there are results.
unfoldable pub run : List ℤ → ServerSocket → ServerSocket
unfolding accept_round
run [] s = s
run (result ∷ results) s =
    let rest = run results (accept_round result s) in if s.thread_running then rest else s

run-stopped : (results : List ℤ) (s : ServerSocket) → s.thread_running ≡ false → run results s ≡ s
unfolding run
run-stopped [] s off = refl
run-stopped (result ∷ results) s off = ground arith

-- The thread that is joined finishes the round it is in: `accept` may still have had a result.
abbrev pub last_round : ℤ → ServerSocket → Option ServerSocket
last_round result s = some (accept_round result s)

-- What the listener hears of a disconnect.
abbrev pub last_calls : ℤ → List Call
last_calls result =
    (if result ==ℤ minus_one then [] else Call.on_accept result ∷ []) ++ (Call.on_disconnect ∷ [])

abbrev stopped : List Call → ServerSocket → ServerSocket
stopped calls s = record s { m_socket = minus_one; thread_running = false; calls = calls }

disconnect-stopped :
    (result : ℤ) (s : ServerSocket)
    → s.m_socket ≢ minus_one
    → s.has_listener ≡ true
    → disconnect (last_round result) s ≡ some (stopped (s.calls ++ last_calls result) s)
unfolding disconnect notify accept_round
disconnect-stopped result s opened listens = ground (
  arith,
  ==ℤ_iff s.m_socket minus_one,
  append_assoc s.calls (Call.on_accept result ∷ []) (Call.on_disconnect ∷ []),
)

-- An open socket with a listener disconnects once: the listener hears of the connection that the last
-- round may still have accepted, then of the end, and after that of nothing more, neither by another
-- disconnect nor from the thread, whatever `accept` would return.
pub disconnect_once :
    (result : ℤ) (joined : ServerSocket → Option ServerSocket) (results : List ℤ) (s : ServerSocket)
    → s.m_socket ≢ minus_one
    → s.has_listener ≡ true
    → (t : ServerSocket) × (disconnect (last_round result) s ≡ some t)
      × (t.calls ≡ s.calls ++ last_calls result)
      × (disconnect joined t ≡ some t)
      × (run results t ≡ t)
unfolding disconnect
disconnect_once result joined results s opened listens =
    let t : ServerSocket = stopped (s.calls ++ last_calls result) s in
    (
      t,
      disconnect-stopped result s opened listens,
      refl,
      rw (==ℤ_refl minus_one) refl,
      run-stopped results t refl,
    )
