-- ===== src/Socket.antt =====
-- socket/Socket.cpp: a connection with its queue of outgoing messages and its two threads.
pub mod Link
pub mod Fifo
pub mod Rounds
pub mod Refinement
pub mod Disconnect
pub mod Examples
use aosproject.Prelude.{
  ℕ, zero, suc, ◌+◌, ◌-◌, ◌*◌, ◌/◌, ◌%◌, ◌^◌, ◌≤◌, ◌<◌, ◌≡◌, refl, sym, ap, ◌∙◌, subst, ◌≢◌, ◌↔◌,
  ◌⊎◌, inl, inr, Bool, true, false, ◌&&◌, ◌||◌, not, Option, none, some, List, [], ◌∷◌, ◌++◌, map,
  append-nil, append_assoc, arith, ltb, leb, ◌==◌, if◌then◌else◌, ==_iff, Bool-cases, Option-cases,
  ◌>>=◌, >>=-eq-some, length, get_elem?, set, take, drop, replicate, In, All, length-append,
  length-replicate, In-append_left, In-append_right, In-append_cases, All-append, All-In, ℤ, pos,
  negsuc, minus_one, ◌==ℤ◌, ltb_ℤ, suc_ℤ, pred_ℤ, to_unsigned, ℤ-discrete, ◌+ℤ◌, quotient, ==ℤ_iff,
  ==ℤ_refl, ltb_ℤ_irrefl, ltb_ℤ_trans, ltb_ℤ_connex,
}
use aosproject.Text.{Bytes}

-- `SOCKET_MAX_BUFFER_SIZE`.
abbrev pub buffer_size : ℕ
buffer_size = 1024

-- The calls of the event listener.
pub data Call : Type 0 where
  on_connect : Call
  on_receive : Bytes → Call
  on_disconnect : Call

pub record Socket : Type 0 where
  pub m_socket : ℤ  -- int
  pub m_host : Bytes
  pub has_listener : Bool  -- m_event_listener != 0
  pub thread_running : Bool
  pub messages : List Bytes
  pub is_locked : Bool  -- m_queue_lock, left locked by a thread
  pub calls : List Call

-- `Socket()`.
abbrev pub closed : Socket
closed = record {
  m_socket = minus_one;
  m_host = [];
  has_listener = false;
  thread_running = false;
  messages = [];
  is_locked = false;
  calls = [];
}

-- A call of the listener, if there is one.
unfoldable pub notify : Call → Socket → Socket
notify call s = if s.has_listener then record s { calls = s.calls ++ (call ∷ []) } else s

unfoldable pub create_threads : Socket → Socket
create_threads s = record s { thread_running = true }

-- `Socket(socket, client_ip)`.
unfoldable pub accepted : ℤ → Socket
unfolding create_threads
accepted socket = create_threads (record closed { m_socket = socket })

-- What the system calls of `connectHost` return.
pub record ConnectCalls : Type 0 where
  pub socket : ℤ
  pub found : Bool  -- gethostbyname
  pub connect : ℤ

-- `exit(-1)` ends the program.
pub data Outcome : Type 0 where
  exited : Outcome
  returned : ℕ → Socket → Outcome

-- `none` is a null pointer. A connection that fails leaves its number in `m_socket`.
unfoldable pub connect_host : ConnectCalls → Option Bytes → Socket → Outcome
unfolding notify create_threads
connect_host calls none s = Outcome.exited
connect_host calls (some host) s =
    if ltb_ℤ calls.socket (pos 0)
    then Outcome.exited
    else if not calls.found
    then Outcome.returned 0 (record s { m_socket = calls.socket })
    else if ltb_ℤ calls.connect (pos 0)
    then Outcome.returned 0 (record s { m_socket = calls.socket })
    else Outcome.returned 1 (
        create_threads
          (notify Call.on_connect (record s { m_socket = calls.socket; m_host = host })))

-- `memcpy(temp, message, SOCKET_MAX_BUFFER_SIZE)`: `none` is a read behind the memory of the message,
-- or a wait for a lock that is never given back.
unfoldable pub send : Bytes → Socket → Option Socket
send memory s =
    if s.is_locked || ltb (length memory) buffer_size
    then none
    else some (record s { messages = s.messages ++ (take buffer_size memory ∷ []) })

unfoldable pub register_event_listener : Socket → Bool × Socket
register_event_listener s =
    if s.has_listener then (false, s) else (true, record s { has_listener = true })

unfoldable pub unregister_event_listener : Socket → Bool × Socket
unregister_event_listener s =
    if s.has_listener then (true, record s { has_listener = false }) else (false, s)

clear_queue : Socket → Option Socket
clear_queue s =
    if s.is_locked then none else some (record s { messages = []; m_socket = minus_one })

-- `disconnect`, with what the threads do before they are joined; `none` never returns.
unfoldable pub disconnect : (Socket → Option Socket) → Socket → Option Socket
unfolding clear_queue notify
disconnect joined s = if s.m_socket ==ℤ minus_one then some (notify Call.on_disconnect s) else (do
  s1 ← joined (record s { thread_running = false })
  s2 ← clear_queue s1
  some (notify Call.on_disconnect s2))

-- A result of `read` or `write` after which the thread ends.
unfoldable pub is_failure : ℤ → Bool
is_failure result = result ==ℤ minus_one || result ==ℤ pos 0

-- What the call wrote or read.
abbrev pub amount : ℤ → ℕ
amount (pos n) = n
amount (negsuc n) = 0

-- The first message is written, or the thread ends.
unfoldable pub send_first :
    (Socket → Option Socket) → ℤ → Bytes → List Bytes → Socket → Option (Socket × Bytes)
unfolding is_failure disconnect
send_first joined result msg rest s =
    if is_failure result
    then (disconnect joined (record s { messages = rest; is_locked = true }) >>= λ s'.
        some (s', []))
    else some (record s { messages = rest }, take (amount result) msg)

unfoldable pub send_front :
    (Socket → Option Socket) → ℤ → List Bytes → Socket → Option (Socket × Bytes)
unfolding send_first
send_front joined result [] s = some (s, [])
send_front joined result (msg ∷ rest) s = send_first joined result msg rest s

-- A round of `SendThread::run`, with the result of `write`, and the bytes that it put on the wire:
-- the lock is held over the whole of it, `disconnect` included.
unfoldable pub send_round : (Socket → Option Socket) → ℤ → Socket → Option (Socket × Bytes)
unfolding send_front
send_round joined result s = if s.is_locked then none else send_front joined result s.messages s

-- A round of `ReceiveThread::run`, with the result of `read` and what it read.
unfoldable pub receive_round : (Socket → Option Socket) → ℤ → Bytes → Socket → Option Socket
unfolding is_failure disconnect notify
receive_round joined result got s =
    if is_failure result
    then disconnect joined s
    else some (notify (Call.on_receive (got ++ replicate (buffer_size - length got) 0)) s)
