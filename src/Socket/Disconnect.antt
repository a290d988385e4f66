-- ===== src/Socket/Disconnect.antt =====
-- The threads of a socket when the connection fails.
use aosproject.Prelude.{
  ◌≡◌, refl, ap, ◌∙◌, ◌≢◌, inl, inr, true, false, Option, none, some, List, [], ◌∷◌, ◌++◌,
  append_assoc, arith, Bool-cases, ◌>>=◌, ℤ, pos, minus_one, ◌==ℤ◌, ==ℤ_iff,
}
use aosproject.Text.{Bytes}
use aosproject.Socket.{
  Socket, on_disconnect, notify, disconnect, clear_queue, is_failure, receive_round, send_round,
  send_front, send_first,
}

-- Whatever the other threads do, the lock stays with the thread that has it.
abbrev pub KeepsLock : (Socket → Option Socket) → Type 0
KeepsLock joined = (s s' : Socket) → s.is_locked ≡ true → joined s ≡ some s' → s'.is_locked ≡ true

clear_locked : (s : Socket) → s.is_locked ≡ true → clear_queue s ≡ none
unfolding clear_queue
clear_locked s l = rw l refl

-- `disconnect`, from the end of its threads on.
abbrev after_threads : Option Socket → Option Socket
after_threads o = o >>= λ s1. clear_queue s1 >>= λ s2. some (notify on_disconnect s2)

after_threads_locked :
    (o : Option Socket)
    → ((s' : Socket) → o ≡ some s' → s'.is_locked ≡ true)
    → after_threads o ≡ none
after_threads_locked none h = refl
after_threads_locked (some s) h = rw (clear_locked s (h s refl)) refl

still_open : (s : Socket) → s.m_socket ≢ minus_one → (s.m_socket ==ℤ minus_one) ≡ false
still_open s h = ground (arith, h, ==ℤ_iff s.m_socket minus_one)

disconnect_waits :
    (joined : Socket → Option Socket) (s : Socket)
    → (s.m_socket ==ℤ minus_one) ≡ false
    → disconnect joined s ≡ after_threads (joined (record s { thread_running = false }))
unfolding disconnect
disconnect_waits joined s e = rw e refl

disconnect_locked :
    (joined : Socket → Option Socket) (s : Socket)
    → KeepsLock joined
    → s.m_socket ≢ minus_one
    → s.is_locked ≡ true
    → disconnect joined s ≡ none
disconnect_locked joined s k open_socket l =
    disconnect_waits joined s (still_open s open_socket)
    ∙ after_threads_locked (joined (record s { thread_running = false }))
        (λ s' e. k (record s { thread_running = false }) s' l e)

-- On an open connection with a message in the queue, a write that fails, or writes nothing, never
-- ends: the thread that sends calls `disconnect` while it holds the lock of the queue, and
-- `disconnect` waits for that lock, whatever the other threads do, if they leave the lock with the
-- thread that has it.
pub send_round_hangs :
    (joined : Socket → Option Socket) (result : ℤ) (msg : Bytes) (others : List Bytes) (s : Socket)
    → KeepsLock joined
    → is_failure result ≡ true
    → s.m_socket ≢ minus_one
    → s.messages ≡ msg ∷ others
    → send_round joined result s ≡ none
unfolding send_round send_front send_first
send_round_hangs joined result msg others s k failed open_socket m = elim (Bool-cases s.is_locked) [
  | inl held ↦ rw held refl
  | inr free ↦
      rw (free, m, failed)
        (ap (λ t. t >>= λ s'. some (s', []))
          (disconnect_locked joined (record s { messages = others; is_locked = true }) k open_socket
            refl))
]

-- `disconnect` on an open connection tells the listener twice: the thread that receives gets nothing
-- more to read, and calls `disconnect` too.
disconnect_tells_twice :
    (s : Socket)
    → s.m_socket ≢ minus_one
    → s.is_locked ≡ false
    → s.has_listener ≡ true
    → (s' : Socket) × (disconnect (receive_round some (pos 0) []) s ≡ some s')
      × (s'.calls ≡ s.calls ++ (on_disconnect ∷ on_disconnect ∷ []))
unfolding disconnect receive_round is_failure clear_queue notify ◌==ℤ◌
disconnect_tells_twice s open_socket free listens = (
  record s {
    m_socket = minus_one;
    thread_running = false;
    messages = [];
    calls = (s.calls ++ (on_disconnect ∷ [])) ++ (on_disconnect ∷ []);
  },
  rw (still_open s open_socket, free, listens) refl,
  append_assoc s.calls (on_disconnect ∷ []) (on_disconnect ∷ []),
)
