-- ===== src/Socket/Link.antt =====
-- Two sockets and the connection between them, which carries bytes and not messages.
use aosproject.Prelude.{
  true, ℕ, ◌≤◌, ◌≡◌, false, some, List, [], ◌∷◌, ◌++◌, length, take, drop, ℤ, pos,
}
use aosproject.Text.{Bytes}
use aosproject.Socket.{
  Socket, buffer_size, send, send_round, receive_round, is_failure, accepted,
  register_event_listener,
}

pub record Link : Type 0 where
  pub here : Socket
  pub wire : Bytes
  pub there : Socket

-- One end sends, its thread writes, and the thread of the other end reads; `write` and `read` may
-- take any number of bytes.
pub data LinkStep (l : Link) : Link → Type 0 where
  sending :
      (memory : Bytes) (s : Socket)
      → send memory l.here ≡ some s
      → LinkStep l (record l { here = s })
  writing :
      (result : ℤ) (s : Socket) (out : Bytes)
      → l.here.thread_running ≡ true
      → is_failure result ≡ false
      → send_round some result l.here ≡ some (s, out)
      → LinkStep l (record l { here = s; wire = l.wire ++ out })
  reading :
      (k : ℕ) (s : Socket)
      → l.there.thread_running ≡ true
      → 1 ≤ k
      → k ≤ length l.wire
      → receive_round some (pos k) (take k l.wire) l.there ≡ some s
      → LinkStep l (record l { wire = drop k l.wire; there = s })

-- The system calls move whole messages.
abbrev pub IsWhole : {l m : Link} → LinkStep l m → Type 0
IsWhole (sending memory s e) = Unit {0}
IsWhole (writing result s out on ok e) = result ≡ pos buffer_size
IsWhole (reading k s on some_bytes there e) = k ≡ buffer_size

-- What the program gives to `send`: as many bytes as a message has, from its text on.
abbrev pub put_by : {l m : Link} → LinkStep l m → List Bytes
put_by (sending memory s e) = take buffer_size memory ∷ []
put_by (writing result s out on ok e) = []
put_by (reading k s on some_bytes there e) = []

pub data LinkRun (l : Link) : Link → Type 0 where
  begin : LinkRun l l
  next : {m n : Link} → LinkRun l m → LinkStep m n → LinkRun l n

-- The messages that are sent over a run, in the order of the calls.
abbrev pub sent_by : {l m : Link} → LinkRun l m → List Bytes
sent_by begin = []
sent_by (next run st) = sent_by run ++ put_by st

abbrev pub AreWhole : {l m : Link} → LinkRun l m → Type 0
AreWhole begin = Unit {0}
AreWhole (next run st) = AreWhole run × IsWhole st

-- Both ends as they are when the connection is accepted, with a listener at the far one.
abbrev pub fresh_link : Link
fresh_link = record {
  here = accepted (pos 3);
  wire = [];
  there = (register_event_listener (accepted (pos 4))).1;
}
