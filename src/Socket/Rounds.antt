-- ===== src/Socket/Rounds.antt =====
-- The operations of a socket on messages of 1024 bytes, when the system calls move the whole of one.
use aosproject.Prelude.{
  ℕ, zero, suc, ◌-◌, ◌≤◌, ◌≡◌, refl, sym, ap, ◌∙◌, subst, ◌⊎◌, inl, inr, true, false, ◌||◌, some,
  List, [], ◌∷◌, ◌++◌, append-nil, append_assoc, arith, ltb, Bool-cases, length, take, drop,
  replicate, All, pos, ◌==ℤ◌,
}
use aosproject.Text.{Bytes}
use mathlib.Core.Option.{some-injective, none-ne-some}
use aosproject.Socket.{
  Socket, buffer_size, on_receive, send, send_round, receive_round, send_front, send_first, notify,
  is_failure,
}
use aosproject.Socket.Fifo.{joined_bytes, IsBlock, receipts}

pub take_all : (m : Bytes) → take (length m) m ≡ m
take_all [] = refl
take_all (c ∷ m) = ap (λ r. c ∷ r) (take_all m)

pub take_front : (b r : Bytes) → take (length b) (b ++ r) ≡ b
take_front [] r = refl
take_front (c ∷ b) r = ap (λ t. c ∷ t) (take_front b r)

pub drop_front : (b r : Bytes) → drop (length b) (b ++ r) ≡ r
drop_front [] r = refl
drop_front (c ∷ b) r = drop_front b r

length-take : (n : ℕ) (m : Bytes) → n ≤ length m → length (take n m) ≡ n
length-take zero m h = refl
length-take (suc n) [] h = absurd (omega (arith, h))
length-take (suc n) (c ∷ m) h = ap suc (length-take n m (omega (arith, h)))

pub joined_bytes-append :
    (bs : List Bytes) (b : Bytes) → joined_bytes (bs ++ (b ∷ [])) ≡ joined_bytes bs ++ b
joined_bytes-append [] b = append-nil b
joined_bytes-append (c ∷ bs) b =
    ap (λ r. c ++ r) (joined_bytes-append bs b) ∙ sym (append_assoc c (joined_bytes bs) b)

pub receipts-append :
    (ms : List Bytes) (m : Bytes) → receipts (ms ++ (m ∷ [])) ≡ receipts ms ++ (on_receive m ∷ [])
receipts-append [] m = refl
receipts-append (n ∷ ms) m = ap (λ r. on_receive n ∷ r) (receipts-append ms m)

-- `send` puts one block at the end of the queue.
pub send_lem :
    (memory : Bytes) (s s' : Socket)
    → send memory s ≡ some s'
    → (length (take buffer_size memory) ≡ buffer_size)
      × (s'.messages ≡ s.messages ++ (take buffer_size memory ∷ []))
unfolding send
send_lem memory s s' e = elim (Bool-cases (s.is_locked || ltb (length memory) buffer_size)) [
  | inl refused ↦ absurd (none-ne-some s' (rw refused at e))
  | inr done ↦
      let sent : record s { messages = s.messages ++ (take buffer_size memory ∷ []) } ≡ s' =
        some-injective _ _ (rw done at e) in
      (
        length-take buffer_size memory (ground (arith, done)),
        sym (ap (λ (t : Socket). t.messages) sent),
      )
]

send_front_lem :
    (ms : List Bytes) (s s' : Socket) (out : Bytes)
    → All IsBlock ms
    → s.messages ≡ ms
    → send_front some (pos buffer_size) ms s ≡ some (s', out)
    → ((s'.messages ≡ ms) × (out ≡ [])) ⊎ ((ms ≡ out ∷ s'.messages) × (length out ≡ buffer_size))
unfolding send_front send_first is_failure ◌==ℤ◌
send_front_lem [] s s' out h same e =
    let kept : (s, []) ≡ (s', out) = some-injective _ _ e in
    inl (
      ap (λ (t : Socket × Bytes). t.0.messages) (sym kept) ∙ same,
      sym (ap (λ (t : Socket × Bytes). t.1) kept),
    )
send_front_lem (m ∷ ms) s s' out (h, hs) same e =
    let written : (record s { messages = ms }, take buffer_size m) ≡ (s', out) =
      some-injective _ _ e in
    let whole : take buffer_size m ≡ m = subst (λ n. take n m ≡ m) h (take_all m) in
    let front : m ≡ out = sym whole ∙ ap (λ (t : Socket × Bytes). t.1) written in
    inr (cc (front, ap (λ (t : Socket × Bytes). t.0.messages) written), subst IsBlock front h)

round_unlocked :
    (s : Socket)
    → s.is_locked ≡ false
    → send_round some (pos buffer_size) s ≡ send_front some (pos buffer_size) s.messages s
unfolding send_round
round_unlocked s free = rw free refl

-- A whole write takes the first message, or there is none.
pub send_round_lem :
    (s s' : Socket) (out : Bytes)
    → All IsBlock s.messages
    → send_round some (pos buffer_size) s ≡ some (s', out)
    → ((s'.messages ≡ s.messages) × (out ≡ []))
      ⊎ ((s.messages ≡ out ∷ s'.messages) × (length out ≡ buffer_size))
unfolding send_round
send_round_lem s s' out h e = elim (Bool-cases s.is_locked) [
  | inl held ↦ absurd (none-ne-some (s', out) (rw held at e))
  | inr free ↦ send_front_lem s.messages s s' out h refl (sym (round_unlocked s free) ∙ e)
]

notify_block :
    (b : Bytes) (s : Socket)
    → length b ≡ buffer_size
    → s.has_listener ≡ true
    → notify (on_receive (b ++ replicate (buffer_size - length b) 0)) s
      ≡ record s { calls = s.calls ++ (on_receive b ∷ []) }
unfolding notify
notify_block b s l h = rw (h, l, append-nil b) refl

pub receive_round_lem :
    (b : Bytes) (s s' : Socket)
    → length b ≡ buffer_size
    → s.has_listener ≡ true
    → receive_round some (pos buffer_size) b s ≡ some s'
    → (s'.calls ≡ s.calls ++ (on_receive b ∷ [])) × (s'.has_listener ≡ true)
unfolding receive_round is_failure ◌==ℤ◌
receive_round_lem b s s' l h e =
    let read : notify (on_receive (b ++ replicate (buffer_size - length b) 0)) s ≡ s' =
      some-injective _ _ e in
    let called : record s { calls = s.calls ++ (on_receive b ∷ []) } ≡ s' =
      sym (notify_block b s l h) ∙ read in
    (
      sym (ap (λ (t : Socket). t.calls) called),
      sym (ap (λ (t : Socket). t.has_listener) called) ∙ h,
    )
