-- ===== src/Switch/Forwarding.antt =====
-- What the switch does with each message, and where it reads or writes out of bounds.
use aosproject.Prelude.{
  ℕ, zero, suc, ◌+◌, ◌%◌, ◌≤◌, ◌<◌, ◌≡◌, refl, ap, ◌≢◌, ◌⊎◌, inl, inr, Bool, true, false, ◌&&◌,
  ◌||◌, none, some, [], ◌∷◌, ◌++◌, arith, ltb, ◌==◌, ==_iff, Bool-cases, length, take, drop, All,
  length-append,
}
use aosproject.Text.{Bytes, show_int}
use aosproject.Text.Decimal.{show_nat, digits}
use aosproject.Node.State.{Packet}
use aosproject.Network.Frame.{byte_at, frame, le_bytes, text_size}
use aosproject.Switch.Session.{
  Calls, digit, Session, reply, cut, buffer_size, message_length, log_lines, to_host, deliver,
  route, handle_message,
}

length-take : (k : ℕ) (s : Bytes) → k ≤ length s → length (take k s) ≡ k
length-take zero s h = refl
length-take (suc k) [] h = ground arith
length-take (suc k) (c ∷ s) h = ap suc (length-take k s (omega (arith, h)))

-- A frame fills the buffer, if there are so many bytes in memory from its text on.
frame-length :
    (p : Packet) (behind : Bytes)
    → text_size ≤ length p.text + suc (length behind)
    → length (frame p behind) ≡ buffer_size
unfolding frame le_bytes
frame-length p behind h =
    let room : text_size ≤ length (p.text ++ (0 ∷ behind)) =
      omega (arith, h, length-append p.text (0 ∷ behind)) in
    let filled = length-take text_size (p.text ++ (0 ∷ behind)) room in omega (arith, filled)

-- The switch reads out of the bounds of its buffer when it receives, in one piece, a frame that a
-- node sends; given that there are as many bytes in memory from the text on as `memcpy` copies.
pub handle_message-frame :
    (net_status rand : ℕ) (calls : Calls) (s : Session) (p : Packet) (behind : Bytes)
    → text_size ≤ length p.text + suc (length behind)
    → handle_message net_status rand calls (frame p behind) s ≡ none
unfolding handle_message message_length
handle_message-frame net_status rand calls s p behind h = rw (frame-length p behind h) refl

byte_at_last : (s : Bytes) (c : ℕ) → byte_at (s ++ (c ∷ [])) (length s) ≡ c
unfolding byte_at
byte_at_last [] c = refl
byte_at_last (d ∷ s) c = byte_at_last s c

byte_at_end : (s : Bytes) → byte_at s (length s) ≡ 0
unfolding byte_at
byte_at_end [] = refl
byte_at_end (c ∷ s) = byte_at_end s

cut_last : (s : Bytes) (c : ℕ) (n : ℕ) → c ≢ 0 → n ≡ length s → cut n (s ++ (c ∷ [])) ≡ n
unfolding cut byte_at
cut_last s c zero h e = refl
cut_last s c (suc n) h e = ground (arith, rw (← e) at (byte_at_last s c))

-- The length that is logged for a message that ends in another byte than zero, and is shorter than
-- the buffer, is its length less one.
pub message_length-short :
    (s : Bytes) (c : ℕ)
    → c ≢ 0
    → suc (length s) < buffer_size
    → message_length (s ++ (c ∷ [])) ≡ some (length s)
unfolding message_length cut
message_length-short s c h small =
    let size : length (s ++ (c ∷ [])) ≡ suc (length s) = omega (arith, length-append s (c ∷ [])) in
    let nothing = rw size at (byte_at_end (s ++ (c ∷ []))) in
    rw size (ground (arith, nothing, cut_last s c (length s) h refl))

below : (ℕ → Bool) → ℕ → Bool
below f zero = true
below f (suc n) = f n && below f n

below_lem : (f : ℕ → Bool) (n t : ℕ) → below f n ≡ true → t < n → f t ≡ true
unfolding below
below_lem f zero t h l = ground arith
below_lem f (suc n) t h l = elim (Bool-cases (t == n)) [
  | inl last ↦ rw ((==_iff t n).0 last) (ground arith)
  | inr before ↦ below_lem f n t (ground arith) (ground arith)
]

has_overflow : ℕ → Bool
has_overflow t = t == 0 || suc (length (to_host t)) == 19

all_overflow : below has_overflow 46 ≡ true
unfolding below has_overflow to_host show_int show_nat digits
all_overflow = refl

-- The name of a host between 1 and 45 takes 19 bytes with the zero at its end; `to_addr` has 18.
pub to_host-overflows : (t : ℕ) → 1 ≤ t → t ≤ 45 → suc (length (to_host t)) ≡ 19
unfolding has_overflow
to_host-overflows t l u =
    ground (arith, below_lem has_overflow 46 t all_overflow, ==_iff (suc (length (to_host t))) 19)

-- A message that an unreliable network loses.
abbrev pub IsDropped : ℕ → ℕ → ℕ → Type 0
IsDropped net_status rand t = (net_status ≡ 3) × (rand % 10 ≡ 0) × (t ≢ 44)

-- The index of the last byte of a message that is not zero, or 0 where there is none.
abbrev pub IsLast : Bytes → ℕ → Type 0
IsLast message n = All (λ c. c ≡ 0) (drop (suc n) message) × ((byte_at message n ≢ 0) ⊎ (n ≡ 0))

drop_zero :
    (s : Bytes) (k : ℕ)
    → byte_at s k ≡ 0
    → All (λ c. c ≡ 0) (drop (suc k) s)
    → All (λ c. c ≡ 0) (drop k s)
unfolding byte_at
drop_zero [] zero e h = tt
drop_zero [] (suc k) e h = tt
drop_zero (c ∷ s) zero e h = (e, h)
drop_zero (c ∷ s) (suc k) e h = drop_zero s k e h

nothing_behind : (s : Bytes) → All (λ c. c ≡ 0) (drop (suc (length s)) s)
nothing_behind [] = tt
nothing_behind (c ∷ s) = nothing_behind s

cut-IsLast :
    (k : ℕ) (message : Bytes)
    → All (λ c. c ≡ 0) (drop (suc k) message)
    → IsLast message (cut k message)
unfolding cut
cut-IsLast zero message h = (h, inr refl)
cut-IsLast (suc k) message h = elim (Bool-cases (byte_at message (suc k) == 0)) [
  | inl empty ↦ rw empty (
      cut-IsLast k message
        (drop_zero message (suc k) ((==_iff (byte_at message (suc k)) 0).0 empty) h))
  | inr last ↦ rw last (h, inl (λ e. ground (arith, last, e)))
]

-- What becomes of a message by its first byte: it is forwarded, ends the connection, or neither.
fate :
    (net_status rand t : ℕ)
    → ((1 ≤ t) × (t ≤ 45) × (¬ IsDropped net_status rand t))
      ⊎ (((t ≡ 46) × (¬ IsDropped net_status rand t))
          ⊎ ((t ≡ 0) ⊎ ((46 < t) ⊎ IsDropped net_status rand t)))
fate net_status rand t = ground arith

route_overflows :
    (net_status rand : ℕ) (calls : Calls) (message : Bytes) (s : Session)
    → 1 ≤ byte_at message 0
    → byte_at message 0 ≤ 45
    → ¬ IsDropped net_status rand (byte_at message 0)
    → route net_status rand calls message s ≡ none
unfolding route deliver
route_overflows net_status rand calls message s l u kept =
    ground (arith, l, u, kept, to_host-overflows (byte_at message 0) l u)

route_ends :
    (net_status rand : ℕ) (calls : Calls) (message : Bytes) (s : Session)
    → byte_at message 0 ≡ 46
    → ¬ IsDropped net_status rand (byte_at message 0)
    → route net_status rand calls message s ≡ some (record (reply (digit 0) s) { is_open = false })
unfolding route deliver
route_ends net_status rand calls message s e kept = ground (arith, e, kept)

route_answers :
    (net_status rand : ℕ) (calls : Calls) (message : Bytes) (s : Session)
    → (byte_at message 0 ≡ 0)
      ⊎ ((46 < byte_at message 0) ⊎ IsDropped net_status rand (byte_at message 0))
    → route net_status rand calls message s ≡ some (reply (digit 0) s)
unfolding route deliver
route_answers net_status rand calls message s w = ground (arith, w)

-- What was said to the client and noted of a message, of which nothing was forwarded.
abbrev pub IsServed : ℕ → ℕ → Bytes → Session → Session → Type 0
IsServed net_status rand message s s' =
    let t = byte_at message 0 in
    ((n : ℕ) × IsLast message n × (s'.log ≡ s.log ++ log_lines message n))
    × (s'.forwarded ≡ s.forwarded)
    × (s'.replies ≡ s.replies ++ (digit 0 ∷ []))
    × (((t ≡ 46) × (¬ IsDropped net_status rand t) × (s'.is_open ≡ false))
        ⊎ (((t ≡ 0) ⊎ ((46 < t) ⊎ IsDropped net_status rand t)) × (s'.is_open ≡ s.is_open)))

-- What the switch does with a message shorter than its buffer. If the first byte is between 1 and 45,
-- and the message is not dropped (in an unreliable network, when rand() gives a multiple of 10, and
-- the byte is not 44), the name of the host to forward it to is written behind the end of `to_addr`.
-- Otherwise the message is logged, with the index of its last byte other than zero for its length,
-- answered by the digit 0, and not forwarded; the connection ends after it if the byte is 46 and the
-- message is not dropped, and goes on if the byte is 0 or above 46 or the message is dropped.
pub handle_message-IsServed :
    (net_status rand : ℕ) (calls : Calls) (message : Bytes) (s : Session)
    → length message < buffer_size
    → ((1 ≤ byte_at message 0)
        × (byte_at message 0 ≤ 45)
        × (¬ IsDropped net_status rand (byte_at message 0))
        × (handle_message net_status rand calls message s ≡ none))
      ⊎ ((s' : Session) × (handle_message net_status rand calls message s ≡ some s')
          × IsServed net_status rand message s s')
unfolding handle_message message_length reply
handle_message-IsServed net_status rand calls message s small =
    let n = cut (length message) message in
    let last = cut-IsLast (length message) message (nothing_behind message) in
    let logged = record s { log = s.log ++ log_lines message n } in
    let short : ltb (length message) buffer_size ≡ true = ground (arith, small) in
    elim (fate net_status rand (byte_at message 0)) [
      | inl (l, u, kept) ↦
          inl (l, u, kept, rw short (route_overflows net_status rand calls message logged l u kept))
      | inr (inl (e, kept)) ↦ inr (
        record (reply (digit 0) logged) { is_open = false },
        rw short (route_ends net_status rand calls message logged e kept),
        ((n, last, refl), refl, refl, inl (e, kept, refl)),
      )
      | inr (inr w) ↦ inr (
        reply (digit 0) logged,
        rw short (route_answers net_status rand calls message logged w),
        ((n, last, refl), refl, refl, inr (w, refl)),
      )
    ]
