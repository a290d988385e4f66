-- ===== src/Network/Frame.antt =====
-- The buffer that `NodeNetwork::send` fills and the accepting thread reads.
use aosproject.Prelude.{
  ℕ, zero, suc, ◌+◌, ◌*◌, ◌/◌, ◌%◌, ◌^◌, ◌<◌, ◌≡◌, refl, ap, ◌∙◌, ◌≢◌, [], ◌∷◌, ◌++◌, arith, ◌==◌,
  if◌then◌else◌, length, take, drop,
}
use aosproject.Text.{Bytes}
use aosproject.Node.State.{Packet}

-- `memcpy` of an integer of `k` bytes: the least significant first.
unfoldable pub le_bytes : ℕ → ℕ → Bytes
le_bytes zero n = []
le_bytes (suc k) n = n % 256 ∷ le_bytes k (n / 256)

unfoldable pub from_le : Bytes → ℕ
from_le [] = 0
from_le (c ∷ s) = c + 256 * from_le s

-- A `char*`: the bytes before the first zero.
unfoldable pub c_string : Bytes → Bytes
c_string [] = []
c_string (c ∷ s) = let rest = c_string s in if c == 0 then [] else c ∷ rest

unfoldable pub byte_at : Bytes → ℕ → ℕ
byte_at [] i = 0
byte_at (c ∷ s) zero = c
byte_at (c ∷ s) (suc i) = byte_at s i

-- `SOCKET_MAX_BUFFER_SIZE-2-sizeof(long)`.
abbrev pub text_size : ℕ
text_size = 1014

-- What `send` puts into its buffer. It copies as many bytes as there is room for, and so also what
-- lies behind the message in memory.
unfoldable pub frame : Packet → Bytes → Bytes
unfolding le_bytes
frame p behind =
    p.to % 256
    ∷ (p.from % 256 ∷ (le_bytes 8 p.timestamp ++ take text_size (p.text ++ (0 ∷ behind))))

-- The accepting thread's reading of a buffer; bytes past the end of the list are zero.
unfoldable pub parse_frame : Bytes → Packet
unfolding from_le c_string byte_at
parse_frame message = record {
  from = byte_at message 1;
  to = byte_at message 0;
  timestamp = from_le (take 8 (drop 2 message));
  text = c_string (take text_size (drop 10 message));
}

abbrev pub IsText : Bytes → Type 0
IsText [] = Unit {0}
IsText (c ∷ s) = (c ≢ 0) × IsText s

c_string-take :
    (k : ℕ) (text behind : Bytes)
    → IsText text
    → length text < k
    → c_string (take k (text ++ (0 ∷ behind))) ≡ text
unfolding c_string
c_string-take zero text behind t l = ground arith
c_string-take (suc k) [] behind t l = refl
c_string-take (suc k) (c ∷ text) behind t l = ground (arith, c_string-take k text behind)

take-take : (k : ℕ) (s : Bytes) → take k (take k s) ≡ take k s
take-take zero s = refl
take-take (suc k) [] = refl
take-take (suc k) (c ∷ s) = ap (λ r. c ∷ r) (take-take k s)

-- `256 ^ k`.
bound : ℕ → ℕ
bound zero = 1
bound (suc k) = 256 * bound k

from_le-le_bytes : (k n : ℕ) (s : Bytes) → n < bound k → from_le (take k (le_bytes k n ++ s)) ≡ n
unfolding le_bytes from_le bound
from_le-le_bytes zero n s h = ground arith
from_le-le_bytes (suc k) n s h = ground (arith, from_le-le_bytes k (n / 256) s (omega (arith, h)))

same_packet :
    {f t s f' t' s' : ℕ} {x x' : Bytes}
    → f ≡ f'
    → t ≡ t'
    → s ≡ s'
    → x ≡ x'
    → Path Packet
        (record { from = f; to = t; timestamp = s; text = x })
        (record { from = f'; to = t'; timestamp = s'; text = x' })
same_packet a b c d = cc

-- A frame is read as the packet that it was made of, whatever lay behind the message, if the node
-- numbers fit a byte, the time fits 8, and the text has no zero byte and fits with the one behind it.
pub parse_frame-frame :
    (p : Packet) (behind : Bytes)
    → (p.to < 256) × (p.from < 256) × (p.timestamp < 2 ^ 64)
    → IsText p.text
    → length p.text < text_size
    → parse_frame (frame p behind) ≡ p
unfolding parse_frame frame byte_at le_bytes bound
parse_frame-frame p behind (to, from, time) t l =
    let stamp = from_le-le_bytes 8 p.timestamp (take text_size (p.text ++ (0 ∷ behind))) time in
    let text =
      ap c_string (take-take text_size (p.text ++ (0 ∷ behind)))
      ∙ c_string-take text_size p.text behind t l in
    let first : p.to % 256 ≡ p.to = omega (arith, to) in
    let second : p.from % 256 ≡ p.from = omega (arith, from) in same_packet second first stamp text
