-- ===== src/Node/MessageType.antt =====
-- `enum MessageType` of node/Node.h, with the conversions to and from the number in a message.
use aosproject.Prelude.{ℕ, ◌≡◌, refl, Bool, true, false, arith, ◌==◌, if◌then◌else◌, ℤ, pos, negsuc}

-- `unknown` is a number that the cast `(MessageType) atoi(...)` takes to no enumerator.
pub data MessageType : Type 0 where
  request release receive ack relay token lock fail inquire relinquish : MessageType
  unknown : ℤ → MessageType

unfoldable pub to_number : MessageType → ℤ
to_number request = pos 0
to_number release = pos 1
to_number receive = pos 2
to_number ack = pos 3
to_number relay = pos 4
to_number token = pos 5
to_number lock = pos 6
to_number fail = pos 7
to_number inquire = pos 8
to_number relinquish = pos 9
to_number (unknown z) = z

enumerator : ℕ → MessageType
enumerator n =
    if n == 0
    then request
    else if n == 1
    then release
    else if n == 2
    then receive
    else if n == 3
    then ack
    else if n == 4
    then relay
    else if n == 5
    then token
    else if n == 6
    then lock
    else if n == 7
    then fail
    else if n == 8
    then inquire
    else if n == 9
    then relinquish
    else unknown (pos n)

unfoldable pub of_number : ℤ → MessageType
unfolding enumerator
of_number (pos n) = enumerator n
of_number (negsuc n) = unknown (negsuc n)

abbrev pub IsEnumerator : MessageType → Type 0
IsEnumerator (unknown z) = ⊥
IsEnumerator _ = Unit {0}

pub of_number-to_number : (t : MessageType) → IsEnumerator t → of_number (to_number t) ≡ t
unfolding of_number to_number
of_number-to_number request h = refl
of_number-to_number release h = refl
of_number-to_number receive h = refl
of_number-to_number ack h = refl
of_number-to_number relay h = refl
of_number-to_number token h = refl
of_number-to_number lock h = refl
of_number-to_number fail h = refl
of_number-to_number inquire h = refl
of_number-to_number relinquish h = refl
of_number-to_number (unknown z) h = elim h [ ]

pub to_number-of_number : (z : ℤ) → to_number (of_number z) ≡ z
unfolding of_number to_number
to_number-of_number (pos n) = ground arith
to_number-of_number (negsuc n) = refl

unfoldable pub is_fail : MessageType → Bool
is_fail fail = true
is_fail _ = false
