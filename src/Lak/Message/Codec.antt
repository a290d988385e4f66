-- ===== src/Lak/Message/Codec.antt =====
-- What a receiver reads from the text of a message, and when it never finishes.
use aosproject.Prelude.{
  ◌>>=◌, >>=-eq-some, ℕ, zero, suc, ◌<◌, ◌≡◌, refl, ◌≢◌, true, none, some, List, [], ◌∷◌, ◌++◌,
  append-nil, arith, ltb, ◌>>=◌, length, All, ℤ, ◌==ℤ◌,
}
use aosproject.Text.{
  Bytes, space, show_int, atoi, first_field, rest_field, NoSpace, show_int-NoSpace, rest_field_last,
}
use aosproject.OrderedSet.{insert, insert_all, insert_all-append, IsSorted}
use aosproject.Node.MessageType.{MessageType, to_number, of_number, IsEnumerator}
use aosproject.Text.{
  IsOneDigit, length-show_digit, length-show_long, int_fields, first_int, rest_int, last_int,
  rest_last_int,
}
use aosproject.Lak.Message.{
  Entry, Message, precedes, show_start, show_entry, show_list, show_message, message_string,
  read_entry, read_list, read_fields, string_message, precedes_irrefl, precedes_trans,
}

-- The text whose last number so far is `z`, with the list still to come.
pending : ℤ → List Entry → Bytes
unfolding show_list
pending z es = show_int z ++ show_list es

-- The last number of a text that ends so.
abbrev pub last_number : ℤ → List Entry → ℤ
last_number z [] = z
last_number z (e ∷ es) = last_number e.seq es

-- A REQUEST whose field `relay`, which is not sent, is what the receiver's variable holds.
abbrev pub IsRequest : Entry → Entry → Type 0
IsRequest raw e = (e.kind ≡ MessageType.request) × (e.relay ≡ raw.relay)

rest_pending_nil : (z : ℤ) → rest_field (pending z []) ≡ show_int z
unfolding pending show_list
rest_pending_nil z = rw append-nil (rest_last_int z)

first_pending : (z : ℤ) (es : List Entry) → atoi (first_field (pending z es)) ≡ z
unfolding pending show_list
first_pending z [] = rw append-nil (last_int z)
first_pending z (e ∷ es) = first_int z _

entry_of : Entry → Entry → Entry
entry_of raw e = record {
  kind = MessageType.request;
  from = e.from;
  to = e.to;
  seq = e.seq;
  relay = raw.relay;
}

entry_of-IsRequest : (raw e : Entry) → IsRequest raw e → entry_of raw e ≡ e
unfolding entry_of
entry_of-IsRequest raw e h = ground arith

-- The text of an entry and of what follows it.
rest_pending_cons :
    (z : ℤ) (e : Entry) (es : List Entry)
    → e.kind ≡ MessageType.request
    → rest_field (pending z (e ∷ es)) ≡ show_start MessageType.request e (space ∷ pending e.seq es)
unfolding pending show_list show_entry
rest_pending_cons z e es h = rw (h, rest_int z) refl

read_entry_request :
    (raw e : Entry) (es : List Entry)
    → read_entry raw (show_start MessageType.request e (space ∷ pending e.seq es))
      ≡ (entry_of raw e, rest_field (pending e.seq es))
unfolding read_entry show_start to_number of_number entry_of ◌==ℤ◌
read_entry_request raw e es = simp (int_fields, first_pending)

long_start :
    (e : Entry) (rest : Bytes) → ltb 1 (length (show_start MessageType.request e rest)) ≡ true
unfolding show_start to_number show_int
long_start e rest = ground arith

read_list_cons :
    (fuel : ℕ) (raw e : Entry) (es : List Entry) (z : ℤ) (done : List Entry)
    → IsRequest raw e
    → read_list (suc fuel) raw (rest_field (pending z (e ∷ es))) done
      ≡ read_list fuel raw (rest_field (pending e.seq es)) (insert precedes e done)
unfolding read_list
read_list_cons fuel raw e es z done h =
    rw
      (
        rest_pending_cons z e es h.0,
        long_start e (space ∷ pending e.seq es),
        read_entry_request raw e es,
        entry_of-IsRequest raw e h,
      )
      refl

-- With a one-digit number at the end the loop stops there, with the whole list in the set.
read_list_stops :
    (raw : Entry) (es : List Entry) (z : ℤ) (done : List Entry)
    → All (IsRequest raw) es
    → IsOneDigit (last_number z es)
    → read_list (suc (length es)) raw (rest_field (pending z es)) done
      ≡ some (insert_all precedes es done)
unfolding insert_all
read_list_stops raw [] z done h d =
    rw (rest_pending_nil z) (unfold read_list in ground (arith, length-show_digit z d))
read_list_stops raw (e ∷ es) z done h d =
    rw (read_list_cons (suc (length es)) raw e es z done h.0)
      (read_list_stops raw es e.seq (insert precedes e done) h.1 d)

-- A text of two bytes or more without a space is never used up: every round leaves it as it was.
spins :
    (fuel : ℕ) (raw : Entry) (s : Bytes) (done : List Entry)
    → NoSpace s
    → 1 < length s
    → read_list fuel raw s done ≡ none
unfolding read_list read_entry
spins zero raw s done h l = refl
spins (suc fuel) raw s done h l =
    ground
      (arith, rest_field_last s h, spins fuel raw s (insert precedes (read_entry raw s).0 done) h l)

read_list_spins :
    (fuel : ℕ) (raw : Entry) (es : List Entry) (z : ℤ) (done : List Entry)
    → All (IsRequest raw) es
    → ¬ IsOneDigit (last_number z es)
    → read_list fuel raw (rest_field (pending z es)) done ≡ none
read_list_spins fuel raw [] z done h d =
    rw (rest_pending_nil z)
      (spins fuel raw (show_int z) done (show_int-NoSpace z) (length-show_long z d))
read_list_spins zero raw (e ∷ es) z done h d = unfold read_list in refl
read_list_spins (suc fuel) raw (e ∷ es) z done h d =
    rw (read_list_cons fuel raw e es z done h.0)
      (read_list_spins fuel raw es e.seq (insert precedes e done) h.1 d)

first_shown : (z : ℤ) (es : List Entry) → atoi (first_field (show_int z ++ show_list es)) ≡ z
unfolding pending
first_shown = first_pending

-- What is left of the text of a TOKEN behind its type and its sender.
token_rest :
    (fuel : ℕ) (raw : Entry) (m : Message)
    → m.kind ≡ MessageType.token
    → string_message fuel raw (message_string m) ≡ (
        read_list fuel raw (rest_field (pending m.to m.req_list)) [] >>= λ es. some (record {
          head = record raw { kind = MessageType.token; from = m.from; to = m.to };
          req_list = es;
        }))
unfolding string_message message_string show_start show_message read_fields to_number of_number
    pending
token_rest fuel raw m h = rw h (simp (int_fields, first_shown))

-- A TOKEN whose list is an ascending list of REQUESTs, and whose text ends in a number of one digit,
-- is read back whole, in as many rounds of the loop as the list is long and one more test. The text
-- ends in the sequence number of the last request, or in the receiver if the list is empty.
pub string_message-token :
    (raw : Entry) (m : Message)
    → m.kind ≡ MessageType.token
    → All (IsRequest raw) m.req_list
    → IsSorted precedes m.req_list
    → IsOneDigit (last_number m.to m.req_list)
    → string_message (suc (length m.req_list)) raw (message_string m)
      ≡ some (record {
        head = record raw { kind = MessageType.token; from = m.from; to = m.to };
        req_list = m.req_list;
      })
string_message-token raw m h requests sorted d =
    rw
      (
        token_rest (suc (length m.req_list)) raw m h,
        read_list_stops raw m.req_list m.to [] requests d,
        insert_all-append precedes precedes_irrefl precedes_trans m.req_list [] sorted tt,
      )
      refl

-- A TOKEN whose text ends in a number of more than one byte is never read: with any number of
-- rounds the loop is not done. So it is when a list of REQUESTs ends in a request with a sequence
-- number above 9, or an empty list goes to a node above 9.
pub string_message-token_hangs :
    (fuel : ℕ) (raw : Entry) (m : Message)
    → m.kind ≡ MessageType.token
    → All (IsRequest raw) m.req_list
    → ¬ IsOneDigit (last_number m.to m.req_list)
    → string_message fuel raw (message_string m) ≡ none
string_message-token_hangs fuel raw m h requests d =
    rw (token_rest fuel raw m h, read_list_spins fuel raw m.req_list m.to [] requests d) refl

-- The fields that the text of a message other than a TOKEN carries.
abbrev pub carried : MessageType → Entry → Entry → Entry
carried MessageType.request raw e = record e { relay = raw.relay }
carried MessageType.relay raw e = e
carried _ raw e = record e { seq = raw.seq; relay = raw.relay }

read-show :
    (fuel : ℕ) (raw : Entry) (k : MessageType) (f t s r : ℤ) (es : List Entry)
    → IsEnumerator k
    → k ≢ MessageType.token
    → let e : Entry = record { kind = k; from = f; to = t; seq = s; relay = r } in
      string_message fuel raw (show_message k (record { head = e; req_list = es }))
      ≡ some (record { head = carried k raw e; req_list = [] })
unfolding string_message show_message show_entry show_start read_fields to_number of_number
read-show fuel raw MessageType.request f t s r es h n = simp (append-nil, int_fields)
read-show fuel raw MessageType.release f t s r es h n = simp (append-nil, int_fields)
read-show fuel raw MessageType.receive f t s r es h n = simp (append-nil, int_fields)
read-show fuel raw MessageType.ack f t s r es h n = simp (append-nil, int_fields)
read-show fuel raw MessageType.relay f t s r es h n = simp (append-nil, int_fields)
read-show fuel raw MessageType.token f t s r es h n = absurd (n refl)
read-show fuel raw MessageType.lock f t s r es h n = simp (append-nil, int_fields)
read-show fuel raw MessageType.fail f t s r es h n = simp (append-nil, int_fields)
read-show fuel raw MessageType.inquire f t s r es h n = simp (append-nil, int_fields)
read-show fuel raw MessageType.relinquish f t s r es h n = simp (append-nil, int_fields)
read-show fuel raw (MessageType.unknown z) f t s r es h n = elim h [ ]

-- Every message of another type than TOKEN is read back with its type, sender and receiver, a
-- REQUEST with its sequence number and a RELAY with that and the node that relayed it; the other
-- fields are what the receiver's variable held, and the list is empty. The loop is not entered.
pub string_message-plain_message :
    (fuel : ℕ) (raw : Entry) (m : Message)
    → IsEnumerator m.kind
    → m.kind ≢ MessageType.token
    → string_message fuel raw (message_string m)
      ≡ some (record { head = carried m.kind raw m.head; req_list = [] })
unfolding message_string
string_message-plain_message fuel raw m h n =
    read-show fuel raw m.kind m.from m.to m.seq m.relay m.req_list h n

show_kind :
    (k : MessageType) (m : Message)
    → IsEnumerator k
    → of_number (atoi (first_field (show_message k m))) ≡ k
unfolding show_message show_entry show_start to_number of_number
show_kind MessageType.request m h = simp int_fields
show_kind MessageType.release m h = simp int_fields
show_kind MessageType.receive m h = simp int_fields
show_kind MessageType.ack m h = simp int_fields
show_kind MessageType.relay m h = simp int_fields
show_kind MessageType.token m h = simp int_fields
show_kind MessageType.lock m h = simp int_fields
show_kind MessageType.fail m h = simp int_fields
show_kind MessageType.inquire m h = simp int_fields
show_kind MessageType.relinquish m h = simp int_fields
show_kind (MessageType.unknown z) m h = elim h [ ]

-- The type of a message can be read from its text.
pub message_string-kind :
    (m : Message) → IsEnumerator m.kind → of_number (atoi (first_field (message_string m))) ≡ m.kind
unfolding message_string
message_string-kind m h = show_kind m.kind m h

-- What is read has the type that stands first.
pub read_fields-kind :
    (fuel : ℕ) (raw : Entry) (k : MessageType) (s : Bytes) (msg : Message)
    → read_fields fuel raw k s ≡ some msg
    → msg.kind ≡ k
unfolding read_fields
read_fields-kind fuel raw MessageType.token s msg e =
    let (es, r, f) = >>=-eq-some (read_list fuel raw (rest_field (rest_field s)) []) _ e in cc
read_fields-kind fuel raw MessageType.request s msg e = cc
read_fields-kind fuel raw MessageType.relay s msg e = cc
read_fields-kind fuel raw _ s msg e = cc
