-- ===== src/Results/Log.antt =====
-- `get_results`: the logs of the switches, as the test bed reads them.
pub mod Quiet
use aosproject.Prelude.{
  ℕ, zero, suc, ◌+◌, ◌-◌, ◌*◌, ◌/◌, ◌%◌, ◌^◌, ◌≤◌, ◌<◌, ◌≡◌, refl, sym, ap, ◌∙◌, subst, ◌≢◌, ◌↔◌,
  ◌⊎◌, inl, inr, Bool, true, false, ◌&&◌, ◌||◌, not, Option, none, some, List, [], ◌∷◌, ◌++◌, map,
  append-nil, append_assoc, arith, ltb, leb, ◌==◌, if◌then◌else◌, ==_iff, Bool-cases, Option-cases,
  ◌>>=◌, >>=-eq-some, length, get_elem?, set, take, drop, replicate, In, All, length-append,
  length-replicate, In-append_left, In-append_right, In-append_cases, All-append, All-In, ℤ, pos,
  negsuc, minus_one, ◌==ℤ◌, ltb_ℤ, suc_ℤ, pred_ℤ, to_unsigned, ℤ-discrete, ◌+ℤ◌, quotient, ==ℤ_iff,
  ==ℤ_refl, ltb_ℤ_irrefl, ltb_ℤ_trans, ltb_ℤ_connex,
}
use aosproject.Text.{Bytes, space, show_int, atoi}
use aosproject.Text.Decimal.{codes}
use aosproject.Node.Config.{Files}
use aosproject.Text.Stream.{Stream, fresh, cut_at, get_until, getline, get_word}
use aosproject.Network.Frame.{from_le, byte_at}
use aosproject.Quorum.Write.{trans_at}
use aosproject.Results.{CritSec, get_conflict, get_runtime, get_wait}

-- `memcpy( &time, &(buffer[2]), sizeof(long))`: `none` is a read behind the end of the string.
unfoldable pub time_at_two : Bytes → Option ℕ
unfolding from_le
time_at_two buffer =
    if leb 9 (length buffer) then some (from_le (take 8 (drop 2 (buffer ++ (0 ∷ []))))) else none

-- The list so far: the sections before the last, the last, and the counts.
pub record Reading : Type 0 where
  pub before : List CritSec
  pub current : CritSec
  pub msg_count : ℕ
  pub total_length : ℤ

abbrev pub empty_section : CritSec
empty_section = record { node = 0; requested = 0; started = 0; finished = 0 }

-- `current->next = ...; current = current->next;`.
unfoldable pub next_section : Reading → Reading
next_section r = record r { before = r.before ++ (r.current ∷ []); current = empty_section }

-- The loop that looks for the next control message; `count` is what it counts. `none`: out of fuel.
unfoldable pub find_control : ℕ → Bytes → Stream → ℕ → Option (Bytes × Stream × ℕ)
unfolding get_until byte_at
find_control zero buffer st count = none
find_control (suc fuel) buffer st count =
    let (clen, st1) = getline st [] in
    let (next, st2) = getline st1 buffer in
    let more = find_control fuel next st2 (count + 1) in
    if byte_at buffer 0 == 255 || st.eof then some (buffer, st, count) else more

-- From the request on: the section is entered, and left. What is read next stands in the buffer.
read_finish : ℕ → Bytes → Stream → Reading → Option (Bytes × Stream × Reading)
unfolding get_until find_control byte_at time_at_two next_section
read_finish fuel buffer st r = find_control fuel buffer st 0 >>= λ found.
    let (buffer', st', other) = found in
    if st'.eof || not (byte_at buffer' 1 == b'2')
    then (let (next, st2) = getline st' buffer' in some (next, st2, next_section r))
    else (time_at_two buffer' >>= λ t.
        let (next, st2) = getline st' buffer' in
        some (next, st2, next_section (record r { current = record (r.current) { finished = t } })))

read_entry : ℕ → Bytes → Stream → Reading → Option (Bytes × Stream × Reading)
unfolding get_word get_until find_control byte_at time_at_two next_section read_finish
read_entry fuel buffer st r =
    let (word, st1) = get_word st buffer in
    find_control fuel word st1 r.msg_count >>= λ found.
    let (buffer', st', count) = found in
    let r' : Reading = record r { msg_count = count } in
    if st'.eof || not (byte_at buffer' 1 == b'1')
    then (let (next, st2) = getline st' buffer' in some (next, st2, next_section r'))
    else (time_at_two buffer' >>= λ t.
        let (next, st2) = getline st' buffer' in
        read_finish fuel next st2 (record r' { current = record (r'.current) { started = t } }))

-- One round of `while( ! ifile.eof())`.
unfoldable pub read_record : ℕ → ℕ → Bytes → Stream → Reading → Option (Bytes × Stream × Reading)
unfolding get_until byte_at time_at_two read_entry
read_record fuel node buffer st r =
    let (clen, st1) = getline st [] in
    let (next, st2) = getline st1 buffer in
    if not (byte_at buffer 0 == 255)
    then some (
      next,
      st2,
      record r { msg_count = r.msg_count + 1; total_length = r.total_length +ℤ atoi clen },
    )
    else if byte_at buffer 1 == b'3'
    then (time_at_two buffer >>= λ t.
        read_entry fuel buffer st1
          (record r { current = record (r.current) { node = node; requested = t } }))
    else some (next, st2, r)

unfoldable pub read_records : ℕ → ℕ → Bytes → Stream → Reading → Option Reading
unfolding read_record
read_records zero node buffer st r = none
read_records (suc fuel) node buffer st r = if st.eof then some r else (do
  (buffer', st', r') ← read_record fuel node buffer st r
  read_records fuel node buffer' st' r')

-- One log. Every loop ends within as many rounds as the file is long, and one more.
unfoldable pub read_log : ℕ → Bytes → Reading → Option Reading
unfolding get_until read_records
read_log node file r =
    let (buffer, st) = getline (record { rest = file; eof = false }) [] in
    read_records (suc (suc (length file))) node buffer st r

unfoldable pub log_name : ℕ → Bytes
log_name t = if ltb t 10 then codes "log0" ++ show_int (pos t) else codes "log" ++ show_int (pos t)

-- `for( int x = 1; x<= num_nodes; x++)`.
unfoldable pub read_logs : ℕ → ℕ → Files → Reading → Option Reading
unfolding trans_at log_name read_log
read_logs zero x files r = some r
read_logs (suc left) x files r = do
  t ← trans_at (pos x)
  r' ← read_log t (files (log_name t)) r
  read_logs left (suc x) files r'

pub record Data : Type 0 where
  pub msg_count : ℕ
  pub avg_length : ℤ
  pub avg_wait : ℕ
  pub runtime : ℕ
  pub conflict : Bool

summary_of : Reading → CritSec → List CritSec → Data
unfolding get_conflict get_runtime get_wait
summary_of r head rest = record {
  msg_count = r.msg_count;
  avg_length = (if r.msg_count == 0 then pos 0 else quotient r.total_length r.msg_count);
  avg_wait = get_wait head rest;
  runtime = get_runtime head rest;
  conflict = get_conflict head rest;
}

-- `head` is the first section of the list.
summary : Reading → List CritSec → Data
unfolding summary_of
summary r [] = summary_of r r.current []
summary r (head ∷ rest) = summary_of r head (rest ++ (r.current ∷ []))

unfoldable pub get_results : ℕ → Files → Option Data
unfolding read_logs summary
get_results num_nodes files = do
  r ←
      read_logs num_nodes 1 files
        (record { before = []; current = empty_section; msg_count = 0; total_length = pos 0 })
  some (summary r r.before)
