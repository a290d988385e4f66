-- ===== src/Results/Log/Quiet.antt =====
-- Logs that hold no request as `get_results` reads one.
use aosproject.Prelude.{
  ℕ, zero, suc, ◌+◌, ◌≤◌, ◌<◌, ◌≡◌, refl, sym, ◌∙◌, subst, ◌≢◌, ◌⊎◌, inl, inr, Bool, true, false,
  some, [], ◌∷◌, arith, ◌==◌, if◌then◌else◌, Bool-cases, length, All, ℤ, pos, ◌+ℤ◌,
}
use aosproject.Text.{Bytes, atoi}
use aosproject.Node.Config.{Files, newline, lines, add_byte}
use aosproject.Network.Frame.{byte_at}
use aosproject.Quorum.Write.{host, trans_at_lem}
use aosproject.Results.{get_conflict, get_runtime, max_finished, get_wait, add_waits}
use aosproject.Text.Stream.{Stream, cut_at, get_until, getline}
use aosproject.Results.Log.{
  Reading, empty_section, read_record, read_records, read_log, log_name, read_logs, Data, summary,
  summary_of, get_results,
}

-- A line that does not begin as `get_results` wants a request: a byte 255, and then the digit 3.
abbrev pub IsQuiet : Bytes → Type 0
IsQuiet line = (byte_at line 0 ≢ 255) ⊎ (byte_at line 1 ≢ b'3')

IsQuiet-nil : IsQuiet []
unfolding byte_at
IsQuiet-nil = inl (λ e. omega (arith, e))

lines-cut_line :
    (c : ℕ) (s : Bytes)
    → lines (c ∷ s) ≡ (cut_at newline (c ∷ s)).0 ∷ lines (cut_at newline (c ∷ s)).1
unfolding lines cut_at add_byte
lines-cut_line c [] = ground arith
lines-cut_line c (d ∷ s) = ground (arith, lines-cut_line d s)

-- What is left to read.
measure : Stream → ℕ
measure st = if st.eof then 0 else suc (length st.rest)

cut_line-length :
    (s : Bytes) → ((cut_at newline s).2 ≡ true) ⊎ (suc (length (cut_at newline s).1) ≤ length s)
unfolding cut_at
cut_line-length [] = inl refl
cut_line-length (c ∷ s) = ground (arith, cut_line-length s)

record Quiet (st : Stream) (got : Bytes) (st' : Stream) : Type 0 where
  line : IsQuiet got
  rest : All IsQuiet (lines st'.rest)
  less : (st.eof ≡ true) ⊎ (measure st' < measure st)
  no_more : measure st' ≤ measure st

cut_line-IsQuiet :
    (s : Bytes)
    → All IsQuiet (lines s)
    → IsQuiet (cut_at newline s).0 × All IsQuiet (lines (cut_at newline s).1)
cut_line-IsQuiet [] h = unfold cut_at lines in (IsQuiet-nil, tt)
cut_line-IsQuiet (c ∷ s) h = rw lines-cut_line at h

getline_at_end : (st : Stream) (buffer : Bytes) → st.eof ≡ true → getline st buffer ≡ (buffer, st)
unfolding get_until
getline_at_end st buffer e = rw e refl

getline_before_end :
    (st : Stream) (buffer : Bytes)
    → st.eof ≡ false
    → getline st buffer ≡ (
      (cut_at newline st.rest).0,
      record { rest = (cut_at newline st.rest).1; eof = (cut_at newline st.rest).2 },
    )
unfolding get_until
getline_before_end st buffer e = rw e refl

measure_cut :
    (st : Stream)
    → st.eof ≡ false
    → measure (record { rest = (cut_at newline st.rest).1; eof = (cut_at newline st.rest).2 })
      < measure st
unfolding measure
measure_cut st e = rw e (ground (arith, cut_line-length st.rest))

getline-Quiet :
    (st : Stream) (buffer : Bytes)
    → IsQuiet buffer
    → All IsQuiet (lines st.rest)
    → Quiet st (getline st buffer).0 (getline st buffer).1
getline-Quiet st buffer b h = elim (Bool-cases st.eof) [
  | inl end ↦
      subst (λ (g : Bytes × Stream). Quiet st g.0 g.1) (sym (getline_at_end st buffer end))
        (record { line = b; rest = h; less = inl end; no_more = omega arith })
  | inr on ↦
      let (q, qs) = cut_line-IsQuiet st.rest h in
      subst (λ (g : Bytes × Stream). Quiet st g.0 g.1) (sym (getline_before_end st buffer on))
        (record {
          line = q;
          rest = qs;
          less = inr (measure_cut st on);
          no_more = omega (arith, measure_cut st on);
        })
]

-- A round over such a line reads two lines, and leaves the list as it is.
read_record-quiet :
    (fuel node : ℕ) (buffer : Bytes) (st : Stream) (r : Reading)
    → IsQuiet buffer
    → (count : ℕ) × (total : ℤ) × (read_record fuel node buffer st r
        ≡ some (
          (getline (getline st []).1 buffer).0,
          (getline (getline st []).1 buffer).1,
          record r { msg_count = count; total_length = total },
        ))
unfolding read_record
read_record-quiet fuel node buffer st r b = elim (Bool-cases (byte_at buffer 0 == 255)) [
  | inr other ↦ (r.msg_count + 1, r.total_length +ℤ atoi (getline st []).0, rw other refl)
  | inl control ↦
      let no_request : (byte_at buffer 1 == b'3') ≡ false = ground (arith, control, b) in
      (r.msg_count, r.total_length, rw (control, no_request) refl)
]

-- Reading keeps the list of sections.
abbrev pub Keeps : Reading → Reading → Type 0
Keeps r r' = (r'.before ≡ r.before) × (r'.current ≡ r.current)

read_records_next :
    (fuel node : ℕ) (buffer buffer' : Bytes) (st st' : Stream) (r r' : Reading)
    → st.eof ≡ false
    → read_record fuel node buffer st r ≡ some (buffer', st', r')
    → read_records (suc fuel) node buffer st r ≡ read_records fuel node buffer' st' r'
unfolding read_records
read_records_next fuel node buffer buffer' st st' r r' on e = rw (e, on) refl

less_twice :
    {a b c f : ℕ} {end : Bool} → end ≡ false → (end ≡ true) ⊎ (b < a) → c ≤ b → a < suc f → c < f
less_twice on (inl end) le small = cc
less_twice on (inr less) le small = omega (arith, less, le, small)

start_measure : (file : Bytes) → measure (record { rest = file; eof = false }) ≡ suc (length file)
unfolding measure
start_measure file = refl

read_records-quiet :
    (fuel node : ℕ) (buffer : Bytes) (st : Stream) (r : Reading)
    → measure st < fuel
    → IsQuiet buffer
    → All IsQuiet (lines st.rest)
    → (r' : Reading) × (read_records fuel node buffer st r ≡ some r') × Keeps r r'
unfolding read_records
read_records-quiet zero node buffer st r f b h = absurd (omega (arith, f))
read_records-quiet (suc fuel) node buffer st r f b h = elim (Bool-cases st.eof) [
  | inl end ↦ (r, rw end refl, (refl, refl))
  | inr on ↦
      let first = getline-Quiet st [] IsQuiet-nil h in
      let second = getline-Quiet (getline st []).1 buffer b first.rest in
      let (count, total, e) = read_record-quiet fuel node buffer st r b in
      let next : Reading = record r { msg_count = count; total_length = total } in
      let (r', e', kept) =
        read_records-quiet fuel node (getline (getline st []).1 buffer).0
          (getline (getline st []).1 buffer).1 next (less_twice on first.less second.no_more f)
          second.line second.rest in
      (r', read_records_next fuel node buffer _ st _ r next on e ∙ e', kept)
]

read_log-quiet :
    (node : ℕ) (file : Bytes) (r : Reading)
    → All IsQuiet (lines file)
    → (r' : Reading) × (read_log node file r ≡ some r') × Keeps r r'
unfolding read_log
read_log-quiet node file r h =
    let st : Stream = record { rest = file; eof = false } in
    let first = getline-Quiet st [] IsQuiet-nil h in
    read_records-quiet (suc (suc (length file))) node (getline st []).0 (getline st []).1 r
      (omega (arith, first.no_more, start_measure file)) first.line first.rest

read_logs-quiet :
    (left x : ℕ) (files : Files) (r : Reading)
    → 1 ≤ x
    → x + left ≤ 37
    → ((y : ℕ) → x ≤ y → y < x + left → All IsQuiet (lines (files (log_name (host y)))))
    → (r' : Reading) × (read_logs left x files r ≡ some r') × Keeps r r'
unfolding read_logs
read_logs-quiet zero x files r l u h = (r, refl, (refl, refl))
read_logs-quiet (suc left) x files r l u h =
    let (r1, e1, (b1, c1)) =
      read_log-quiet (host x) (files (log_name (host x))) r (h x (omega arith) (omega arith)) in
    let (r2, e2, (b2, c2)) =
      read_logs-quiet left (suc x) files r1 (omega arith) (omega (arith, u))
        (λ y m n. h y (omega (arith, m)) (omega (arith, n))) in
    (r2, rw ((trans_at_lem x l (omega (arith, u))).0, e1) e2, (b2 ∙ b1, c2 ∙ c1))

-- When no line of the logs of the first `n` hosts begins as a request, the test bed gets a result: no
-- conflict, no running time and no wait.
pub get_results-quiet :
    (n : ℕ) (files : Files)
    → n ≤ 36
    → ((y : ℕ) → 1 ≤ y → y ≤ n → All IsQuiet (lines (files (log_name (host y)))))
    → (d : Data) × (get_results n files ≡ some d)
      × (d.conflict ≡ false)
      × (d.runtime ≡ 0)
      × (d.avg_wait ≡ 0)
unfolding get_results summary summary_of get_conflict get_runtime max_finished get_wait add_waits
get_results-quiet n files u h =
    let r0 : Reading = record {
      before = [];
      current = empty_section;
      msg_count = 0;
      total_length = pos 0;
    } in
    let (r, e, (b, c)) =
      read_logs-quiet n 1 files r0 (omega arith) (omega (arith, u))
        (λ y l m. h y l (omega (arith, m))) in
    (summary r r.before, rw e refl, rw b refl, rw (b, c) refl, rw (b, c) refl)
