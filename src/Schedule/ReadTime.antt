-- ===== src/Schedule/ReadTime.antt =====
-- Times and requests, as `read_config` reads them.
use aosproject.Prelude.{
  ℕ, ◌+◌, ◌*◌, ◌%◌, ◌^◌, ◌≤◌, ◌<◌, ◌≡◌, refl, sym, ap, ◌∙◌, ◌≢◌, Option, some, [], ◌∷◌, ◌++◌, arith,
  ◌>>=◌, All-append,
}
use aosproject.Text.{Bytes, show_nat, IsDigit}
use aosproject.Text.Stream.{
  Stream, fresh, get_until, strtol, strtol-show_nat, Without, show_nat-Without, get_until-append,
  get_until-Without,
}
use aosproject.Node.Config.{to_ulong}
use aosproject.Quorum.Write.{trans_at, host, trans_at_lem}
use aosproject.Family.{update}
use aosproject.Schedule.Write.{Config}
use aosproject.Schedule.Read.{add_ulong, read_time, add_request}
use aosproject.Schedule.ConfigText.{Time, total, IsShort, time_text, request, request_text}

to_ulong_small : (n : ℕ) → n < 2 ^ 63 → to_ulong (strtol (show_nat n)) ≡ n
unfolding to_ulong
to_ulong_small n h = rw (strtol-show_nat n h) (omega (arith, h))

-- `read_time` from each `getline` on.
abbrev with_parts : Bytes → Bytes → Bytes → ℕ
with_parts m s ms =
    add_ulong (add_ulong (to_ulong (strtol m) * 60 % 2 ^ 64) (strtol s) * 1000 % 2 ^ 64) (strtol ms)

abbrev with_seconds : ℕ → Bytes → Bytes × Stream → ℕ
with_seconds last m g = with_parts m g.0 (get_until last g.1 g.0).0

abbrev with_minutes : ℕ → Bytes × Stream → ℕ
with_minutes last g = with_seconds last g.0 (get_until (b':') g.1 g.0)

add_ulong_small :
    (a b : ℕ) → a + b < 2 ^ 63 → b < 2 ^ 63 → add_ulong a (strtol (show_nat b)) ≡ a + b
unfolding add_ulong
add_ulong_small a b h l = rw (to_ulong_small b l) (omega (arith, h))

with_parts_lem :
    (m s ms : ℕ)
    → (m * 60 + s) * 1000 + ms < 2 ^ 63
    → with_parts (show_nat m) (show_nat s) (show_nat ms) ≡ (m * 60 + s) * 1000 + ms
with_parts_lem m s ms h =
    ap
      (λ a.
        add_ulong (add_ulong (a * 60 % 2 ^ 64) (strtol (show_nat s)) * 1000 % 2 ^ 64)
          (strtol (show_nat ms)))
      (to_ulong_small m (omega (arith, h)))
    ∙ ap (λ a. add_ulong (add_ulong a (strtol (show_nat s)) * 1000 % 2 ^ 64) (strtol (show_nat ms)))
        (omega (arith, h))
    ∙ ap (λ a. add_ulong (a * 1000 % 2 ^ 64) (strtol (show_nat ms)))
        (add_ulong_small (m * 60) s (omega (arith, h)) (omega (arith, h)))
    ∙ ap (λ a. add_ulong a (strtol (show_nat ms))) (omega (arith, h))
    ∙ add_ulong_small ((m * 60 + s) * 1000) ms h (omega (arith, h))

no-IsDigit : ¬ IsDigit (b':')
no-IsDigit h = omega (arith, h)

pub read_time-time_text :
    (last : ℕ) (t : Time) → ¬ IsDigit last → IsShort t → read_time last (time_text t) ≡ total t
unfolding read_time
read_time-time_text last t d h =
    let m = show_nat t.minutes in
    let s = show_nat t.seconds in
    let ms = show_nat t.milliseconds in
    ap (with_minutes last) (
      get_until-append (b':') m (s ++ (b':' ∷ ms)) []
        (show_nat-Without (b':') no-IsDigit t.minutes))
    ∙ ap (with_seconds last m)
        (get_until-append (b':') s ms m (show_nat-Without (b':') no-IsDigit t.seconds))
    ∙ ap (λ (g : Bytes × Stream). with_parts m s g.0)
        (get_until-Without last ms s (show_nat-Without last d t.milliseconds))
    ∙ with_parts_lem t.minutes t.seconds t.milliseconds h

pub time_text-Without : (d : ℕ) → ¬ IsDigit d → d ≢ b':' → (t : Time) → Without d (time_text t)
time_text-Without d h c t =
    All-append (λ b. b ≢ d) (show_nat t.minutes) _ (show_nat-Without d h t.minutes)
      (
        (λ e. c (sym e)),
        All-append (λ b. b ≢ d) (show_nat t.seconds) _ (show_nat-Without d h t.seconds)
            ((λ e. c (sym e)), show_nat-Without d h t.milliseconds),
      )

-- `add_request` from each `getline` on.
abbrev with_request : Config → Bytes → Bytes × Stream → Option Config
with_request c number g = trans_at (strtol number) >>= λ node.
    some (record c { times = update c.times node (c.times node ++ (read_time (b')') g.0 ∷ [])) })

abbrev with_number : Config → Bytes × Stream → Option Config
with_number c g = with_request c g.0 (get_until (b')') g.1 [])

abbrev with_before : Config → Bytes × Stream → Option Config
with_before c g = with_number c (get_until (b',') g.1 g.0)

node_host : (x : ℕ) → 1 ≤ x → x ≤ 36 → trans_at (strtol (show_nat x)) ≡ some (host x)
node_host x l h = ap trans_at (strtol-show_nat x (omega (arith, h))) ∙ (trans_at_lem x l h).0

abbrev pub at_host : Config → ℕ → Time → Config
at_host c x t = record c { times = update c.times (host x) (c.times (host x) ++ (total t ∷ [])) }

with_request_lem :
    (c : Config) (number time : Bytes) (rest : Stream) (x : ℕ) (t : Time)
    → trans_at (strtol number) ≡ some (host x)
    → read_time (b')') time ≡ total t
    → with_request c number (time, rest) ≡ some (at_host c x t)
with_request_lem c number time rest x t e r = rw (e, r) refl

bracket : ¬ IsDigit (b')')
bracket h = omega (arith, h)

pub add_request-request_text :
    (x : ℕ) (t : Time) (c : Config)
    → (1 ≤ x) × (x ≤ 36) × IsShort t
    → add_request (request_text (request x t)) c ≡ some (at_host c x t)
unfolding add_request
add_request-request_text x t c (l, h, short) =
    let time = time_text t in
    let digits_of : Without (b',') (show_nat x) =
      show_nat-Without (b',') (λ e. omega (arith, e)) x in
    ap (with_before c)
      (get_until-append (b'(') [] (show_nat x ++ (b',' ∷ (time ++ (b')' ∷ [])))) [] tt)
    ∙ ap (with_number c) (get_until-append (b',') (show_nat x) (time ++ (b')' ∷ [])) [] digits_of)
    ∙ ap (with_request c (show_nat x)) (
        get_until-append (b')') time [] []
          (time_text-Without (b')') bracket (λ e. omega (arith, e)) t))
    ∙ with_request_lem c (show_nat x) time (fresh []) x t (node_host x l h)
        (read_time-time_text (b')') t bracket short)
