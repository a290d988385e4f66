-- ===== src/Schedule/ReadRequests.antt =====
-- The list of requests, as `read_config` reads it.
use aosproject.Prelude.{
  ℕ, zero, suc, ◌<◌, ◌≡◌, refl, ap, ◌∙◌, ◌≢◌, false, Option, some, List, [], ◌∷◌, arith, length,
  All, All-append,
}
use aosproject.Text.{Bytes, show_nat}
use aosproject.Text.Decimal.{codes}
use aosproject.Text.Equal.{same_bytes}
use aosproject.Text.Stream.{Stream, fresh, getline, Without, show_nat-Without, get_until-append}
use aosproject.Node.Config.{newline}
use aosproject.Network.Frame.{byte_at, c_string}
use aosproject.Schedule.Write.{Config}
use aosproject.Schedule.Read.{is_skipped, reads_as, read_request, read_requests}
use aosproject.Schedule.ConfigText.{
  time_text, RequestLine, remark, gap, request, request_text, request_lines, IsRequestLine,
  scheduled,
}
use aosproject.Schedule.ReadTime.{time_text-Without, at_host, add_request-request_text}

-- The inner loop, from its `getline` on.
abbrev pub from_request : ℕ → Config → Bytes × Stream → Option (Bytes × Stream × Config)
from_request f c g = read_requests f g.0 g.1 c

pub request_text-Without : (l : RequestLine) → IsRequestLine l → Without newline (request_text l)
request_text-Without (remark text) h = ((λ e. omega (arith, e)), h)
request_text-Without gap h = tt
request_text-Without (request x t) h = (
  (λ e. omega (arith, e)),
  All-append (λ b. b ≢ newline) (show_nat x) _ (show_nat-Without newline (λ e. omega (arith, e)) x)
      (
        (λ e. omega (arith, e)),
        All-append (λ b. b ≢ newline) (time_text t) _
            (time_text-Without newline (λ e. omega (arith, e)) (λ e. omega (arith, e)) t)
            ((λ e. omega (arith, e)), tt),
      ),
)

abbrev pub asked : Config → RequestLine → Config
asked c (remark text) = c
asked c gap = c
asked c (request x t) = at_host c x t

pub read_request-asked :
    (l : RequestLine) (c : Config)
    → IsRequestLine l
    → (reads_as (request_text l) (codes "request_end") ≡ false)
      × (read_request (request_text l) c ≡ some (asked c l))
unfolding read_request reads_as is_skipped c_string same_bytes byte_at
read_request-asked (remark text) c h = (refl, refl)
read_request-asked gap c h = (refl, refl)
read_request-asked (request x t) c h = (refl, add_request-request_text x t c h)

pub read_requests-next :
    (f : ℕ) (buffer rest : Bytes) (c c' : Config)
    → reads_as buffer (codes "request_end") ≡ false
    → read_request buffer c ≡ some c'
    → read_requests (suc f) buffer (fresh rest) c ≡ from_request f c' (getline (fresh rest) buffer)
unfolding read_requests
read_requests-next f buffer rest c c' e r = rw (e, r) refl

end_Without : Without newline (codes "request_end")
end_Without = ground arith

read_requests-end :
    (f : ℕ) (rest : Bytes) (c : Config)
    → read_requests (suc f) (codes "request_end") (fresh rest) c
      ≡ some (codes "request_end", fresh rest, c)
unfolding read_requests reads_as c_string same_bytes
read_requests-end f rest c = refl

pub read_requests-scheduled :
    (ls : List RequestLine) (f : ℕ) (rest b : Bytes) (c : Config)
    → All IsRequestLine ls
    → length ls < f
    → from_request f c (getline (fresh (request_lines ls rest)) b)
      ≡ some (codes "request_end", fresh rest, scheduled c ls)
read_requests-scheduled ls zero rest b c h l = absurd (omega (arith, l))
read_requests-scheduled [] (suc f) rest b c h l =
    ap (from_request (suc f) c) (get_until-append newline (codes "request_end") rest b end_Without)
    ∙ read_requests-end f rest c
read_requests-scheduled (l ∷ ls) (suc f) rest b c (h, hs) le =
    let (no_end, next) = read_request-asked l c h in
    ap (from_request (suc f) c) (
      get_until-append newline (request_text l) (request_lines ls rest) b
        (request_text-Without l h))
    ∙ read_requests-next f (request_text l) (request_lines ls rest) c (asked c l) no_end next
    ∙ read_requests-scheduled ls f rest (request_text l) (asked c l) hs (omega (arith, le))
    ∙ ap (λ c'. some (codes "request_end", fresh rest, c')) (scheduled_asked l c ls)
  where
    scheduled_asked :
        (l : RequestLine) (c : Config) (ls : List RequestLine)
        → scheduled (asked c l) ls ≡ scheduled c (l ∷ ls)
    scheduled_asked (remark text) c ls = refl
    scheduled_asked gap c ls = refl
    scheduled_asked (request x t) c ls = refl
