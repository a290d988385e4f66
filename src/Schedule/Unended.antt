-- ===== src/Schedule/Unended.antt =====
-- A list of requests without its end, as `read_config` reads it.
use aosproject.Prelude.{
  ℕ, zero, suc, ◌≡◌, refl, ap, ◌∙◌, true, Option, none, List, [], ◌∷◌, ◌++◌, arith, All,
}
use aosproject.Text.{Bytes}
use aosproject.Text.Decimal.{codes}
use aosproject.Text.Equal.{same_bytes}
use aosproject.Text.Stream.{Stream, fresh, get_until, getline, Without, get_until-append}
use aosproject.Node.Config.{newline}
use aosproject.Network.Frame.{byte_at, c_string}
use aosproject.Schedule.Write.{Config}
use aosproject.Schedule.Read.{
  no_config, is_skipped, reads_as, read_request, read_requests, read_line, read_lines, read_config,
}
use aosproject.Schedule.ConfigText.{RequestLine, IsRequestLine, request_text}
use aosproject.Schedule.ReadRequests.{
  from_request, request_text-Without, asked, read_request-asked, read_requests-next,
}

-- The lines of the requests, and then the end of the file.
abbrev pub unended : List RequestLine → Bytes
unended [] = []
unended (l ∷ ls) = request_text l ++ (newline ∷ unended ls)

-- At the end of the file an empty buffer stays, and is passed over.
stays_at_end : (f : ℕ) (c : Config) → read_requests f [] (record { rest = []; eof = true }) c ≡ none
unfolding read_requests get_until reads_as read_request is_skipped c_string same_bytes byte_at
stays_at_end zero c = refl
stays_at_end (suc f) c = stays_at_end f c

at_end : (b : Bytes) → getline (fresh []) b ≡ ([], record { rest = []; eof = true })
unfolding get_until
at_end b = refl

requests_unended :
    (ls : List RequestLine) (f : ℕ) (b : Bytes) (c : Config)
    → All IsRequestLine ls
    → from_request f c (getline (fresh (unended ls)) b) ≡ none
requests_unended [] f b c h = ap (from_request f c) (at_end b) ∙ stays_at_end f c
requests_unended (l ∷ ls) zero b c h = unfold read_requests in refl
requests_unended (l ∷ ls) (suc f) b c (h, hs) =
    let (no_end, next) = read_request-asked l c h in
    ap (from_request (suc f) c)
      (get_until-append newline (request_text l) (unended ls) b (request_text-Without l h))
    ∙ read_requests-next f (request_text l) (unended ls) c (asked c l) no_end next
    ∙ requests_unended ls f (request_text l) (asked c l) hs

start_Without : Without newline (codes "request_start")
start_Without = ground arith

read_line_unended :
    (f : ℕ) (rest : Bytes) (c : Config)
    → from_request f c (getline (fresh rest) (codes "request_start")) ≡ none
    → read_line f (codes "request_start") (fresh rest) c ≡ none
unfolding read_line is_skipped reads_as c_string same_bytes byte_at
read_line_unended f rest c e = e

read_lines_unended :
    (f : ℕ) (rest : Bytes) (c : Config)
    → ((g : ℕ) → read_line g (codes "request_start") (fresh rest) c ≡ none)
    → read_lines f (codes "request_start") (fresh rest) c ≡ none
unfolding read_lines
read_lines_unended zero rest c e = refl
read_lines_unended (suc f) rest c e = rw (e f) refl

abbrev from_line : ℕ → Config → Bytes × Stream → Option Config
from_line f c g = read_lines f g.0 g.1 c

-- A file that ends within a list of requests is never read to its end, however long it is tried.
pub read_config-unended :
    (ls : List RequestLine) (fuel : ℕ)
    → All IsRequestLine ls
    → read_config fuel (codes "request_start" ++ (newline ∷ unended ls)) ≡ none
unfolding read_config
read_config-unended ls fuel h =
    ap (from_line fuel no_config)
      (get_until-append newline (codes "request_start") (unended ls) [] start_Without)
    ∙ read_lines_unended fuel (unended ls) no_config (λ g.
      read_line_unended g (unended ls) no_config
        (requests_unended ls g (codes "request_start") no_config h))
