-- ===== src/Schedule/ReadConfig.antt =====
-- What `read_config` makes of a config.txt of the documented form.
use aosproject.Prelude.{
  ℕ, zero, suc, ◌<◌, ◌≡◌, refl, ap, ◌∙◌, ◌≢◌, ◌⊎◌, inl, inr, true, false, Option, some, List, [],
  ◌∷◌, ◌++◌, arith, length, set, All, All-append, ℤ,
}
use aosproject.Text.{Bytes, show_int, IsDigit}
use aosproject.Text.Decimal.{codes}
use aosproject.Text.Equal.{same_bytes}
use aosproject.Text.Stream.{
  Stream, fresh, get_until, getline, get_int, get_int-show_int, Without, show_int-Without,
  get_until-append, get_until-Without,
}
use aosproject.Node.Config.{newline}
use aosproject.Network.Frame.{byte_at, c_string}
use aosproject.Schedule.Write.{Config}
use aosproject.Schedule.Read.{
  no_config, is_skipped, reads_as, read_time, read_option, read_line, read_lines, read_config,
}
use aosproject.Schedule.ConfigText.{
  Time, IsShort, time_text, RequestLine, Line, comment, blank, num_nodes, net_reliable,
  net_congested, res_alloc_time, requests, request_lines, line_text, file_text, IsRequestLine,
  IsLine, scheduled, said, said_by, line_count,
}
use aosproject.Schedule.ReadTime.{read_time-time_text, time_text-Without}
use aosproject.Schedule.ReadRequests.{from_request, read_requests-scheduled}

-- The outer loop, from its `getline` on.
abbrev from_line : ℕ → Config → Bytes × Stream → Option Config
from_line f c g = read_lines f g.0 g.1 c

read_lines-next :
    (f : ℕ) (buffer : Bytes) (rest : Bytes) (c c' : Config) (buffer' : Bytes) (st' : Stream)
    → read_line f buffer (fresh rest) c ≡ some (buffer', st', c')
    → read_lines (suc f) buffer (fresh rest) c ≡ read_lines f buffer' st' c'
unfolding read_lines
read_lines-next f buffer rest c c' buffer' st' e = rw e refl

read_lines-plain :
    (f : ℕ) (buffer rest : Bytes) (c c' : Config)
    → ((is_skipped buffer ≡ true) × (c' ≡ c))
      ⊎ ((is_skipped buffer ≡ false)
          × (reads_as buffer (codes "request_start") ≡ false)
          × (read_option buffer c ≡ c'))
    → read_lines (suc f) buffer (fresh rest) c ≡ from_line f c' (getline (fresh rest) buffer)
read_lines-plain f buffer rest c c' (inl (e, same)) =
    read_lines-next f buffer rest c c' (getline (fresh rest) buffer).0
      (getline (fresh rest) buffer).1 (unfold read_line in rw (e, same) refl)
read_lines-plain f buffer rest c c' (inr (e, no_start, says)) =
    read_lines-next f buffer rest c c' (getline (fresh rest) buffer).0
      (getline (fresh rest) buffer).1 (unfold read_line in rw (e, no_start, says) refl)

read_lines-line :
    (f : ℕ) (w rest b : Bytes) (c c' : Config)
    → Without newline w
    → ((is_skipped w ≡ true) × (c' ≡ c))
      ⊎ ((is_skipped w ≡ false)
          × (reads_as w (codes "request_start") ≡ false)
          × (read_option w c ≡ c'))
    → from_line (suc f) c (getline (fresh (w ++ (newline ∷ rest))) b)
      ≡ from_line f c' (getline (fresh rest) w)
read_lines-line f w rest b c c' h s =
    ap (from_line (suc f) c) (get_until-append newline w rest b h)
    ∙ read_lines-plain f w rest c c' s

-- The lines that set a value.
data Setting : Bytes → (Config → Config) → Type 0 where
  nodes : (z : ℤ) → Setting (codes "num_nodes=" ++ show_int z) (λ c. said c (num_nodes z))
  reliability :
      (z : ℤ) → Setting (codes "net_reliable=" ++ show_int z) (λ c. said c (net_reliable z))
  congestion :
      (z : ℤ) → Setting (codes "net_congested=" ++ show_int z) (λ c. said c (net_congested z))
  allocation :
      (t : Time)
      → IsShort t
      → Setting (codes "res_alloc_time=" ++ time_text t) (λ c. said c (res_alloc_time t))

set_value : (f : ℤ → Config) (z old : ℤ) → f (get_int (fresh (show_int z)) old) ≡ f z
set_value f z old = ap f (get_int-show_int z old)

newline-IsDigit : ¬ IsDigit newline
newline-IsDigit h = omega (arith, h)

time_Without : (t : Time) → Without newline (time_text t)
time_Without t = time_text-Without newline newline-IsDigit (λ e. omega (arith, e)) t

int_Without : (z : ℤ) → Without newline (show_int z)
int_Without z = show_int-Without newline newline-IsDigit (λ e. omega (arith, e)) z

key_Without :
    (key value : Bytes)
    → Without newline key
    → Without newline value
    → Without newline (key ++ value)
key_Without key value h v = All-append (λ b. b ≢ newline) key value h v

set_time :
    (c : Config) (t : Time)
    → IsShort t
    → record c { alloc_time = read_time newline (getline (fresh (time_text t)) []).0 }
      ≡ said c (res_alloc_time t)
set_time c t h =
    ap (λ (g : Bytes × Stream). record c { alloc_time = read_time newline g.0 })
      (get_until-Without newline (time_text t) [] (time_Without t))
    ∙ ap (λ n. record c { alloc_time = n }) (read_time-time_text newline t newline-IsDigit h)

Setting-said :
    {w : Bytes} {f : Config → Config}
    → Setting w f
    → (c : Config)
    → (is_skipped w ≡ false)
      × (reads_as w (codes "request_start") ≡ false)
      × (read_option w c ≡ f c)
unfolding read_option reads_as is_skipped c_string same_bytes byte_at get_until
Setting-said (nodes z) c = (refl, refl, set_value (λ v. record c { num_nodes = v }) z c.num_nodes)
Setting-said (reliability z) c =
    (refl, refl, set_value (λ v. record c { reliable = v }) z c.reliable)
Setting-said (congestion z) c =
    (refl, refl, set_value (λ v. record c { congested = v }) z c.congested)
Setting-said (allocation t h) c = (refl, refl, set_time c t h)

Setting-Without : {w : Bytes} {f : Config → Config} → Setting w f → Without newline w
Setting-Without (nodes z) =
    key_Without (codes "num_nodes=") (show_int z) (ground arith) (int_Without z)
Setting-Without (reliability z) =
    key_Without (codes "net_reliable=") (show_int z) (ground arith) (int_Without z)
Setting-Without (congestion z) =
    key_Without (codes "net_congested=") (show_int z) (ground arith) (int_Without z)
Setting-Without (allocation t h) =
    key_Without (codes "res_alloc_time=") (time_text t) (ground arith) (time_Without t)

Setting-read :
    {w : Bytes} {s : Config → Config}
    → Setting w s
    → (f : ℕ) (rest b : Bytes) (c : Config)
    → from_line (suc f) c (getline (fresh (w ++ (newline ∷ rest))) b)
      ≡ from_line f (s c) (getline (fresh rest) w)
Setting-read {w} {s} set f rest b c =
    read_lines-line f w rest b c (s c) (Setting-Without set) (inr (Setting-said set c))

start_Without : Without newline (codes "request_start")
start_Without = ground arith

-- A block of requests takes two rounds of the outer loop.
read_line-requests :
    (f : ℕ) (rest : Bytes) (c : Config) (got : Bytes × Stream × Config)
    → from_request f c (getline (fresh rest) (codes "request_start")) ≡ some got
    → read_line f (codes "request_start") (fresh rest) c ≡ some got
unfolding read_line is_skipped reads_as c_string same_bytes byte_at
read_line-requests f rest c got e = e

read_lines-requests :
    (ls : List RequestLine) (f : ℕ) (rest b : Bytes) (c : Config)
    → All IsRequestLine ls
    → length ls < suc f
    → from_line (suc (suc f)) c (getline (fresh (line_text (requests ls) rest)) b)
      ≡ from_line f (scheduled c ls) (getline (fresh rest) (codes "request_end"))
read_lines-requests ls f rest b c h l =
    ap (from_line (suc (suc f)) c)
      (get_until-append newline (codes "request_start") (request_lines ls rest) b start_Without)
    ∙ read_lines-next (suc f) (codes "request_start") (request_lines ls rest) c (scheduled c ls)
        (codes "request_end") (fresh rest)
        (read_line-requests (suc f) (request_lines ls rest) c _
          (read_requests-scheduled ls (suc f) rest (codes "request_start") c h l))
    ∙ read_lines-plain f (codes "request_end") rest (scheduled c ls) (scheduled c ls)
        (inr (end_option (scheduled c ls)))
  where
    end_option :
        (c : Config)
        → (is_skipped (codes "request_end") ≡ false)
          × (reads_as (codes "request_end") (codes "request_start") ≡ false)
          × (read_option (codes "request_end") c ≡ c)
    end_option c =
        unfold read_option reads_as is_skipped c_string same_bytes byte_at get_until in
        (refl, refl, refl)

read_lines-said :
    (ls : List Line) (f : ℕ) (b : Bytes) (c : Config)
    → All IsLine ls
    → line_count ls < f
    → from_line f c (getline (fresh (file_text ls)) b) ≡ some (said_by c ls)
read_lines-said [] zero b c h l = absurd (omega (arith, l))
read_lines-said [] (suc f) b c h l = unfold read_lines get_until in refl
read_lines-said (k ∷ ls) zero b c h l = absurd (omega (arith, l))
read_lines-said (comment text ∷ ls) (suc f) b c (h, hs) l =
    read_lines-line f (b'#' ∷ text) (file_text ls) b c c ((λ e. omega (arith, e)), h)
      (inl (unfold is_skipped byte_at in (refl, refl)))
    ∙ read_lines-said ls f (b'#' ∷ text) c hs (omega (arith, l))
read_lines-said (blank ∷ ls) (suc f) b c (h, hs) l =
    read_lines-line f [] (file_text ls) b c c tt (inl (unfold is_skipped byte_at in (refl, refl)))
    ∙ read_lines-said ls f [] c hs (omega (arith, l))
read_lines-said (num_nodes z ∷ ls) (suc f) b c (h, hs) l =
    Setting-read (nodes z) f (file_text ls) b c ∙ read_lines-said ls f _ _ hs (omega (arith, l))
read_lines-said (net_reliable z ∷ ls) (suc f) b c (h, hs) l =
    Setting-read (reliability z) f (file_text ls) b c
    ∙ read_lines-said ls f _ _ hs (omega (arith, l))
read_lines-said (net_congested z ∷ ls) (suc f) b c (h, hs) l =
    Setting-read (congestion z) f (file_text ls) b c
    ∙ read_lines-said ls f _ _ hs (omega (arith, l))
read_lines-said (res_alloc_time t ∷ ls) (suc f) b c (h, hs) l =
    Setting-read (allocation t h) f (file_text ls) b c
    ∙ read_lines-said ls f _ _ hs (omega (arith, l))
read_lines-said (requests rs ∷ ls) (suc zero) b c (h, hs) l = absurd (omega (arith, l))
read_lines-said (requests rs ∷ ls) (suc (suc f)) b c (h, hs) l =
    read_lines-requests rs f (file_text ls) b c h (omega (arith, l))
    ∙ read_lines-said ls f (codes "request_end") (scheduled c rs) hs (omega (arith, l))

-- A file of comments, blank lines, settings and lists of requests, in any order, is read as what its
-- lines say one after the other, in as many rounds as it has lines, and one more, if every node is one
-- of 36 and every time takes 63 bits.
pub read_config-file_text :
    (ls : List Line) (fuel : ℕ)
    → All IsLine ls
    → line_count ls < fuel
    → read_config fuel (file_text ls) ≡ some (said_by no_config ls)
unfolding read_config
read_config-file_text ls fuel h l = read_lines-said ls fuel [] no_config h l
