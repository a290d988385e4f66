-- ===== src/Schedule/ConfigText.antt =====
-- The form of config.txt, as its own comments document it, and what each line says.
use aosproject.Prelude.{ℕ, ◌+◌, ◌*◌, ◌^◌, ◌≤◌, ◌<◌, List, [], ◌∷◌, ◌++◌, length, All, ℤ}
use aosproject.Text.{Bytes, show_int, show_nat}
use aosproject.Text.Decimal.{codes}
use aosproject.Text.Stream.{Without}
use aosproject.Node.Config.{newline}
use aosproject.Quorum.Write.{host}
use aosproject.Family.{update}
use aosproject.Schedule.Write.{Config}

-- `minutes:seconds:milliseconds`.
pub record Time : Type 0 where
  pub minutes : ℕ
  pub seconds : ℕ
  pub milliseconds : ℕ

abbrev pub total : Time → ℕ
total t = (t.minutes * 60 + t.seconds) * 1000 + t.milliseconds

abbrev pub IsShort : Time → Type 0
IsShort t = total t < 2 ^ 63

abbrev pub time_text : Time → Bytes
time_text t =
    show_nat t.minutes ++ (b':' ∷ (show_nat t.seconds ++ (b':' ∷ show_nat t.milliseconds)))

-- A line between `request_start` and `request_end`.
pub data RequestLine : Type 0 where
  remark : Bytes → RequestLine
  gap : RequestLine
  request : ℕ → Time → RequestLine

-- A line of the file, or a list of requests with the lines that enclose it.
pub data Line : Type 0 where
  comment : Bytes → Line
  blank : Line
  num_nodes : ℤ → Line
  net_reliable : ℤ → Line
  net_congested : ℤ → Line
  res_alloc_time : Time → Line
  requests : List RequestLine → Line

abbrev pub request_text : RequestLine → Bytes
request_text (remark text) = b'#' ∷ text
request_text gap = []
request_text (request x t) = b'(' ∷ (show_nat x ++ (b',' ∷ (time_text t ++ (b')' ∷ []))))

abbrev pub request_lines : List RequestLine → Bytes → Bytes
request_lines [] rest = codes "request_end" ++ (newline ∷ rest)
request_lines (l ∷ ls) rest = request_text l ++ (newline ∷ request_lines ls rest)

abbrev pub line_text : Line → Bytes → Bytes
line_text (comment text) rest = (b'#' ∷ text) ++ (newline ∷ rest)
line_text blank rest = newline ∷ rest
line_text (num_nodes z) rest = (codes "num_nodes=" ++ show_int z) ++ (newline ∷ rest)
line_text (net_reliable z) rest = (codes "net_reliable=" ++ show_int z) ++ (newline ∷ rest)
line_text (net_congested z) rest = (codes "net_congested=" ++ show_int z) ++ (newline ∷ rest)
line_text (res_alloc_time t) rest = (codes "res_alloc_time=" ++ time_text t) ++ (newline ∷ rest)
line_text (requests ls) rest = codes "request_start" ++ (newline ∷ request_lines ls rest)

abbrev pub file_text : List Line → Bytes
file_text [] = []
file_text (l ∷ ls) = line_text l (file_text ls)

abbrev pub IsRequestLine : RequestLine → Type 0
IsRequestLine (remark text) = Without newline text
IsRequestLine gap = Unit {0}
IsRequestLine (request x t) = (1 ≤ x) × (x ≤ 36) × IsShort t

abbrev pub IsLine : Line → Type 0
IsLine (comment text) = Without newline text
IsLine blank = Unit {0}
IsLine (num_nodes z) = Unit {0}
IsLine (net_reliable z) = Unit {0}
IsLine (net_congested z) = Unit {0}
IsLine (res_alloc_time t) = IsShort t
IsLine (requests ls) = All IsRequestLine ls

-- What a line says.
abbrev pub scheduled : Config → List RequestLine → Config
scheduled c [] = c
scheduled c (remark text ∷ ls) = scheduled c ls
scheduled c (gap ∷ ls) = scheduled c ls
scheduled c (request x t ∷ ls) =
    scheduled (record c { times = update c.times (host x) (c.times (host x) ++ (total t ∷ [])) }) ls

abbrev pub said : Config → Line → Config
said c (comment text) = c
said c blank = c
said c (num_nodes z) = record c { num_nodes = z }
said c (net_reliable z) = record c { reliable = z }
said c (net_congested z) = record c { congested = z }
said c (res_alloc_time t) = record c { alloc_time = total t }
said c (requests ls) = scheduled c ls

abbrev pub said_by : Config → List Line → Config
said_by c [] = c
said_by c (l ∷ ls) = said_by (said c l) ls

abbrev pub rounds : Line → ℕ
rounds (comment text) = 1
rounds blank = 1
rounds (num_nodes z) = 1
rounds (net_reliable z) = 1
rounds (net_congested z) = 1
rounds (res_alloc_time t) = 1
rounds (requests ls) = 2 + length ls

-- How many lines a file has.
abbrev pub line_count : List Line → ℕ
line_count [] = 0
line_count (l ∷ ls) = rounds l + line_count ls
