-- ===== src/Quorum/Write.antt =====
-- `write_quorums`: the quorums, under the names of their hosts, in the files that the nodes read.
use aosproject.Prelude.{
  ℕ, zero, suc, ◌+◌, ◌-◌, ◌/◌, ◌%◌, ◌≤◌, ◌<◌, ◌≡◌, refl, sym, ap, ◌∙◌, ◌≢◌, Option, none, some,
  List, [], ◌∷◌, ◌++◌, arith, ltb, ◌==◌, if◌then◌else◌, ◌>>=◌, get_elem?, set, drop, replicate, ℤ,
  pos, negsuc, ltb_ℤ,
}
use aosproject.Text.{Bytes, show_int, atoi, atoi-show_int, atoi-zero_show}
use aosproject.Text.Equal.{same_bytes}
use aosproject.Node.Config.{Files, file_name, quorum_name, newline}
use aosproject.Quorum.Assignment.{Quorum}

-- `while (count < 45)`: nodes are numbered without the multiples of 5, which are switches.
fill_trans : ℕ → ℕ → ℕ → List ℕ → List ℕ
fill_trans zero count next trans = trans
fill_trans (suc left) count next trans =
    let is_switch = suc count % 5 == 0 in
    fill_trans left (suc count) (if is_switch then next else suc next)
      (if is_switch then trans else set trans (suc next) (suc count))

unfoldable pub trans : List ℕ
unfolding fill_trans
trans = fill_trans 45 0 0 (replicate 37 0)

-- `trans[id]`: `none` is an access out of the bounds of the array.
unfoldable pub trans_at : ℤ → Option ℕ
unfolding trans
trans_at (pos x) = get_elem? trans x
trans_at (negsuc x) = none

unfoldable pub quorum_file : ℕ → Bytes
quorum_file t =
    if ltb t 10 then quorum_name ++ (b'0' ∷ show_int (pos t)) else quorum_name ++ show_int (pos t)

-- `ofile << trans[(*it)] << endl;` for each member.
unfoldable pub member_lines : List ℤ → Option Bytes
unfolding trans_at
member_lines [] = some []
member_lines (a ∷ members) = do
  t ← trans_at a
  rest ← member_lines members
  some (show_int (pos t) ++ (newline ∷ rest))

-- A file that is opened for output, written and closed.
unfoldable pub write_file : Bytes → Bytes → Files → Files
unfolding same_bytes
write_file name text files = λ other. if same_bytes name other then text else files other

unfoldable pub write_quorums : List Quorum → Files → Option Files
unfolding trans_at member_lines quorum_file write_file
write_quorums [] files = some files
write_quorums (q ∷ qs) files = do
  t ← trans_at q.id
  text ← member_lines q.members
  write_quorums qs (write_file (quorum_file t) text files)

-- The table in closed form.
abbrev pub host : ℕ → ℕ
host x = x + (x - 1) / 4

hosts : ℕ → ℕ → List ℕ
hosts zero start = []
hosts (suc k) start = host start ∷ hosts k (suc start)

trans-hosts : trans ≡ hosts 37 0
unfolding trans hosts
trans-hosts = refl

get-hosts : (k start x : ℕ) → x < k → get_elem? (hosts k start) x ≡ some (host (start + x))
unfolding hosts
get-hosts zero start x h = ground arith
get-hosts (suc k) start zero h = ground arith
get-hosts (suc k) start (suc x) h = ground (arith, get-hosts k (suc start) x)

-- The first 36 nodes are numbered in order, and none gets the number of a switch.
pub trans_at_lem :
    (x : ℕ) → 1 ≤ x → x ≤ 36 → (trans_at (pos x) ≡ some (host x)) × (host x % 5 ≢ 0) × (host x < 45)
unfolding trans_at
trans_at_lem x l h = (
  ap (λ ts. get_elem? ts x) trans-hosts ∙ ground (arith, get-hosts 37 0 x),
  omega (arith, l),
  omega (arith, h),
)

pub host-injective : (x y : ℕ) → 1 ≤ x → 1 ≤ y → host x ≡ host y → x ≡ y
host-injective x y l m e = omega (arith, e, l, m)

-- The file that the node reads is the file that was written for it.
pub quorum_file-name : (t : ℕ) → quorum_file t ≡ file_name quorum_name (pos t)
unfolding quorum_file file_name ltb_ℤ
quorum_file-name t = ground arith

number_of : Bytes → ℤ
unfolding atoi
number_of s = atoi (drop 6 s)

number_of-file : (t : ℕ) → number_of (quorum_file t) ≡ pos t
unfolding quorum_file number_of
number_of-file t = ground (arith, atoi-zero_show t, atoi-show_int (pos t))

pub quorum_file-injective : (t u : ℕ) → quorum_file t ≡ quorum_file u → t ≡ u
quorum_file-injective t u e =
    let same = sym (number_of-file t) ∙ ap number_of e ∙ number_of-file u in ground arith
