-- ===== src/Schedule/Write.antt =====
-- `write_config`: the files of the hosts.
use aosproject.Prelude.{
  ℕ, zero, suc, ◌%◌, not, List, [], ◌∷◌, ◌++◌, ltb, ◌==◌, if◌then◌else◌, ℤ, pos, ◌==ℤ◌,
}
use aosproject.Text.{Bytes, show_int}
use aosproject.Node.Config.{Files, newline, config_name}
use aosproject.Quorum.Write.{write_file}

-- `config`; the times of a host are those in its list before the last, empty, entry.
pub record Config : Type 0 where
  pub num_nodes : ℤ
  pub reliable : ℤ
  pub congested : ℤ
  pub alloc_time : ℕ
  pub times : ℕ → List ℕ

unfoldable pub config_file : ℕ → Bytes
config_file x =
    if ltb x 10 then config_name ++ (b'0' ∷ show_int (pos x)) else config_name ++ show_int (pos x)

unfoldable pub number_lines : List ℕ → Bytes
number_lines [] = []
number_lines (t ∷ ts) = show_int (pos t) ++ (newline ∷ number_lines ts)

-- `if( c.reliable = 0)` assigns, and its value is 0.
unfoldable pub switch_mode : Config → Config × ℕ
switch_mode c =
    let c' : Config = record c { reliable = pos 0 } in
    (c', (if not (c'.reliable ==ℤ pos 0) then 3 else if c'.congested ==ℤ pos 1 then 2 else 1))

-- The text for a host, and the configuration as it is left.
unfoldable pub config_text : ℕ → Config → Config × Bytes
unfolding switch_mode number_lines
config_text x c =
    let (c', mode) = switch_mode c in
    (if x % 5 == 0
      then (c', number_lines (mode ∷ []))
      else (c, number_lines (c.alloc_time ∷ c.times x)))

unfoldable pub write_from : ℕ → ℕ → Config → Files → Files
unfolding config_text config_file write_file
write_from zero x c files = files
write_from (suc left) x c files =
    let (c', text) = config_text x c in
    write_from left (suc x) c' (write_file (config_file x) text files)

-- `for (int x = 1; x <= 45; x++)`.
unfoldable pub write_config : Config → Files → Files
unfolding write_from
write_config c files = write_from 45 1 c files
