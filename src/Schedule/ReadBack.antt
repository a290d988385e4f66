-- ===== src/Schedule/ReadBack.antt =====
-- What the nodes and the switches read of the configuration that was written for them.
use aosproject.Prelude.{
  ℕ, zero, suc, ◌+◌, ◌%◌, ◌^◌, ◌≤◌, ◌<◌, ◌≡◌, refl, sym, ap, ◌∙◌, subst, ◌≢◌, ◌⊎◌, inl, inr, true,
  false, List, [], ◌∷◌, ◌++◌, arith, ltb, ◌==◌, if◌then◌else◌, Bool-cases, set, drop, In, All, pos,
  ◌==ℤ◌, ltb_ℤ,
}
use aosproject.Text.{Bytes, show_int, atoi, atoi-show_int, atoi-zero_show}
use aosproject.Text.Stream.{strtol, saturated_small}
use aosproject.Text.Equal.{same_bytes_iff}
use aosproject.OrderedSet.{insert, In-insert_old, In-insert_cases, insert_holds}
use aosproject.Node.State.{new as new_node}
use aosproject.Node.Config.{
  Files, file_name, newline, lines, config_name, to_ulong, insert_times, read_schedule,
  parse_schedule,
}
use aosproject.Quorum.Write.{write_file}
use aosproject.Quorum.ReadBack.{lines_host}
use aosproject.Schedule.Write.{
  Config, config_file, number_lines, switch_mode, config_text, write_from, write_config,
}

config_file-name : (x : ℕ) → config_file x ≡ file_name config_name (pos x)
unfolding config_file file_name ltb_ℤ
config_file-name x = ground arith

number_of-file : (x : ℕ) → atoi (drop 6 (config_file x)) ≡ pos x
unfolding config_file
number_of-file x = ground (arith, atoi-zero_show x, atoi-show_int (pos x))

config_file-injective : (x y : ℕ) → config_file x ≡ config_file y → x ≡ y
config_file-injective x y e =
    let same = sym (number_of-file x) ∙ ap (λ s. atoi (drop 6 s)) e ∙ number_of-file y in
    ground arith

-- What `write_config` may have changed in the configuration when it comes to a host.
abbrev Later : Config → Config → Type 0
Later c c' = (c'.congested ≡ c.congested) × (c'.alloc_time ≡ c.alloc_time) × (c'.times ≡ c.times)

config_text-Later : (x : ℕ) (c : Config) → Later c (config_text x c).0
unfolding config_text switch_mode
config_text-Later x c = elim (Bool-cases (x % 5 == 0)) [
  | inl e ↦ rw e (refl, refl, refl)
  | inr e ↦ rw e (refl, refl, refl)
]

config_text-same : (x : ℕ) (c c' : Config) → Later c c' → (config_text x c').1 ≡ (config_text x c).1
unfolding config_text switch_mode
config_text-same x c c' h = elim (Bool-cases (x % 5 == 0)) [
  | inl e ↦ rw (e, h.0) refl
  | inr e ↦ rw (e, h.1, h.2) refl
]

write_from-other :
    (left x : ℕ) (c : Config) (files : Files) (y : ℕ)
    → y < x
    → write_from left x c files (config_file y) ≡ files (config_file y)
unfolding write_from write_file
write_from-other zero x c files y h = refl
write_from-other (suc left) x c files y h =
    let differ : config_file x ≢ config_file y =
      λ e. absurd (omega (arith, h, config_file-injective x y e)) in
    write_from-other left (suc x) (config_text x c).0
      (write_file (config_file x) (config_text x c).1 files) y (omega (arith, h))
    ∙ ground (arith, same_bytes_iff (config_file x) (config_file y))

write_from-file :
    (left x : ℕ) (c : Config) (files : Files) (y : ℕ)
    → x ≤ y
    → y < x + left
    → write_from left x c files (config_file y) ≡ (config_text y c).1
unfolding write_from write_file
write_from-file zero x c files y l u = absurd (omega (arith, l, u))
write_from-file (suc left) x c files y l u = elim (Bool-cases (x == y)) [
  | inl now ↦
      let files' = write_file (config_file x) (config_text x c).1 files in
      let same : x ≡ y = ground (arith, now) in
      subst
        (λ z.
          write_from left (suc x) (config_text x c).0 files' (config_file z) ≡ (config_text z c).1)
        same
        (write_from-other left (suc x) (config_text x c).0 files' x (omega arith)
          ∙ rw ((same_bytes_iff (config_file x) (config_file x)).1 refl) refl)
  | inr later ↦
      write_from-file left (suc x) (config_text x c).0
        (write_file (config_file x) (config_text x c).1 files) y (ground arith) (omega (arith, u))
      ∙ config_text-same y c (config_text x c).0 (config_text-Later x c)
]

-- The file of a host holds its text, whatever was written before and after it.
write_config-file :
    (c : Config) (files : Files) (x : ℕ)
    → 1 ≤ x
    → x ≤ 45
    → write_config c files (config_file x) ≡ (config_text x c).1
unfolding write_config
write_config-file c files x l u = write_from-file 45 1 c files x l (omega (arith, u))

config_text-switch :
    (x : ℕ) (c : Config)
    → x % 5 ≡ 0
    → (config_text x c).1
      ≡ show_int (pos (if c.congested ==ℤ pos 1 then 2 else 1)) ++ (newline ∷ [])
unfolding config_text switch_mode number_lines ◌==ℤ◌
config_text-switch x c s = let e : (x % 5 == 0) ≡ true = ground (arith, s) in rw e refl

config_text-node :
    (x : ℕ) (c : Config) → x % 5 ≢ 0 → (config_text x c).1 ≡ number_lines (c.alloc_time ∷ c.times x)
unfolding config_text switch_mode
config_text-node x c s = let e : (x % 5 == 0) ≡ false = ground (arith, s) in rw e refl

-- The file of a switch holds 2 or 1, by the congestion alone: whatever `reliable` is, it is never 3.
pub write_config-switch :
    (c : Config) (files : Files) (x : ℕ)
    → 1 ≤ x
    → x ≤ 45
    → x % 5 ≡ 0
    → write_config c files (config_file x)
      ≡ show_int (pos (if c.congested ==ℤ pos 1 then 2 else 1)) ++ (newline ∷ [])
write_config-switch c files x l u s = write_config-file c files x l u ∙ config_text-switch x c s

-- The times of a list, each once and in order.
abbrev pub IsSetOf : List ℕ → List ℕ → Type 0
IsSetOf set ts = All (λ t. In t set) ts × All (λ t. In t ts) set

shown : List ℕ → List Bytes
shown [] = []
shown (t ∷ ts) = show_int (pos t) ∷ shown ts

lines-number_lines : (ts : List ℕ) → lines (number_lines ts) ≡ shown ts
unfolding number_lines shown
lines-number_lines [] = unfold lines in refl
lines-number_lines (t ∷ ts) =
    lines_host t (number_lines ts) ∙ ap (λ ls. show_int (pos t) ∷ ls) (lines-number_lines ts)

abbrev IsTime : ℕ → Type 0
IsTime t = t < 2 ^ 63

to_ulong-shown : (t : ℕ) → IsTime t → to_ulong (strtol (show_int (pos t))) ≡ t
unfolding to_ulong strtol
to_ulong-shown t h = rw (atoi-show_int (pos t), saturated_small t h) (omega (arith, h))

insert_time :
    (t : ℕ) (ts : List ℕ) (s : List ℕ)
    → IsTime t
    → insert_times (shown (t ∷ ts)) s ≡ insert_times (shown ts) (insert ltb t s)
unfolding insert_times shown
insert_time t ts s h = ap (λ k. insert_times (shown ts) (insert ltb k s)) (to_ulong-shown t h)

ltb_irrefl : (t : ℕ) → ltb t t ≡ false
ltb_irrefl t = ground arith

ltb_trans : (a b c : ℕ) → ltb a b ≡ true → ltb b c ≡ true → ltb a c ≡ true
ltb_trans a b c p q = ground arith

In-insert_time : (t : ℕ) (s : List ℕ) → In t (insert ltb t s)
In-insert_time t s =
    let (y, i, (a, b)) = insert_holds ltb ltb_irrefl ltb_trans t s in
    let same : y ≡ t = ground (arith, a, b) in subst (λ w. In w (insert ltb t s)) same i

insert_times-In :
    (ts s : List ℕ) (t : ℕ) → All IsTime ts → In t ts ⊎ In t s → In t (insert_times (shown ts) s)
insert_times-In [] s t h (inl i) = elim i [ ]
insert_times-In [] s t h (inr i) = unfold insert_times shown in i
insert_times-In (u ∷ ts) s t h i = rw (insert_time u ts s h.0) (
    insert_times-In ts (insert ltb u s) t h.1 (elim i [
      | inl (inl e) ↦ inr (subst (λ w. In w (insert ltb u s)) e (In-insert_time u s))
      | inl (inr j) ↦ inl j
      | inr j ↦ inr (In-insert_old ltb t u s j)
    ]))

insert_times-only :
    (ts s : List ℕ) (t : ℕ) → All IsTime ts → In t (insert_times (shown ts) s) → In t ts ⊎ In t s
insert_times-only [] s t h i = inr (unfold insert_times shown in i)
insert_times-only (u ∷ ts) s t h i =
    elim (insert_times-only ts (insert ltb u s) t h.1 (rw (insert_time u ts s h.0) at i)) [
      | inl j ↦ inl (inr j)
      | inr j ↦ elim (In-insert_cases ltb t u s j) [ inl e ↦ inl (inl e) | inr k ↦ inr k ]
    ]

All-each : (P : ℕ → Type 0) (ts : List ℕ) → ((t : ℕ) → In t ts → P t) → All P ts
All-each P [] h = tt
All-each P (t ∷ ts) h = (h t (inl refl), All-each P ts (λ u i. h u (inr i)))

lines_read :
    (c : Config) (files : Files) (x : ℕ)
    → 1 ≤ x
    → x ≤ 45
    → x % 5 ≢ 0
    → lines (write_config c files (file_name config_name (pos x)))
      ≡ shown (c.alloc_time ∷ c.times x)
lines_read c files x l u host =
    ap (λ name. lines (write_config c files name)) (sym (config_file-name x))
    ∙ ap lines (write_config-file c files x l u ∙ config_text-node x c host)
    ∙ lines-number_lines (c.alloc_time ∷ c.times x)

-- The node on a host that is no switch reads the time in its critical section and the set of the
-- times of its requests as they were configured, if all fit 63 bits.
pub parse_schedule-write_config :
    (c : Config) (files : Files) (x : ℕ)
    → 1 ≤ x
    → x ≤ 45
    → x % 5 ≢ 0
    → All (λ t. t < 2 ^ 63) (c.alloc_time ∷ c.times x)
    → let n = parse_schedule (write_config c files) (new_node (pos x)) in
      (n.cs_time ≡ c.alloc_time) × IsSetOf n.time_schedule (c.times x)
unfolding parse_schedule new_node
parse_schedule-write_config c files x l u host (alloc, fit) =
    subst
      (λ ls.
        let n = read_schedule ls (new_node (pos x)) in
        (n.cs_time ≡ c.alloc_time) × IsSetOf n.time_schedule (c.times x))
      (sym (lines_read c files x l u host))
      (unfold read_schedule shown in
        (
          to_ulong-shown c.alloc_time alloc,
          (
            All-each (λ t. In t (insert_times (shown (c.times x)) [])) (c.times x)
                (λ t i. insert_times-In (c.times x) [] t fit (inl i)),
            All-each (λ t. In t (c.times x)) (insert_times (shown (c.times x)) [])
                (λ t i. elim (insert_times-only (c.times x) [] t fit i) [
                  | inl j ↦ j
                  | inr j ↦ elim j [ ]
                ]),
          ),
        ))
