-- ===== src/Schedule/EndToEnd.antt =====
-- A configuration on its way to the nodes: `read_config`, `write_config`, and what a node reads.
use aosproject.Prelude.{
  ℕ, ◌^◌, ◌≤◌, ◌<◌, ◌≡◌, refl, sym, ap, ◌∙◌, subst, ◌≢◌, inl, inr, true, false, some, List, [], ◌∷◌,
  ◌++◌, append-nil, append_assoc, arith, ◌==◌, if◌then◌else◌, Bool-cases, All, All-append, pos,
}
use aosproject.Node.Config.{Files, parse_schedule}
use aosproject.Node.State.{new as new_node}
use aosproject.Quorum.Write.{host, trans_at_lem}
use aosproject.Family.{update}
use aosproject.Schedule.Write.{Config, write_config}
use aosproject.Schedule.ReadBack.{IsSetOf, parse_schedule-write_config}
use aosproject.Schedule.Read.{no_config, read_config}
use aosproject.Schedule.ConfigText.{
  total, RequestLine, remark, gap, request, Line, comment, blank, num_nodes, net_reliable,
  net_congested, res_alloc_time, requests, file_text, IsRequestLine, IsLine, scheduled, said,
  said_by, line_count,
}
use aosproject.Schedule.ReadConfig.{read_config-file_text}

-- The times that a list of requests has for node `x`, in their order.
abbrev pub requested_times : ℕ → List RequestLine → List ℕ
requested_times x [] = []
requested_times x (remark text ∷ ls) = requested_times x ls
requested_times x (gap ∷ ls) = requested_times x ls
requested_times x (request y t ∷ ls) =
    if y == x then total t ∷ requested_times x ls else requested_times x ls

abbrev pub times_for : ℕ → List Line → List ℕ
times_for x [] = []
times_for x (comment text ∷ ls) = times_for x ls
times_for x (blank ∷ ls) = times_for x ls
times_for x (num_nodes z ∷ ls) = times_for x ls
times_for x (net_reliable z ∷ ls) = times_for x ls
times_for x (net_congested z ∷ ls) = times_for x ls
times_for x (res_alloc_time t ∷ ls) = times_for x ls
times_for x (requests rs ∷ ls) = requested_times x rs ++ times_for x ls

-- The time in the critical section: the last that is set.
abbrev pub alloc_after : ℕ → List Line → ℕ
alloc_after a [] = a
alloc_after a (comment text ∷ ls) = alloc_after a ls
alloc_after a (blank ∷ ls) = alloc_after a ls
alloc_after a (num_nodes z ∷ ls) = alloc_after a ls
alloc_after a (net_reliable z ∷ ls) = alloc_after a ls
alloc_after a (net_congested z ∷ ls) = alloc_after a ls
alloc_after a (res_alloc_time t ∷ ls) = alloc_after (total t) ls
alloc_after a (requests rs ∷ ls) = alloc_after a ls

host_injective : (x y : ℕ) → 1 ≤ x → 1 ≤ y → host x ≡ host y → x ≡ y
host_injective x y l m e = omega (arith, e)

update_same : (f : ℕ → List ℕ) (i j : ℕ) (a : List ℕ) → i ≡ j → update f i a j ≡ a
update_same f i j a e = let test : (i == j) ≡ true = ground (arith, e) in rw test refl

update_other : (f : ℕ → List ℕ) (i j : ℕ) (a : List ℕ) → i ≢ j → update f i a j ≡ f j
update_other f i j a h = let test : (i == j) ≡ false = ground (arith, h) in rw test refl

-- One request: it lands at the host of its node and at no other.
request_lands :
    (x y n : ℕ) (f : ℕ → List ℕ) (more : List ℕ)
    → 1 ≤ x
    → 1 ≤ y
    → update f (host y) (f (host y) ++ (n ∷ [])) (host x) ++ more
      ≡ f (host x) ++ (if y == x then n ∷ more else more)
request_lands x y n f more l m = elim (Bool-cases (y == x)) [
  | inl same ↦
      let e : y ≡ x = ground (arith, same) in
      rw same (
        ap (λ s. s ++ more) (update_same f (host y) (host x) (f (host y) ++ (n ∷ [])) (ap host e))
        ∙ append_assoc (f (host y)) (n ∷ []) more
        ∙ ap (λ z. f (host z) ++ (n ∷ more)) e)
  | inr other ↦ rw other (
      ap (λ s. s ++ more)
        (update_other f (host y) (host x) (f (host y) ++ (n ∷ []))
          (λ e. ground (arith, other, host_injective x y l m (sym e)))))
]

scheduled-times :
    (x : ℕ) (rs : List RequestLine) (c : Config)
    → 1 ≤ x
    → All IsRequestLine rs
    → ((scheduled c rs).times (host x) ≡ c.times (host x) ++ requested_times x rs)
      × ((scheduled c rs).alloc_time ≡ c.alloc_time)
scheduled-times x [] c l h = (sym (append-nil (c.times (host x))), refl)
scheduled-times x (remark text ∷ rs) c l (h, hs) = scheduled-times x rs c l hs
scheduled-times x (gap ∷ rs) c l (h, hs) = scheduled-times x rs c l hs
scheduled-times x (request y t ∷ rs) c l (h, hs) =
    let c' : Config = record c {
      times = update c.times (host y) (c.times (host y) ++ (total t ∷ []));
    } in
    let (e, a) = scheduled-times x rs c' l hs in
    (e ∙ request_lands x y (total t) c.times (requested_times x rs) l h.0, a)

said_by-times :
    (x : ℕ) (ls : List Line) (c : Config)
    → 1 ≤ x
    → All IsLine ls
    → ((said_by c ls).times (host x) ≡ c.times (host x) ++ times_for x ls)
      × ((said_by c ls).alloc_time ≡ alloc_after c.alloc_time ls)
said_by-times x [] c l h = (sym (append-nil (c.times (host x))), refl)
said_by-times x (comment text ∷ ls) c l (h, hs) = said_by-times x ls c l hs
said_by-times x (blank ∷ ls) c l (h, hs) = said_by-times x ls c l hs
said_by-times x (num_nodes z ∷ ls) c l (h, hs) = said_by-times x ls (said c (num_nodes z)) l hs
said_by-times x (net_reliable z ∷ ls) c l (h, hs) =
    said_by-times x ls (said c (net_reliable z)) l hs
said_by-times x (net_congested z ∷ ls) c l (h, hs) =
    said_by-times x ls (said c (net_congested z)) l hs
said_by-times x (res_alloc_time t ∷ ls) c l (h, hs) =
    said_by-times x ls (said c (res_alloc_time t)) l hs
said_by-times x (requests rs ∷ ls) c l (h, hs) =
    let (e, a) = said_by-times x ls (scheduled c rs) l hs in
    let (e', a') = scheduled-times x rs c l h in
    (
      e
          ∙ ap (λ s. s ++ times_for x ls) e'
          ∙ append_assoc (c.times (host x)) (requested_times x rs) (times_for x ls),
      a ∙ ap (λ n. alloc_after n ls) a',
    )

abbrev Fits : ℕ → Type 0
Fits t = t < 2 ^ 63

requested-Fits :
    (x : ℕ) (rs : List RequestLine) → All IsRequestLine rs → All Fits (requested_times x rs)
requested-Fits x [] h = tt
requested-Fits x (remark text ∷ rs) (h, hs) = requested-Fits x rs hs
requested-Fits x (gap ∷ rs) (h, hs) = requested-Fits x rs hs
requested-Fits x (request y t ∷ rs) (h, hs) = elim (Bool-cases (y == x)) [
  | inl same ↦ rw same (omega (arith, h.2), requested-Fits x rs hs)
  | inr other ↦ rw other (requested-Fits x rs hs)
]

times_for-Fits : (x : ℕ) (ls : List Line) → All IsLine ls → All Fits (times_for x ls)
times_for-Fits x [] h = tt
times_for-Fits x (comment text ∷ ls) (h, hs) = times_for-Fits x ls hs
times_for-Fits x (blank ∷ ls) (h, hs) = times_for-Fits x ls hs
times_for-Fits x (num_nodes z ∷ ls) (h, hs) = times_for-Fits x ls hs
times_for-Fits x (net_reliable z ∷ ls) (h, hs) = times_for-Fits x ls hs
times_for-Fits x (net_congested z ∷ ls) (h, hs) = times_for-Fits x ls hs
times_for-Fits x (res_alloc_time t ∷ ls) (h, hs) = times_for-Fits x ls hs
times_for-Fits x (requests rs ∷ ls) (h, hs) =
    All-append Fits (requested_times x rs) (times_for x ls) (requested-Fits x rs h)
      (times_for-Fits x ls hs)

alloc-Fits : (a : ℕ) (ls : List Line) → Fits a → All IsLine ls → Fits (alloc_after a ls)
alloc-Fits a [] u h = u
alloc-Fits a (comment text ∷ ls) u (h, hs) = alloc-Fits a ls u hs
alloc-Fits a (blank ∷ ls) u (h, hs) = alloc-Fits a ls u hs
alloc-Fits a (num_nodes z ∷ ls) u (h, hs) = alloc-Fits a ls u hs
alloc-Fits a (net_reliable z ∷ ls) u (h, hs) = alloc-Fits a ls u hs
alloc-Fits a (net_congested z ∷ ls) u (h, hs) = alloc-Fits a ls u hs
alloc-Fits a (res_alloc_time t ∷ ls) u (h, hs) = alloc-Fits (total t) ls (omega (arith, h)) hs
alloc-Fits a (requests rs ∷ ls) u (h, hs) = alloc-Fits a ls u hs

-- What a config.txt of the documented form asks of a node reaches it, if its requests are for nodes
-- 1 to 36 and no time takes more than 63 bits: `read_config` reads the file in as many rounds as it
-- has lines, and one more, `write_config` writes the files of the hosts, and each of the 36 nodes
-- that then starts has the last time in the critical section that the file sets, and the set of the
-- times of its requests.
pub config_reaches_nodes :
    (ls : List Line) (fuel x : ℕ) (files : Files)
    → All IsLine ls
    → line_count ls < fuel
    → 1 ≤ x
    → x ≤ 36
    → (c : Config) × (read_config fuel (file_text ls) ≡ some c)
      × ((parse_schedule (write_config c files) (new_node (pos (host x)))).cs_time
          ≡ alloc_after 0 ls)
      × IsSetOf
          (parse_schedule (write_config c files) (new_node (pos (host x)))).time_schedule
          (times_for x ls)
config_reaches_nodes ls fuel x files h f l u =
    let c = said_by no_config ls in
    let (e, a) = said_by-times x ls no_config l h in
    let (here, node, bound) = trans_at_lem x l u in
    let fits : All Fits (c.alloc_time ∷ c.times (host x)) = (
      subst Fits (sym a) (alloc-Fits 0 ls (omega arith) h),
      subst (All Fits) (sym e) (times_for-Fits x ls h),
    ) in
    let (cs, times) =
      parse_schedule-write_config c files (host x) (omega (arith, l)) (omega (arith, bound)) node
        fits in
    (c, read_config-file_text ls fuel h f, cs ∙ a, subst (IsSetOf _) e times)
