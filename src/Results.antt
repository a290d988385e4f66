-- ===== src/Results.antt =====
-- testbed.cpp, `get_conflict`, `get_runtime` and `get_wait`: what the test bed makes of the logs.
pub mod Log
pub mod Blind
use aosproject.Prelude.{
  ℕ, ◌+◌, ◌-◌, ◌/◌, ◌%◌, ◌^◌, ◌≤◌, ◌<◌, ◌≡◌, refl, sym, ap, ◌∙◌, subst, ◌↔◌, ◌⊎◌, inl, inr, Bool,
  true, false, ◌&&◌, ◌||◌, List, [], ◌∷◌, arith, ltb, if◌then◌else◌, Bool-cases, length, In, All,
}

pub record CritSec : Type 0 where
  pub node : ℕ
  pub requested : ℕ  -- unsigned long, as the next two
  pub started : ℕ
  pub finished : ℕ

-- The condition of `get_conflict` on a section and a later one in the list.
overlaps : CritSec → CritSec → Bool
overlaps c1 c2 =
    (ltb c1.started c2.started && ltb c2.started c1.finished)
    || (ltb c1.started c2.finished && ltb c2.finished c1.finished)

overlaps_any : CritSec → List CritSec → Bool
unfolding overlaps
overlaps_any c1 [] = false
overlaps_any c1 (c2 ∷ rest) =
    let more = overlaps_any c1 rest in if overlaps c1 c2 then true else more

-- The list is the section `c1` and what `next` leads to.
unfoldable pub get_conflict : CritSec → List CritSec → Bool
unfolding overlaps_any
get_conflict c1 [] = false
get_conflict c1 (c2 ∷ rest) =
    let more = get_conflict c2 rest in if overlaps_any c1 (c2 ∷ rest) then true else more

max_finished : ℕ → List CritSec → ℕ
max_finished max [] = max
max_finished max (c ∷ rest) = max_finished (if ltb max c.finished then c.finished else max) rest

unfoldable pub get_runtime : CritSec → List CritSec → ℕ
unfolding max_finished
get_runtime head rest = max_finished head.finished rest

-- `total_wait += started - requested` on 64 bits.
add_waits : ℕ → List CritSec → ℕ
add_waits total [] = total
add_waits total (c ∷ rest) = add_waits ((total + (c.started + 2 ^ 64 - c.requested)) % 2 ^ 64) rest

unfoldable pub get_wait : CritSec → List CritSec → ℕ
unfolding add_waits
get_wait head rest = add_waits 0 (head ∷ rest) / length (head ∷ rest)

-- A section that ends no earlier than it starts.
abbrev pub IsSpan : CritSec → Type 0
IsSpan c = c.started ≤ c.finished

-- Two sections that are entered at the same time, the first not within the second.
abbrev pub Meets : CritSec → CritSec → Type 0
Meets c1 c2 =
    (c1.started < c2.finished)
    × (c2.started < c1.finished)
    × ((c1.started < c2.started) ⊎ (c2.finished < c1.finished))

abbrev pub MeetsAny : CritSec → List CritSec → Type 0
MeetsAny c1 [] = ⊥
MeetsAny c1 (c2 ∷ rest) = Meets c1 c2 ⊎ MeetsAny c1 rest

abbrev pub Conflict : CritSec → List CritSec → Type 0
Conflict c1 [] = ⊥
Conflict c1 (c2 ∷ rest) = MeetsAny c1 (c2 ∷ rest) ⊎ Conflict c2 rest

overlaps_iff : (c1 c2 : CritSec) → IsSpan c1 → IsSpan c2 → (overlaps c1 c2 ≡ true) ↔ Meets c1 c2
unfolding overlaps
overlaps_iff c1 c2 h1 h2 = ground arith

overlaps_any_iff :
    (c1 : CritSec) (cs : List CritSec)
    → IsSpan c1
    → All IsSpan cs
    → (overlaps_any c1 cs ≡ true) ↔ MeetsAny c1 cs
unfolding overlaps_any
overlaps_any_iff c1 [] h1 h = (λ e. cc, λ m. elim m [ ])
overlaps_any_iff c1 (c2 ∷ rest) h1 h =
    ground (arith, overlaps_iff c1 c2 h1 h.0, overlaps_any_iff c1 rest h1 h.1)

-- The check reports a conflict exactly when two sections are entered at the same time and the one
-- that is earlier in the list does not lie within the other, if each ends no earlier than it starts.
pub get_conflict_iff :
    (c1 : CritSec) (cs : List CritSec)
    → IsSpan c1
    → All IsSpan cs
    → (get_conflict c1 cs ≡ true) ↔ Conflict c1 cs
unfolding get_conflict
get_conflict_iff c1 [] h1 h = (λ e. cc, λ m. elim m [ ])
get_conflict_iff c1 (c2 ∷ rest) h1 h =
    ground (arith, overlaps_any_iff c1 (c2 ∷ rest) h1 h, get_conflict_iff c2 rest h.0 h.1)

max_finished_up :
    (max : ℕ) (c : CritSec) (rest : List CritSec)
    → ltb max c.finished ≡ true
    → max_finished max (c ∷ rest) ≡ max_finished c.finished rest
unfolding max_finished
max_finished_up max c rest e = rw e refl

max_finished_down :
    (max : ℕ) (c : CritSec) (rest : List CritSec)
    → ltb max c.finished ≡ false
    → max_finished max (c ∷ rest) ≡ max_finished max rest
unfolding max_finished
max_finished_down max c rest e = rw e refl

-- The greatest of a number and the ends of sections.
abbrev IsLatest : ℕ → List CritSec → ℕ → Type 0
IsLatest max cs m =
    (max ≤ m)
    × All (λ c. c.finished ≤ m) cs
    × ((m ≡ max) ⊎ ((c : CritSec) × In c cs × (m ≡ c.finished)))

max_finished_lem : (max : ℕ) (cs : List CritSec) → IsLatest max cs (max_finished max cs)
max_finished_lem max [] = unfold max_finished in (omega arith, tt, inl refl)
max_finished_lem max (c ∷ rest) = elim (Bool-cases (ltb max c.finished)) [
  | inl up ↦
      let (above, all, reached) = max_finished_lem c.finished rest in
      subst (IsLatest max (c ∷ rest)) (sym (max_finished_up max c rest up)) (
        ground (arith, above),
        (above, all),
        elim reached [ inl e ↦ inr (c, inl refl, e) | inr (d, i, e) ↦ inr (d, inr i, e) ],
      )
  | inr down ↦
      let (above, all, reached) = max_finished_lem max rest in
      subst (IsLatest max (c ∷ rest)) (sym (max_finished_down max c rest down)) (
        above,
        (ground (arith, above), all),
        elim reached [ inl e ↦ inl e | inr (d, i, e) ↦ inr (d, inr i, e) ],
      )
]

-- The run time is the latest end of a section in the list.
pub get_runtime_lem :
    (head : CritSec) (rest : List CritSec)
    → All (λ c. c.finished ≤ get_runtime head rest) (head ∷ rest)
      × ((c : CritSec) × In c (head ∷ rest) × (get_runtime head rest ≡ c.finished))
unfolding get_runtime
get_runtime_lem head rest =
    let (above, all, reached) = max_finished_lem head.finished rest in
    ((above, all), elim reached [ inl e ↦ (head, inl refl, e) | inr (d, i, e) ↦ (d, inr i, e) ])

-- The time that the sections have taken to wait.
abbrev pub waits : List CritSec → ℕ
waits [] = 0
waits (c ∷ rest) = (c.started - c.requested) + waits rest

add_waits_lem :
    (total : ℕ) (cs : List CritSec)
    → All (λ c. (c.requested ≤ c.started) × (c.started < 2 ^ 64)) cs
    → total + waits cs < 2 ^ 64
    → add_waits total cs ≡ total + waits cs
unfolding add_waits
add_waits_lem total [] h small = omega arith
add_waits_lem total (c ∷ rest) ((l, u), h) small =
    let now : (total + (c.started + 2 ^ 64 - c.requested)) % 2 ^ 64
        ≡ total + (c.started - c.requested) =
      omega (arith, l, u, small) in
    rw now (
      add_waits_lem (total + (c.started - c.requested)) rest h (omega (arith, small)) ∙ omega arith)

-- The wait is the mean over the list, if no section starts before it is requested and the sum fits
-- 64 bits.
pub get_wait_lem :
    (head : CritSec) (rest : List CritSec)
    → All (λ c. (c.requested ≤ c.started) × (c.started < 2 ^ 64)) (head ∷ rest)
    → waits (head ∷ rest) < 2 ^ 64
    → get_wait head rest ≡ waits (head ∷ rest) / length (head ∷ rest)
unfolding get_wait
get_wait_lem head rest h small =
    ap (λ w. w / length (head ∷ rest))
      (add_waits_lem 0 (head ∷ rest) h (omega (arith, small)) ∙ omega arith)
