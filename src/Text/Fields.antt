-- ===== src/Text/Fields.antt =====
-- `s.substr(0, s.find_first_of(" "))` and `s.substr(s.find_first_of(" ") + 1)`, by which the nodes
-- take messages apart. `find_first_of` gives `npos` when there is no space, and `npos + 1` is 0:
-- then both calls return the whole text.
use aosproject.Prelude.{
  ℕ, suc, ◌≡◌, ◌≢◌, refl, ap, [], ◌∷◌, ◌++◌, Option, none, some, arith, ◌==◌, if◌then◌else◌, ℤ, pos,
  negsuc, All, take, drop, length,
}
use mathlib.Core.Option
use aosproject.Text.Decimal.{Bytes, space, IsDigit, show_int, show_nat, show_nat-All}

-- `none` is `npos`.
find_space : Bytes → Option ℕ
find_space [] = none
find_space (c ∷ s) = if c == space then some 0 else Option.map suc (find_space s)

prefix_to : Bytes → Option ℕ → Bytes
prefix_to s none = s
prefix_to s (some i) = take i s

suffix_after : Bytes → Option ℕ → Bytes
suffix_after s none = s
suffix_after s (some i) = drop (suc i) s

unfoldable pub first_field : Bytes → Bytes
unfolding find_space prefix_to
first_field s = prefix_to s (find_space s)

unfoldable pub rest_field : Bytes → Bytes
unfolding find_space suffix_after
rest_field s = suffix_after s (find_space s)

abbrev pub NoSpace : Bytes → Type 0
NoSpace = All (λ c. c ≢ space)

digit-NoSpace : (s : Bytes) → All IsDigit s → NoSpace s
digit-NoSpace [] d = tt
digit-NoSpace (c ∷ s) d = (omega arith, digit-NoSpace s d.1)

pub show_int-NoSpace : (z : ℤ) → NoSpace (show_int z)
unfolding show_int
show_int-NoSpace (pos n) = digit-NoSpace (show_nat n) (show_nat-All n)
show_int-NoSpace (negsuc n) = (omega arith, digit-NoSpace (show_nat (suc n)) (show_nat-All (suc n)))

find_space-append : (w r : Bytes) → NoSpace w → find_space (w ++ space ∷ r) ≡ some (length w)
unfolding find_space
find_space-append [] r h = refl
find_space-append (c ∷ w) r h = rw (find_space-append w r h.1) (ground arith)

take-length : (w r : Bytes) → take (length w) (w ++ r) ≡ w
take-length [] r = refl
take-length (c ∷ w) r = ap (◌∷◌ c) (take-length w r)

drop-length : (w r : Bytes) → drop (suc (length w)) (w ++ space ∷ r) ≡ r
drop-length [] r = refl
drop-length (c ∷ w) r = drop-length w r

find_space-none : (w : Bytes) → NoSpace w → find_space w ≡ none
unfolding find_space
find_space-none [] h = refl
find_space-none (c ∷ w) h = ground (arith, find_space-none w h.1)

pub first_field-append : (w r : Bytes) → NoSpace w → first_field (w ++ space ∷ r) ≡ w
unfolding first_field
first_field-append w r h = rw (find_space-append w r h, prefix_to) (take-length w (space ∷ r))

pub rest_field-append : (w r : Bytes) → NoSpace w → rest_field (w ++ space ∷ r) ≡ r
unfolding rest_field
rest_field-append w r h = rw (find_space-append w r h, suffix_after) (drop-length w r)

-- Without a space both calls return the text.
pub first_field_last : (w : Bytes) → NoSpace w → first_field w ≡ w
unfolding first_field
first_field_last w h = rw (find_space-none w h, prefix_to)

pub rest_field_last : (w : Bytes) → NoSpace w → rest_field w ≡ w
unfolding rest_field
rest_field_last w h = rw (find_space-none w h, suffix_after)
