-- ===== src/Text/Atoi.antt =====
-- `atoi`: leading white space, a sign, and digits up to the first byte that is none. The value of
-- a numeral that no `int` holds is undefined in C++; the model gives the integer.
use aosproject.Prelude.{
  ℕ, zero, suc, ◌+◌, ◌-◌, ◌*◌, ◌/◌, ◌%◌, ◌<◌, ◌≡◌, ◌≢◌, refl, sym, ap, ◌∙◌, [], ◌∷◌, ◌++◌,
  append_assoc, arith, ltb, leb, ◌==◌, ◌&&◌, ◌||◌, Bool, if◌then◌else◌, Bool-cases, inl, inr, ℤ,
  pos, negsuc, All, append-nil,
}
use aosproject.Text.Decimal.{
  Bytes, codes, space, minus_sign, digit, IsDigit, digits, show_nat, show_int, show_nat-All,
  show_nat-ne-nil,
}

is_space : ℕ → Bool
is_space c = c == space || (leb 9 c && leb c 13)

is_digit : ℕ → Bool
is_digit c = leb 48 c && leb c 57

pub to_number : ℕ → Bytes → ℕ
unfolding is_digit
to_number n [] = n
to_number n (c ∷ s) = let more = to_number (n * 10 + (c - 48)) s in if is_digit c then more else n

negated : ℕ → ℤ
negated zero = pos 0
negated (suc n) = negsuc n

signed : Bytes → ℤ
unfolding to_number negated
signed [] = pos 0
signed (c ∷ s) =
    if c == minus_sign
    then negated (to_number 0 s)
    else if c == 43
    then pos (to_number 0 s)
    else pos (to_number 0 (c ∷ s))

unfoldable pub atoi : Bytes → ℤ
unfolding signed is_space
atoi [] = pos 0
atoi (c ∷ s) = let later = atoi s in if is_space c then later else signed (c ∷ s)

atoi_sample : atoi (codes " -120 7") ≡ negsuc 119
unfolding atoi
atoi_sample = refl

-- Digits are read on from the number read so far.
to_number-digits :
    (f n : ℕ) (rest : Bytes) → n < f → to_number 0 (digits f n ++ rest) ≡ to_number n rest
unfolding digits
to_number-digits zero n rest h = absurd (omega arith)
to_number-digits (suc f) n rest h = elim (Bool-cases (ltb n 10)) [
  | inl small ↦ rw small (unfold to_number in ground arith)
  | inr big ↦
      rw (big, append_assoc, to_number-digits f (n / 10) (digit (n % 10) ∷ rest) (ground arith))
        (unfold to_number in ground arith)
]

-- What follows a number in a message: the end, or a space.
abbrev Stops : Bytes → Type 0
Stops rest = (n : ℕ) → to_number n rest ≡ n

to_number-show_nat : (n : ℕ) (rest : Bytes) → Stops rest → to_number 0 (show_nat n ++ rest) ≡ n
unfolding show_nat
to_number-show_nat n rest h = to_number-digits (suc n) n rest (omega arith) ∙ h n

atoi_of_digit :
    (s rest : Bytes) → All IsDigit s → s ≢ [] → atoi (s ++ rest) ≡ pos (to_number 0 (s ++ rest))
unfolding atoi
atoi_of_digit [] rest d h = absurd (h refl)
atoi_of_digit (c ∷ s) rest d h = ground arith

atoi_shown : (z : ℤ) (rest : Bytes) → Stops rest → atoi (show_int z ++ rest) ≡ z
unfolding show_int
atoi_shown (pos n) rest h =
    atoi_of_digit (show_nat n) rest (show_nat-All n) (show_nat-ne-nil n)
    ∙ ap_pos (to_number-show_nat n rest h)
  where
    ap_pos : {a b : ℕ} → a ≡ b → pos a ≡ pos b
    ap_pos e = cc
atoi_shown (negsuc n) rest h = unfold atoi in ground (arith, to_number-show_nat (suc n) rest h)

-- An integer is read back from its print, at the end of the text and before a space.
pub atoi-show_int : (z : ℤ) → atoi (show_int z) ≡ z
unfolding to_number
atoi-show_int z = rw (← append-nil (show_int z)) (atoi_shown z [] (λ n. refl))

pub atoi-show_int-space : (z : ℤ) (rest : Bytes) → atoi (show_int z ++ space ∷ rest) ≡ z
unfolding to_number
atoi-show_int-space z rest = atoi_shown z (space ∷ rest) (λ n. ground arith)

-- A leading zero changes nothing.
pub atoi-zero_show : (n : ℕ) → atoi (b'0' ∷ show_int (pos n)) ≡ pos n
unfolding atoi signed is_space to_number is_digit show_int show_nat
atoi-zero_show n =
    rw
      (ap (λ s. to_number 0 s) (sym (append-nil (digits (suc n) n)))
        ∙ to_number-digits (suc n) n [] (omega arith))
      refl
