-- ===== src/Text/Decimal.antt =====
-- `stringstream << int`: an integer in decimal, with a minus sign when it is negative.
use Prim.Native.Char.{code}
use Prim.Native.String.{String}
use aosproject.Prelude.{
  ℕ, zero, suc, ◌+◌, ◌/◌, ◌%◌, ◌≤◌, ◌≢◌, List, [], ◌∷◌, ◌++◌, arith, ltb, if◌then◌else◌, Bool-cases,
  inl, inr, ℤ, pos, negsuc, All, All-append, length, length-append, refl, ◌≡◌, ◌<◌,
}

abbrev pub Bytes : Type 0
Bytes = List ℕ

-- The bytes of an ASCII literal.
abbrev pub codes : String → Bytes
codes String.[] = []
codes (String.◌∷◌ c s) = code c ∷ codes s

abbrev pub space : ℕ
space = 32

abbrev pub minus_sign : ℕ
minus_sign = 45

abbrev pub digit : ℕ → ℕ
digit d = 48 + d

abbrev pub IsDigit : ℕ → Type 0
IsDigit c = (48 ≤ c) × (c ≤ 57)

-- The fuel bounds the number of digits; `show_nat` gives more than enough.
unfoldable pub digits : ℕ → ℕ → Bytes
digits zero n = []
digits (suc f) n =
    let before = digits f (n / 10) in
    if ltb n 10 then digit n ∷ [] else before ++ digit (n % 10) ∷ []

unfoldable pub show_nat : ℕ → Bytes
unfolding digits
show_nat n = digits (suc n) n

unfoldable pub show_int : ℤ → Bytes
unfolding show_nat
show_int (pos n) = show_nat n
show_int (negsuc n) = minus_sign ∷ show_nat (suc n)

pub digits-All : (f n : ℕ) → All IsDigit (digits f n)
unfolding digits
digits-All zero n = tt
digits-All (suc f) n = elim (Bool-cases (ltb n 10)) [
  | inl small ↦ rw small (ground arith)
  | inr big ↦
      rw big (All-append IsDigit (digits f (n / 10)) _ (digits-All f (n / 10)) (omega arith))
]

pub show_nat-All : (n : ℕ) → All IsDigit (show_nat n)
unfolding show_nat
show_nat-All n = digits-All (suc n) n

append-ne-nil {ℓ} : {A : Type ℓ} (xs : List A) (a : A) → xs ++ a ∷ [] ≢ []
append-ne-nil [] a e = cc
append-ne-nil (x ∷ xs) a e = cc

pub show_nat-ne-nil : (n : ℕ) → show_nat n ≢ []
unfolding show_nat digits
show_nat-ne-nil n = elim (Bool-cases (ltb n 10)) [
  | inl small ↦ rw small (λ e. cc)
  | inr big ↦ rw big (append-ne-nil (digits n (n / 10)) _)
]

pub show_int-ne-nil : (z : ℤ) → show_int z ≢ []
unfolding show_int
show_int-ne-nil (pos n) = show_nat-ne-nil n
show_int-ne-nil (negsuc n) = λ e. cc

-- The integers that print as one byte.
abbrev pub IsOneDigit : ℤ → Type 0
IsOneDigit (pos n) = n < 10
IsOneDigit (negsuc n) = ⊥

pub length-show_digit : (z : ℤ) → IsOneDigit z → length (show_int z) ≡ 1
unfolding show_int show_nat digits
length-show_digit (pos n) h = ground arith
length-show_digit (negsuc n) h = elim h [ ]

nonempty : (s : Bytes) → s ≢ [] → 0 < length s
nonempty [] h = absurd (h refl)
nonempty (c ∷ s) h = omega arith

long_digits : (f n : ℕ) → 10 ≤ n → 1 < length (digits (suc (suc f)) n)
unfolding digits
long_digits f n h = elim (Bool-cases (ltb n 10)) [
  | inl small ↦ absurd (ground arith)
  | inr big ↦ elim (Bool-cases (ltb (n / 10) 10)) [
    | inl last ↦ rw (big, last) (omega arith)
    | inr more ↦
        rw (big, more)
          (omega (
            arith,
            length-append (digits f (n / 10 / 10) ++ digit (n / 10 % 10) ∷ [])
                (digit (n % 10) ∷ []),
            length-append (digits f (n / 10 / 10)) (digit (n / 10 % 10) ∷ []),
          ))
  ]
]

pub length-show_long : (z : ℤ) → ¬ IsOneDigit z → 1 < length (show_int z)
unfolding show_int show_nat
length-show_long (pos zero) h = absurd (h (omega arith))
length-show_long (pos (suc n)) h = elim (Bool-cases (ltb (suc n) 10)) [
  | inl small ↦ absurd (h (ground arith))
  | inr big ↦ long_digits n (suc n) (ground arith)
]
length-show_long (negsuc n) h = omega (arith, nonempty (show_nat (suc n)) (show_nat-ne-nil (suc n)))
