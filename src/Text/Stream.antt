-- ===== src/Text/Stream.antt =====
-- Input streams: `getline` and `>>` of the C++ library, on a file or on a text.
use aosproject.Prelude.{
  ℕ, suc, ◌-◌, ◌^◌, ◌<◌, ◌≡◌, refl, sym, ap, ◌∙◌, subst, ◌≢◌, ◌⊎◌, inl, inr, Bool, true, false,
  ◌&&◌, ◌||◌, [], ◌∷◌, ◌++◌, arith, ltb, leb, ◌==◌, if◌then◌else◌, All, ℤ, pos, negsuc,
}
use aosproject.Text.{
  Bytes, space, show_int, atoi, atoi-show_int, show_int-ne-nil, IsDigit, show_nat,
}
use aosproject.Text.Decimal.{show_nat-All, minus_sign}

abbrev pub newline : ℕ
newline = 10

-- A stream: what is left, and `eofbit`, which comes with every failure of these operations.
pub record Stream : Type 0 where
  pub rest : Bytes
  pub eof : Bool

-- A file that was opened, or a text: nothing is read yet.
abbrev pub fresh : Bytes → Stream
fresh s = record { rest = s; eof = false }

-- What stands before the delimiter, what is behind it, and whether the end came first.
unfoldable pub cut_at : ℕ → Bytes → Bytes × Bytes × Bool
cut_at d [] = ([], [], true)
cut_at d (c ∷ s) =
    let (line, rest, end) = cut_at d s in (if c == d then ([], s, false) else (c ∷ line, rest, end))

-- `getline(stream, buffer, d)`: at the end the buffer stays as it is.
unfoldable pub get_until : ℕ → Stream → Bytes → Bytes × Stream
unfolding cut_at
get_until d st buffer =
    let (line, rest, end) = cut_at d st.rest in
    (if st.eof then (buffer, st) else (line, record { rest = rest; eof = end }))

abbrev pub getline : Stream → Bytes → Bytes × Stream
getline st buffer = get_until newline st buffer

is_blank : ℕ → Bool
is_blank c = c == space || (leb 9 c && leb c 13)

unfoldable pub skip_blanks : Bytes → Bytes
unfolding is_blank
skip_blanks [] = []
skip_blanks (c ∷ s) = let more = skip_blanks s in if is_blank c then more else c ∷ s

cut_word : Bytes → Bytes × Bytes × Bool
unfolding is_blank
cut_word [] = ([], [], true)
cut_word (c ∷ s) =
    let (word, rest, end) = cut_word s in
    (if is_blank c then ([], c ∷ s, false) else (c ∷ word, rest, end))

word_or : Bytes → Bytes → Bytes × Stream
unfolding cut_word
word_or buffer [] = (buffer, record { rest = []; eof = true })
word_or buffer (c ∷ s) =
    let (word, rest, end) = cut_word (c ∷ s) in (word, record { rest = rest; eof = end })

-- `ifile >> buffer`: the next word; if none is left the buffer stays as it is.
unfoldable pub get_word : Stream → Bytes → Bytes × Stream
unfolding skip_blanks word_or
get_word st buffer = if st.eof then (buffer, st) else word_or buffer (skip_blanks st.rest)

-- `stream >> number`, for an `int`: no number is read where nothing but blanks is left, and 0 where
-- something else than a number stands there.
get_number : ℤ → Bytes → ℤ
get_number old [] = old
get_number old (c ∷ s) = atoi (c ∷ s)

unfoldable pub get_int : Stream → ℤ → ℤ
unfolding skip_blanks get_number
get_int st old = if st.eof then old else get_number old (skip_blanks st.rest)

-- `strtol(s, NULL, 10)`: what no `long` holds is cut to the nearest that it holds.
unfoldable pub saturated : ℤ → ℤ
saturated (pos n) = if ltb n (2 ^ 63) then pos n else pos (2 ^ 63 - 1)
saturated (negsuc n) = if ltb n (2 ^ 63) then negsuc n else negsuc (2 ^ 63 - 1)

unfoldable pub strtol : Bytes → ℤ
unfolding saturated
strtol s = saturated (atoi s)

-- No byte of the text is `d`.
abbrev pub Without : ℕ → Bytes → Type 0
Without d = All (λ c. c ≢ d)

pub cut_at-append :
    (d : ℕ) (w rest : Bytes) → Without d w → cut_at d (w ++ (d ∷ rest)) ≡ (w, rest, false)
unfolding cut_at
cut_at-append d [] rest h = ground arith
cut_at-append d (c ∷ w) rest (h, hs) = rw (cut_at-append d w rest hs) (ground (arith, h))

pub cut_at-Without : (d : ℕ) (w : Bytes) → Without d w → cut_at d w ≡ (w, [], true)
unfolding cut_at
cut_at-Without d [] h = refl
cut_at-Without d (c ∷ w) (h, hs) = rw (cut_at-Without d w hs) (ground (arith, h))

pub get_until-append :
    (d : ℕ) (w rest buffer : Bytes)
    → Without d w
    → get_until d (fresh (w ++ (d ∷ rest))) buffer ≡ (w, fresh rest)
unfolding get_until
get_until-append d w rest buffer h = rw (cut_at-append d w rest h) refl

pub get_until-Without :
    (d : ℕ) (w buffer : Bytes)
    → Without d w
    → get_until d (fresh w) buffer ≡ (w, record { rest = []; eof = true })
unfolding get_until
get_until-Without d w buffer h = rw (cut_at-Without d w h) refl

digits-Without : (d : ℕ) → ¬ IsDigit d → (s : Bytes) → All IsDigit s → Without d s
digits-Without d h [] a = tt
digits-Without d h (c ∷ s) (a, more) = ((λ e. h (subst IsDigit e a)), digits-Without d h s more)

pub show_nat-Without : (d : ℕ) → ¬ IsDigit d → (n : ℕ) → Without d (show_nat n)
show_nat-Without d h n = digits-Without d h (show_nat n) (show_nat-All n)

pub show_int-Without : (d : ℕ) → ¬ IsDigit d → d ≢ minus_sign → (z : ℤ) → Without d (show_int z)
unfolding show_int
show_int-Without d h m (pos n) = show_nat-Without d h n
show_int-Without d h m (negsuc n) = ((λ e. m (sym e)), show_nat-Without d h (suc n))

digit_blank : (c : ℕ) → (IsDigit c ⊎ (c ≡ minus_sign)) → is_blank c ≡ false
unfolding is_blank
digit_blank c (inl d) = ground (arith, d)
digit_blank c (inr m) = ground (arith, m)

-- A printed integer begins with no blank.
skip_blanks-show : (s : Bytes) → All IsDigit s → skip_blanks s ≡ s
unfolding skip_blanks
skip_blanks-show [] h = refl
skip_blanks-show (c ∷ s) (h, hs) = rw (digit_blank c (inl h)) refl

skip_blanks-minus : (s : Bytes) → skip_blanks (minus_sign ∷ s) ≡ minus_sign ∷ s
unfolding skip_blanks is_blank
skip_blanks-minus s = refl

skip_blanks-show_int : (z : ℤ) → skip_blanks (show_int z) ≡ show_int z
unfolding show_int
skip_blanks-show_int (pos n) = skip_blanks-show (show_nat n) (show_nat-All n)
skip_blanks-show_int (negsuc n) = skip_blanks-minus (show_nat (suc n))

get_number-ne-nil : (old : ℤ) (s : Bytes) → s ≢ [] → get_number old s ≡ atoi s
unfolding get_number
get_number-ne-nil old [] h = absurd (h refl)
get_number-ne-nil old (c ∷ s) h = refl

pub get_int-show_int : (z old : ℤ) → get_int (fresh (show_int z)) old ≡ z
unfolding get_int
get_int-show_int z old =
    ap (get_number old) (skip_blanks-show_int z)
    ∙ get_number-ne-nil old (show_int z) (show_int-ne-nil z)
    ∙ atoi-show_int z

pub saturated_small : (n : ℕ) → n < 2 ^ 63 → saturated (pos n) ≡ pos n
unfolding saturated
saturated_small n h = ground (arith, h)

atoi-show_nat : (n : ℕ) → atoi (show_nat n) ≡ pos n
unfolding show_int
atoi-show_nat n = atoi-show_int (pos n)

pub strtol-show_nat : (n : ℕ) → n < 2 ^ 63 → strtol (show_nat n) ≡ pos n
unfolding strtol
strtol-show_nat n h = ap saturated (atoi-show_nat n) ∙ saturated_small n h
