-- ===== src/Text/IntFields.antt =====
-- The fields of a message: an integer is read back, and what follows it is left.
use aosproject.Prelude.{◌≡◌, ◌∷◌, ◌++◌, ℤ}
use aosproject.Text.Decimal.{Bytes, space, show_int}
use aosproject.Text.Atoi.{atoi, atoi-show_int, atoi-show_int-space}
use aosproject.Text.Fields.{
  first_field, rest_field, show_int-NoSpace, first_field-append, rest_field-append,
  first_field_last, rest_field_last,
}

pub first_int : (z : ℤ) (rest : Bytes) → atoi (first_field (show_int z ++ space ∷ rest)) ≡ z
first_int z rest = rw (first_field-append (show_int z) rest (show_int-NoSpace z)) (atoi-show_int z)

pub rest_int : (z : ℤ) (rest : Bytes) → rest_field (show_int z ++ space ∷ rest) ≡ rest
rest_int z rest = rest_field-append (show_int z) rest (show_int-NoSpace z)

pub last_int : (z : ℤ) → atoi (first_field (show_int z)) ≡ z
last_int z = rw (first_field_last (show_int z) (show_int-NoSpace z)) (atoi-show_int z)

pub rest_last_int : (z : ℤ) → rest_field (show_int z) ≡ show_int z
rest_last_int z = rest_field_last (show_int z) (show_int-NoSpace z)

pub ruleset int_fields = (first_int, rest_int, last_int, rest_last_int, atoi-show_int)
