-- ===== src/Text/Equal.antt =====
-- Equality of texts, as `strcmp` and the names of files need it.
use aosproject.Prelude.{◌≡◌, ◌↔◌, Bool, true, false, ◌&&◌, [], ◌∷◌, arith, ◌==◌}
use aosproject.Text.Decimal.{Bytes}

unfoldable pub same_bytes : Bytes → Bytes → Bool
same_bytes [] [] = true
same_bytes [] (c ∷ s) = false
same_bytes (c ∷ s) [] = false
same_bytes (c ∷ s) (d ∷ t) = (c == d) && same_bytes s t

pub same_bytes_iff : (s t : Bytes) → (same_bytes s t ≡ true) ↔ (s ≡ t)
unfolding same_bytes
same_bytes_iff [] [] = ground arith
same_bytes_iff [] (c ∷ s) = (λ e. cc, λ e. cc)
same_bytes_iff (c ∷ s) [] = (λ e. cc, λ e. cc)
same_bytes_iff (c ∷ s) (d ∷ t) = ground (arith, same_bytes_iff s t)
