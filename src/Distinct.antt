-- ===== src/Distinct.antt =====
-- Lists without repetition, and the pigeonhole principle on them.
use aosproject.Prelude.{
  suc, ◌≤◌, ◌≡◌, refl, sym, ◌≢◌, ◌⊎◌, inl, inr, List, [], ◌∷◌, arith, length, In,
}

module _ {A : Type 0} where
  abbrev pub Distinct : List A → Type 0
  Distinct [] = Unit {0}
  Distinct (x ∷ xs) = ((y : A) → In y xs → x ≢ y) × Distinct xs

  abbrev pub Within : List A → List A → Type 0
  Within xs ys = (a : A) → In a xs → In a ys

  module _ (discrete : (a b : A) → Dec (a ≡ b)) where
    erase : A → List A → List A
    erase a [] = []
    erase a (x ∷ xs) = elim (discrete x a) [ yes _ ↦ xs | no _ ↦ x ∷ erase a xs ]

    length-erase : (a : A) (xs : List A) → In a xs → length xs ≡ suc (length (erase a xs))
    unfolding erase
    length-erase a [] h = elim h [ ]
    length-erase a (x ∷ xs) h = ground (arith, length-erase a xs)

    In-erase : (a b : A) (xs : List A) → In b xs → a ≢ b → In b (erase a xs)
    unfolding erase
    In-erase a b [] h d = elim h [ ]
    In-erase a b (x ∷ xs) h d = ground (arith, In-erase a b xs)

    In-of_erase : (a b : A) (xs : List A) → In b xs → (b ≡ a) ⊎ In b (erase a xs)
    In-of_erase a b xs h = elim (discrete b a) [
      | yes e ↦ inl e
      | no d ↦ inr (In-erase a b xs h (λ e. d (sym e)))
    ]

    -- A list without repetition that lies in another, no longer one covers it.
    pub covers :
        (xs ys : List A) → Distinct xs → Within xs ys → length ys ≤ length xs → Within ys xs
    covers [] [] d w l b h = h
    covers [] (y ∷ ys) d w l b h = absurd (omega arith)
    covers (x ∷ xs) ys d w l b h = elim (In-of_erase x b ys h) [
      | inl e ↦ inl (sym e)
      | inr i ↦ inr (
          covers xs (erase x ys) d.1 (λ a j. In-erase x a ys (w a (inr j)) (d.0 a j))
            (omega (arith, length-erase x ys (w x (inl refl)))) b i)
    ]
