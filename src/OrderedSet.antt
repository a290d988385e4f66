-- ===== src/OrderedSet.antt =====
-- `std::set` as the nodes use it: elements in ascending order, where `insert` of an element that is
-- equivalent to one in the set changes nothing. The order is the source's `operator <`.
use aosproject.Prelude.{
  append-nil, append_assoc, All-append, ◌∙◌, sym, ◌++◌, ◌≡◌, refl, ◌≢◌, ◌⊎◌, inl, inr, Bool, true,
  false, List, [], ◌∷◌, arith, if◌then◌else◌, Bool-cases, In, All,
}

module _ {A : Type 0} (lt : A → A → Bool) where
  unfoldable pub insert : A → List A → List A
  insert x [] = x ∷ []
  insert x (y ∷ ys) = if lt x y then x ∷ y ∷ ys else if lt y x then y ∷ insert x ys else y ∷ ys

  -- Insertion one after the other, the first first.
  unfoldable pub insert_all : List A → List A → List A
  insert_all [] s = s
  insert_all (x ∷ xs) s = insert_all xs (insert x s)

  -- Strictly ascending.
  abbrev pub IsSorted : List A → Type 0
  IsSorted [] = Unit {0}
  IsSorted (x ∷ xs) = All (λ y. lt x y ≡ true) xs × IsSorted xs

  -- Neither precedes the other: what the set takes for the same element.
  abbrev pub Same : A → A → Type 0
  Same x y = (lt x y ≡ false) × (lt y x ≡ false)

  pub insert-All : (P : A → Type 0) (x : A) (xs : List A) → P x → All P xs → All P (insert x xs)
  unfolding insert
  insert-All P x [] p h = (p, tt)
  insert-All P x (y ∷ ys) p h = ground (arith, insert-All P x ys p h.1)

  -- Insertion keeps what is there.
  pub In-insert_old : (a x : A) (xs : List A) → In a xs → In a (insert x xs)
  unfolding insert
  In-insert_old a x [] h = elim h [ ]
  In-insert_old a x (y ∷ ys) h = ground (arith, In-insert_old a x ys)

  -- Every element of the new set is the inserted one or was there.
  pub In-insert_cases : (a x : A) (xs : List A) → In a (insert x xs) → (x ≡ a) ⊎ In a xs
  unfolding insert
  In-insert_cases a x [] h = ground arith
  In-insert_cases a x (y ∷ ys) h = ground (arith, In-insert_cases a x ys)

  pub insert-ne-nil : (x : A) (xs : List A) → insert x xs ≢ []
  unfolding insert
  insert-ne-nil x [] e = cc
  insert-ne-nil x (y ∷ ys) e = ground arith

  module _ (irrefl : (a : A) → lt a a ≡ false)
      (trans : (a b c : A) → lt a b ≡ true → lt b c ≡ true → lt a c ≡ true) where
    All-lt :
        (x y : A) (ys : List A)
        → lt x y ≡ true
        → All (λ z. lt y z ≡ true) ys
        → All (λ z. lt x z ≡ true) ys
    All-lt x y [] h a = tt
    All-lt x y (z ∷ zs) h a = (trans x y z h a.0, All-lt x y zs h a.1)

    pub insert-IsSorted : (x : A) (xs : List A) → IsSorted xs → IsSorted (insert x xs)
    unfolding insert
    insert-IsSorted x [] h = (tt, tt)
    insert-IsSorted x (y ∷ ys) h =
        ground
          (arith, insert-IsSorted x ys h.1, insert-All (λ z. lt y z ≡ true) x ys, All-lt x y ys)

    -- The set then holds an element equivalent to the inserted one.
    pub insert_holds : (x : A) (xs : List A) → (y : A) × In y (insert x xs) × Same x y
    unfolding insert
    insert_holds x [] = (x, inl refl, (irrefl x, irrefl x))
    insert_holds x (y ∷ ys) = elim (Bool-cases (lt x y)) [
      | inl before ↦ (x, rw before (inl refl), (irrefl x, irrefl x))
      | inr e ↦ elim (Bool-cases (lt y x)) [
        | inl after ↦ let (z, i, s) = insert_holds x ys in (z, rw (e, after) (inr i), s)
        | inr f ↦ (y, rw (e, f) (inl refl), (e, f))
      ]
    ]

    pub lt_asym : (x y : A) → lt x y ≡ true → lt y x ≡ false
    lt_asym x y h = elim (Bool-cases (lt y x)) [
      | inl g ↦ cc (trans x y x h g, irrefl x)
      | inr g ↦ g
    ]

    -- An element behind all others goes to the end.
    pub insert_last :
        (x : A) (xs : List A) → All (λ y. lt y x ≡ true) xs → insert x xs ≡ xs ++ x ∷ []
    unfolding insert
    insert_last x [] h = refl
    insert_last x (y ∷ ys) h = rw (lt_asym y x h.0, h.0, insert_last x ys h.1)

    All-trans :
        (x : A) (xs s : List A)
        → All (λ y. All (λ z. lt y z ≡ true) (x ∷ xs)) s
        → All (λ y. lt y x ≡ true) s × All (λ y. All (λ z. lt y z ≡ true) xs) s
    All-trans x xs [] h = (tt, tt)
    All-trans x xs (y ∷ ys) h =
        let rest = All-trans x xs ys h.1 in ((h.0.0, rest.0), (h.0.1, rest.1))

    -- Inserting an ascending list behind a set appends it.
    pub insert_all-append :
        (xs s : List A)
        → IsSorted xs
        → All (λ y. All (λ z. lt y z ≡ true) xs) s
        → insert_all xs s ≡ s ++ xs
    unfolding insert_all
    insert_all-append [] s h b = sym (append-nil s)
    insert_all-append (x ∷ xs) s h b =
        let (last, rest) = All-trans x xs s b in
        rw (insert_last x s last) (
          insert_all-append xs (s ++ x ∷ []) h.1 (All-append _ s (x ∷ []) rest (h.0, tt))
          ∙ append_assoc s (x ∷ []) xs)
