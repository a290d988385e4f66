-- ===== src/Family.antt =====
-- Families indexed by a number: update at one index, and sums of a weight over the first `n`.
use aosproject.Prelude.{
  ℕ, zero, suc, ◌+◌, ◌≤◌, ◌<◌, ◌≡◌, refl, inl, inr, ◌==◌, if◌then◌else◌, Bool-cases, arith,
}

module _ {A : Type 0} where
  abbrev pub update : (ℕ → A) → ℕ → A → ℕ → A
  update f i a j = if i == j then a else f j

  -- A predicate on every member of the first `n` is kept by an update that keeps it.
  pub update-each :
      (P : A → Type 0) (n : ℕ) (f : ℕ → A) (i : ℕ) (a : A)
      → P a
      → ((j : ℕ) → j < n → P (f j))
      → (j : ℕ) → j < n
      → P (update f i a j)
  update-each P n f i a p h j l = elim (Bool-cases (i == j)) [
    | inl e ↦ rw e p
    | inr e ↦ rw e (h j l)
  ]

  module _ (weight : A → ℕ) where
    abbrev pub sum : ℕ → (ℕ → A) → ℕ
    sum zero f = 0
    sum (suc n) f = sum n f + weight (f n)

    sum-update_above : (n : ℕ) (f : ℕ → A) (i : ℕ) (a : A) → n ≤ i → sum n (update f i a) ≡ sum n f
    sum-update_above zero f i a h = refl
    sum-update_above (suc n) f i a h = ground (arith, sum-update_above n f i a)

    pub sum-update :
        (n : ℕ) (f : ℕ → A) (i : ℕ) (a : A)
        → i < n
        → sum n (update f i a) + weight (f i) ≡ sum n f + weight a
    sum-update zero f i a h = absurd (omega (arith, h))
    sum-update (suc n) f i a h = elim (Bool-cases (i == n)) [
      | inl last ↦ ground (arith, last, sum-update_above n f i a)
      | inr before ↦ ground (arith, before, sum-update n f i a)
    ]

    -- One member weighs no more than all, and two no more than all.
    pub sum-one : (n : ℕ) (f : ℕ → A) (i : ℕ) → i < n → weight (f i) ≤ sum n f
    sum-one zero f i h = absurd (omega (arith, h))
    sum-one (suc n) f i h = ground (arith, sum-one n f i)

    pub sum-two :
        (n : ℕ) (f : ℕ → A) (i j : ℕ) → i < j → j < n → weight (f i) + weight (f j) ≤ sum n f
    sum-two zero f i j l h = absurd (omega (arith, h))
    sum-two (suc n) f i j l h = ground (arith, sum-one n f i, sum-two n f i j)

    pub sum-zero : (n : ℕ) (f : ℕ → A) → ((i : ℕ) → i < n → weight (f i) ≡ 0) → sum n f ≡ 0
    sum-zero zero f h = refl
    sum-zero (suc n) f h =
        omega (arith, sum-zero n f (λ i l. h i (omega (arith, l))), h n (omega arith))
