-- ===== src/Maekawa/Priority.antt =====
-- Which request is first in the queue after an insertion.
use aosproject.Prelude.{
  ◌≡◌, refl, ◌⊎◌, inl, inr, Bool, true, false, ◌&&◌, some, List, [], ◌∷◌, arith, Bool-cases, In,
  All, ◌==ℤ◌, ==ℤ_iff, ltb_ℤ_irrefl,
}
use aosproject.OrderedSet.{insert, IsSorted}
use aosproject.Maekawa.Message.{Message, precedes, precedes_irrefl, precedes_trans, Same-fields}
use aosproject.Maekawa.Handlers.{front}

-- Nothing in the queue precedes the new request, and the first one is equivalent to it.
abbrev pub IsFirst : Message → Message → List Message → Type 0
IsFirst x f xs = (x.seq ≡ f.seq) × (x.from ≡ f.from) × All (λ y. precedes y x ≡ false) xs

asym : (x y : Message) → precedes x y ≡ true → precedes y x ≡ false
asym x y h = elim (Bool-cases (precedes y x)) [
  | inl g ↦ absurd (true_ne_false (precedes_trans x y x h g) (precedes_irrefl x))
  | inr g ↦ g
]
  where
    true_ne_false : {b : Bool} → b ≡ true → b ≡ false → ⊥
    true_ne_false p q = cc

none_before :
    (x y : Message) (ys : List Message)
    → precedes y x ≡ false
    → All (λ z. precedes y z ≡ true) ys
    → All (λ z. precedes z x ≡ false) ys
none_before x y [] h a = tt
none_before x y (z ∷ zs) h a = (
  elim (Bool-cases (precedes z x)) [ inl g ↦ cc (precedes_trans y z x a.0 g) | inr g ↦ g ],
  none_before x y zs h a.1,
)

pub insert-front :
    (x : Message) (xs : List Message)
    → IsSorted precedes xs
    → (f : Message) × (front (insert precedes x xs) ≡ some f)
      × (IsFirst x f xs ⊎ ((precedes f x ≡ true) × In f xs))
unfolding insert front
insert-front x [] h = (x, refl, inl (refl, refl, tt))
insert-front x (y ∷ ys) h = elim (Bool-cases (precedes x y)) [
  | inl before ↦ (
    x,
    rw before refl,
    inl (refl, refl, (asym x y before, none_before x y ys (asym x y before) h.0)),
  )
  | inr e ↦ elim (Bool-cases (precedes y x)) [
    | inl after ↦ (y, rw (e, after) refl, inr (after, inl refl))
    | inr f ↦
        let (same_seq, same_from) = Same-fields x y (e, f) in
        (y, rw (e, f) refl, inl (same_seq, same_from, (f, none_before x y ys f h.0)))
  ]
]

-- A request that precedes another differs from it in number or sender.
pub precedes-ne :
    (f x : Message) → precedes f x ≡ true → ((f.from ==ℤ x.from) && (f.seq ==ℤ x.seq)) ≡ false
unfolding precedes
precedes-ne f x h =
    ground
      (arith, ==ℤ_iff f.from x.from, ==ℤ_iff f.seq x.seq, ltb_ℤ_irrefl f.from, ltb_ℤ_irrefl f.seq)
