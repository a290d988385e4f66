-- ===== src/Quorum/Numbering.antt =====
-- The numbers of the nodes that `QuorumAssignment` goes through.
use aosproject.Prelude.{
  ℕ, zero, suc, ◌≤◌, ◌≡◌, refl, sym, ap, ◌∙◌, ◌≢◌, inl, inr, List, [], ◌∷◌, ◌++◌, arith, leb,
  Bool-cases, In, All, In-append_left, In-append_right, In-append_cases, ℤ, pos,
}
use aosproject.Distinct.{Distinct}
use aosproject.Quorum.Assignment.{Quorum}
use aosproject.Quorum.Assignment.Built.{ids, first_nodes}
use aosproject.Quorum.Intersection.{IsNode}

Distinct-append_one :
    (xs : List ℤ) (x : ℤ) → Distinct xs → ((y : ℤ) → In y xs → y ≢ x) → Distinct (xs ++ (x ∷ []))
Distinct-append_one [] x d o = (λ y h. elim h [ ], tt)
Distinct-append_one (z ∷ zs) x d o = (
  λ y h. elim (In-append_cases y zs (x ∷ []) h) [
    | inl before ↦ d.0 y before
    | inr last ↦ elim last [
      | inl e ↦ λ f. o z (inl refl) (f ∙ sym e)
      | inr none_left ↦ elim none_left [ ]
    ]
  ],
  Distinct-append_one zs x d.1 (λ y i. o y (inr i)),
)

first_nodes-IsNode : (n : ℕ) (a : ℤ) → In a (first_nodes n) → IsNode n a
first_nodes-IsNode zero a h = elim h [ ]
first_nodes-IsNode (suc n) a h = elim (In-append_cases a (first_nodes n) (pos (suc n) ∷ []) h) [
  | inl before ↦ let (x, e, l, u) = first_nodes-IsNode n a before in (x, e, l, omega (arith, u))
  | inr last ↦ elim last [
    | inl e ↦ (suc n, sym e, omega arith, omega arith)
    | inr none_left ↦ elim none_left [ ]
  ]
]

pub In-first_nodes : (n x : ℕ) → 1 ≤ x → x ≤ n → In (pos x) (first_nodes n)
In-first_nodes zero x l u = ground (arith, l, u)
In-first_nodes (suc n) x l u = elim (Bool-cases (leb x n)) [
  | inl before ↦
      In-append_left (pos x) (first_nodes n) (pos (suc n) ∷ [])
        (In-first_nodes n x l (ground arith))
  | inr last ↦
      In-append_right (pos x) (first_nodes n) (pos (suc n) ∷ []) (inl (ap pos (ground arith)))
]

pub first_nodes-Distinct : (n : ℕ) → Distinct (first_nodes n)
first_nodes-Distinct zero = tt
first_nodes-Distinct (suc n) =
    Distinct-append_one (first_nodes n) (pos (suc n)) (first_nodes-Distinct n)
      (λ y h e. let (x, f, l, u) = first_nodes-IsNode n y h in suc_above n x u (cc (e, f)))
  where
    suc_above : (n x : ℕ) → x ≤ n → pos x ≢ pos (suc n)
    suc_above n x u e = ground arith

pub In-ids : (a : ℤ) (qs : List Quorum) → In a (ids qs) → (q : Quorum) × In q qs × (q.id ≡ a)
In-ids a [] h = elim h [ ]
In-ids a (q ∷ qs) (inl e) = (q, inl refl, e)
In-ids a (q ∷ qs) (inr h) = let (p, i, e) = In-ids a qs h in (p, inr i, e)

pub All-of_In : (P : Quorum → Type 0) (qs : List Quorum) → ((q : Quorum) → In q qs → P q) → All P qs
All-of_In P [] h = tt
All-of_In P (q ∷ qs) h = (h q (inl refl), All-of_In P qs (λ p i. h p (inr i)))

pub IsNode-weaken : (n : ℕ) → n ≤ 36 → (ms : List ℤ) → All (IsNode n) ms → All (IsNode 36) ms
IsNode-weaken n le [] h = tt
IsNode-weaken n le (m ∷ ms) ((x, e, l, u), h) =
    ((x, e, l, omega (arith, u, le)), IsNode-weaken n le ms h)
