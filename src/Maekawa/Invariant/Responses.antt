-- ===== src/Maekawa/Invariant/Responses.antt =====
-- The map of responses: its keys stay in order, and hold the nodes that have answered.
use aosproject.Prelude.{
  suc, ◌≡◌, refl, ap, ◌≢◌, ◌⊎◌, inl, inr, true, false, Option, none, some, List, [], ◌∷◌, arith,
  if◌then◌else◌, Bool-cases, length, In, All, ℤ, ◌==ℤ◌, ltb_ℤ, ==ℤ_iff, ltb_ℤ_irrefl, ltb_ℤ_trans,
  ltb_ℤ_connex,
}
use aosproject.OrderedSet.{IsSorted}
use aosproject.Node.MessageType.{MessageType, is_fail}
use aosproject.Maekawa.State.{put, has_fail}
use aosproject.Distinct.{Distinct}

abbrev pub keys : List (ℤ × MessageType) → List ℤ
keys [] = []
keys ((k, v) ∷ m) = k ∷ keys m

-- `find` by key.
abbrev pub response : ℤ → List (ℤ × MessageType) → Option MessageType
response k [] = none
response k ((j, v) ∷ m) = if k ==ℤ j then some v else response k m

put-All :
    (P : ℤ → Type 0) (k : ℤ) (v : MessageType) (m : List (ℤ × MessageType))
    → P k
    → All P (keys m)
    → All P (keys (put k v m))
unfolding put
put-All P k v [] p h = (p, tt)
put-All P k v ((j, w) ∷ m) p h = ground (arith, put-All P k v m p h.1)

All-lt :
    (k j : ℤ) (ks : List ℤ)
    → ltb_ℤ k j ≡ true
    → All (λ z. ltb_ℤ j z ≡ true) ks
    → All (λ z. ltb_ℤ k z ≡ true) ks
All-lt k j [] h a = tt
All-lt k j (z ∷ zs) h a = (ltb_ℤ_trans k j z h a.0, All-lt k j zs h a.1)

pub put-IsSorted :
    (k : ℤ) (v : MessageType) (m : List (ℤ × MessageType))
    → IsSorted ltb_ℤ (keys m)
    → IsSorted ltb_ℤ (keys (put k v m))
unfolding put
put-IsSorted k v [] h = (tt, tt)
put-IsSorted k v ((j, w) ∷ m) h = ground (
  arith,
  put-IsSorted k v m h.1,
  put-All (λ z. ltb_ℤ j z ≡ true) k v m,
  All-lt k j (keys m),
  ltb_ℤ_connex k j,
  ==ℤ_iff k j,
)

pub In-put_cases :
    (b k : ℤ) (v : MessageType) (m : List (ℤ × MessageType))
    → In b (keys (put k v m))
    → (b ≡ k) ⊎ In b (keys m)
unfolding put
In-put_cases b k v [] h = ground arith
In-put_cases b k v ((j, w) ∷ m) h = ground (arith, In-put_cases b k v m)

pub length-keys : (m : List (ℤ × MessageType)) → length (keys m) ≡ length m
length-keys [] = refl
length-keys ((k, v) ∷ m) = ap suc (length-keys m)

Distinct_above : (k : ℤ) (ks : List ℤ) → All (λ z. ltb_ℤ k z ≡ true) ks → (y : ℤ) → In y ks → k ≢ y
Distinct_above k [] a y h same = elim h [ ]
Distinct_above k (z ∷ zs) a y (inl e) same = cc (ltb_ℤ_irrefl k, a.0, same, e)
Distinct_above k (z ∷ zs) a y (inr h) same = Distinct_above k zs a.1 y h same

pub Distinct-of_IsSorted : (ks : List ℤ) → IsSorted ltb_ℤ ks → Distinct ks
Distinct-of_IsSorted [] h = tt
Distinct-of_IsSorted (k ∷ ks) h = (Distinct_above k ks h.0, Distinct-of_IsSorted ks h.1)

-- Without a FAIL in the map, every node that has answered did so by another message.
pub response_of_key :
    (k : ℤ) (m : List (ℤ × MessageType))
    → has_fail m ≡ false
    → In k (keys m)
    → (v : MessageType) × (response k m ≡ some v) × (is_fail v ≡ false)
unfolding has_fail
response_of_key k [] f h = elim h [ ]
response_of_key k ((j, w) ∷ m) f h = elim (Bool-cases (k ==ℤ j)) [
  | inl e ↦ (w, rw e refl, ground arith)
  | inr e ↦
      let (v, r, g) = response_of_key k m (ground arith) (ground (arith, ==ℤ_iff k j)) in
      (v, rw e r, g)
]
