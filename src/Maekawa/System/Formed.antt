-- ===== src/Maekawa/System/Formed.antt =====
-- A node with its quorum, and what it holds of the lock of one host.
use aosproject.Prelude.{
  ◌+◌, ◌≡◌, refl, sym, ap, ◌∙◌, subst, ◌≢◌, ◌⊎◌, inl, inr, true, false, some, List, [], ◌∷◌, arith,
  ◌==◌, if◌then◌else◌, Bool-cases, In, All, ℤ, ◌==ℤ◌, ltb_ℤ, to_unsigned, ℤ-discrete, ==ℤ_iff,
  ltb_ℤ_irrefl,
}
use aosproject.Maekawa.Message.{Message}
use aosproject.Maekawa.State.{Mak, put}
pub use aosproject.Quorum.ReadSet.{IsHost}
use mathlib.Core.Option.{some-injective}
use aosproject.OrderedSet.{IsSorted}
use aosproject.Distinct.{Within}
use aosproject.Node.MessageType.{MessageType, is_fail}
use aosproject.Node.State.{control, Node}
use aosproject.Maekawa.Sends.{others}
use aosproject.Maekawa.Invariant.{Inv, node-Inv}
use aosproject.Maekawa.Invariant.Responses.{keys, response}
use aosproject.Maekawa.System.Weight.{bit, is_lock, count_to}
use aosproject.Maekawa.System.Effect.{granted}

abbrev pub IsAnswer : ℤ × MessageType → Type 0
IsAnswer p = (p.1 ≡ MessageType.lock) ⊎ (p.1 ≡ MessageType.fail)

abbrev pub IsRequest : Message → Type 0
IsRequest msg = msg.kind ≡ MessageType.request

-- A node with its quorum as the test bed writes it, that has been answered in order.
pub record Formed (m : Mak) : Type 0 where
  pub inv : Inv m
  pub own : In m.node_id m.quorum_set
  pub ascending : IsSorted ltb_ℤ m.quorum_set
  pub hosts : All IsHost m.quorum_set
  pub answered : Within (keys m.response_map) m.quorum_set
  pub foreign : (q : ℤ) → In q (keys m.response_map) → m.node_id ≢ q
  pub answers : All IsAnswer m.response_map
  pub requests : All IsRequest m.waiting_queue
  pub quiet : m.inquiry_list ≡ []
  pub held : m.is_in_cs ≡ true → m.locked_for.1 ≡ m.node_id

pub host-address : (a : ℤ) → IsHost a → to_unsigned a ≢ control
unfolding to_unsigned
host-address a (k, e, u) c = ground (arith, e, u, c)

addresses-differ :
    (q a : ℤ) → IsHost q → IsHost a → q ≢ a → (to_unsigned q == to_unsigned a) ≡ false
unfolding to_unsigned
addresses-differ q a (k, e, u) (j, f, v) d = ground (arith, e, u, f, v, d)

pub count-skip : (a id q : ℤ) (qs : List ℤ) → q ≡ id → others id (q ∷ qs) ≡ others id qs
count-skip a id q qs e = ground (arith, ==ℤ_iff q id, e)

pub count-next :
    (a id q : ℤ) (qs : List ℤ)
    → q ≢ id
    → count_to a (others id (q ∷ qs))
      ≡ bit (to_unsigned q == to_unsigned a) + count_to a (others id qs)
count-next a id q qs d =
    let other : (q ==ℤ id) ≡ false = ground (arith, ==ℤ_iff q id, d) in rw other refl

pub count_to-other :
    (a id : ℤ) (qs : List ℤ)
    → IsHost a
    → All IsHost qs
    → ((q : ℤ) → In q qs → (q ≢ id) → q ≢ a)
    → count_to a (others id qs) ≡ 0
count_to-other a id [] ha hs d = refl
count_to-other a id (q ∷ qs) ha (hq, hs) d =
    let later = count_to-other a id qs ha hs (λ x i. d x (inr i)) in
    elim (ℤ-discrete q id) [
      | yes own ↦ ap (count_to a) (count-skip a id q qs own) ∙ later
      | no other ↦ omega (
        arith,
        count-next a id q qs other,
        ap bit (addresses-differ q a hq ha (d q (inl refl) other)),
        later,
      )
    ]

not_above : (a q : ℤ) (qs : List ℤ) → All (λ y. ltb_ℤ a y ≡ true) qs → In q qs → q ≢ a
not_above a q [] h i e = elim i [ ]
not_above a q (y ∷ qs) h (inl same) e = cc (ltb_ℤ_irrefl a, h.0, same, e)
not_above a q (y ∷ qs) h (inr i) e = not_above a q qs h.1 i e

-- At most one member of an ascending quorum has the address of the host `a`, and that is `a`.
abbrev IsCounted : ℤ → ℤ → List ℤ → Type 0
IsCounted a id qs =
    (count_to a (others id qs) ≡ 0) ⊎ ((count_to a (others id qs) ≡ 1) × In a qs × (id ≢ a))

later-IsCounted :
    (a id q : ℤ) (qs : List ℤ)
    → count_to a (others id (q ∷ qs)) ≡ count_to a (others id qs)
    → IsCounted a id qs
    → IsCounted a id (q ∷ qs)
later-IsCounted a id q qs e (inl c) = inl (e ∙ c)
later-IsCounted a id q qs e (inr (c, i, d)) = inr (e ∙ c, inr i, d)

pub count_to-one :
    (a id : ℤ) (qs : List ℤ) → IsHost a → All IsHost qs → IsSorted ltb_ℤ qs → IsCounted a id qs
count_to-one a id [] ha hs s = inl refl
count_to-one a id (q ∷ qs) ha (hq, hs) (above, s) =
    let later = count_to-one a id qs ha hs s in
    elim (ℤ-discrete q id) [
      | yes own ↦ later-IsCounted a id q qs (ap (count_to a) (count-skip a id q qs own)) later
      | no other ↦ elim (ℤ-discrete q a) [
        | yes e ↦
            let rest =
              count_to-other a id qs ha hs (λ x i d.
                not_above a x qs (subst (λ z. All (λ y. ltb_ℤ z y ≡ true) qs) e above) i) in
            let near : (to_unsigned q == to_unsigned a) ≡ true = ground (arith, e) in
            inr (
              omega (arith, count-next a id q qs other, ap bit near, rest),
              inl e,
              λ f. other (e ∙ sym f),
            )
        | no d ↦
            later-IsCounted a id q qs
              (omega (arith, count-next a id q qs other, ap bit (addresses-differ q a hq ha d)))
              later
      ]
    ]

pub granted-put :
    (a k : ℤ) (v : MessageType) (m : List (ℤ × MessageType))
    → granted a (put k v m) ≡ (if a ==ℤ k then is_lock v else granted a m)
unfolding granted put
granted-put a k v [] = refl
granted-put a k v ((j, w) ∷ m) =
    ground (arith, granted-put a k v m, ==ℤ_iff k j, ==ℤ_iff a j, ==ℤ_iff a k)

lock_of :
    (v : MessageType)
    → (v ≡ MessageType.lock) ⊎ (v ≡ MessageType.fail)
    → is_fail v ≡ false
    → is_lock v ≡ true
unfolding is_fail
lock_of v (inl e) f = rw e refl
lock_of v (inr e) f = cc (e, f)

pub granted-response :
    (a : ℤ) (v : MessageType) (m : List (ℤ × MessageType))
    → All IsAnswer m
    → response a m ≡ some v
    → is_fail v ≡ false
    → granted a m ≡ true
unfolding granted
granted-response a v [] h e f = cc
granted-response a v ((j, w) ∷ m) (hw, h) e f = elim (Bool-cases (a ==ℤ j)) [
  | inl mine ↦
      let same : w ≡ v = some-injective _ _ (rw mine at e) in
      rw mine (lock_of w hw (ap is_fail same ∙ f))
  | inr further ↦ rw further (granted-response a v m h (rw further at e) f)
]

pub put-answers :
    (k : ℤ) (v : MessageType) (m : List (ℤ × MessageType))
    → (v ≡ MessageType.lock) ⊎ (v ≡ MessageType.fail)
    → All IsAnswer m
    → All IsAnswer (put k v m)
unfolding put
put-answers k v [] hv h = (hv, tt)
put-answers k v ((j, w) ∷ m) hv (hw, h) =
    let later = put-answers k v m hv h in
    elim (Bool-cases (k ==ℤ j)) [
      | inl same ↦ rw same (hv, h)
      | inr other ↦ elim (Bool-cases (ltb_ℤ k j)) [
        | inl before ↦ rw (other, before) (hv, (hw, h))
        | inr behind ↦ rw (other, behind) (hw, later)
      ]
    ]

pub node-Formed :
    (m : Mak) (n : Node)
    → n.node_id ≡ m.node_id
    → n.quorum_set ≡ m.quorum_set
    → Formed m
    → Formed (record m { node = n })
node-Formed m n i q f = record {
  inv = node-Inv m n f.inv;
  own = rw (i, q) f.own;
  ascending = rw q f.ascending;
  hosts = rw q f.hosts;
  answered = rw q f.answered;
  foreign = rw i f.foreign;
  answers = f.answers;
  requests = f.requests;
  quiet = f.quiet;
  held = rw i f.held;
}
