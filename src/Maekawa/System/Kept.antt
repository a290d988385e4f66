-- ===== src/Maekawa/System/Kept.antt =====
-- A node stays formed, whatever it handles in order.
use aosproject.Prelude.{
  ℕ, ◌+◌, ◌≤◌, ◌≡◌, refl, sym, ap, ◌∙◌, subst, ◌≢◌, ◌⊎◌, inl, inr, true, false, Option, none, some,
  List, [], ◌∷◌, map, arith, Bool-cases, ◌>>=◌, In, All, All-In, ℤ, ==ℤ_iff,
}
use aosproject.Maekawa.Message.{Message, precedes}
use aosproject.Maekawa.State.{Mak, put}
use aosproject.Maekawa.Handlers.{
  request_locked, request_free, release_next, serve_next, front, erase_from, receive_request,
  access_cs, receive_locked, receive_failed, receive_release, dispatch,
}
use mathlib.Core.Option.{some-injective}
use aosproject.OrderedSet.{insert, insert-All}
use aosproject.Distinct.{Within}
use aosproject.Node.MessageType.{MessageType}
use aosproject.Maekawa.Sends.{others}
use aosproject.Maekawa.Invariant.{Inv, dispatch-Inv}
use aosproject.Maekawa.Invariant.Responses.{keys, In-put_cases}
use aosproject.Maekawa.System.{IsOrderly, is_same, comes_first}
use aosproject.Maekawa.System.Weight.{banned, bit, is_release}
use aosproject.Maekawa.System.Effect.{arbiter_claim, Effect}
use aosproject.Maekawa.System.Formed.{IsHost, IsAnswer, IsRequest, Formed, put-answers}
use aosproject.Maekawa.System.Dispatched.{dispatch-Effect}
use aosproject.Maekawa.System.Handled.{if_then}

-- What the map of responses holds.
abbrev pub AreAnswers : ℤ → List ℤ → List (ℤ × MessageType) → Type 0
AreAnswers id qs map =
    Within (keys map) qs × ((q : ℤ) → In q (keys map) → id ≢ q) × All IsAnswer map

put-AreAnswers :
    (id : ℤ) (qs : List ℤ) (map : List (ℤ × MessageType)) (k : ℤ) (v : MessageType)
    → In k qs
    → k ≢ id
    → (v ≡ MessageType.lock) ⊎ (v ≡ MessageType.fail)
    → AreAnswers id qs map
    → AreAnswers id qs (put k v map)
put-AreAnswers id qs map k v member foreign answer (within, others, answers) = (
  (λ q i. elim (In-put_cases q k v map i) [
    | inl e ↦ subst (λ x. In x qs) (sym e) member
    | inr old ↦ within q old
  ]),
  (λ q i s. elim (In-put_cases q k v map i) [
    | inl e ↦ foreign (sym e ∙ sym s)
    | inr old ↦ others q old s
  ]),
  put-answers k v map answer answers,
)

-- The host, its quorum, and what has changed.
rebuilt :
    (m m' : Mak)
    → Formed m
    → Inv m'
    → (m'.node_id ≡ m.node_id) × (m'.quorum_set ≡ m.quorum_set)
    → AreAnswers m.node_id m.quorum_set m'.response_map
    → All IsRequest m'.waiting_queue
    → m'.inquiry_list ≡ []
    → (m'.is_in_cs ≡ true → m'.locked_for.1 ≡ m.node_id)
    → Formed m'
rebuilt m m' f v (i, q) (within, others, answers) rs quiet held = record {
  inv = v;
  own = rw (i, q) f.own;
  ascending = rw q f.ascending;
  hosts = rw q f.hosts;
  answered = rw q within;
  foreign = rw i others;
  answers = answers;
  requests = rs;
  quiet = quiet;
  held = rw i held;
}

pub same_answers : (m : Mak) → Formed m → AreAnswers m.node_id m.quorum_set m.response_map
same_answers m f = (f.answered, f.foreign, f.answers)

inside-locked : (m : Mak) → Formed m → m.is_in_cs ≡ true → m.is_locked ≡ true
inside-locked m f inside = elim (Bool-cases m.is_locked) [
  | inl locked ↦ locked
  | inr free ↦
      let (k, e, u) = All-In IsHost m.node_id m.quorum_set f.hosts f.own in
      absurd (ground (arith, ap (λ p. p.1) (f.inv.free free).1, f.held inside, e))
]

erase_from-All : (id : ℤ) (ms : List Message) → All IsRequest ms → All IsRequest (erase_from id ms)
unfolding erase_from
erase_from-All id [] h = tt
erase_from-All id (m ∷ ms) (hm, h) = ground (arith, erase_from-All id ms h)

-- What the handler of a request leaves of the rest.
abbrev RequestKept : Message → Mak → Mak → Type 0
RequestKept msg m m' =
    (m'.response_map ≡ m.response_map)
    × (m'.waiting_queue ≡ insert precedes msg m.waiting_queue)
    × (m'.inquiry_list ≡ m.inquiry_list)
    × (m'.is_in_cs ≡ true → m'.locked_for.1 ≡ m.node_id)

request_locked-kept :
    (msg : Message) (first : Option Message) (m m' : Mak)
    → Formed m
    → is_same msg first ≡ false
    → (first >>= λ r.
        some
          (request_locked r msg (record m { waiting_queue = insert precedes msg m.waiting_queue })))
      ≡ some m'
    → RequestKept msg m m'
unfolding request_locked
request_locked-kept msg none m m' f order e = cc
request_locked-kept msg (some r) m m' f order e =
    subst (RequestKept msg m) (some-injective _ _ (rw order at e)) (refl, refl, refl, f.held)

request_free-kept :
    (msg : Message) (m : Mak)
    → Formed m
    → m.is_locked ≡ false
    → RequestKept msg m
        (request_free msg (record m { waiting_queue = insert precedes msg m.waiting_queue }))
unfolding request_free
request_free-kept msg m f free =
    (refl, refl, refl, λ inside. absurd (ground (arith, inside-locked m f inside, free)))

receive_request-kept :
    (msg : Message) (m m' : Mak)
    → Formed m
    → (m.is_locked ≡ false) ⊎ (comes_first msg m ≡ false)
    → receive_request msg m ≡ some m'
    → RequestKept msg m m'
unfolding receive_request
receive_request-kept msg m m' f order e = elim (Bool-cases m.is_locked) [
  | inl locked ↦
      let later : comes_first msg m ≡ false = ground (arith, order, locked) in
      request_locked-kept msg (front (insert precedes msg m.waiting_queue)) m m' f later
        (sym (if_then _ locked) ∙ e)
  | inr free ↦
      subst (RequestKept msg m) (some-injective _ _ (rw free at e)) (request_free-kept msg m f free)
]

-- A release comes to no node that is in its critical section.
release-outside :
    (m : Mak) → Formed m → arbiter_claim m.node_id m + 1 ≤ bit m.is_locked → m.is_in_cs ≡ false
release-outside m f few = elim (Bool-cases m.is_in_cs) [
  | inl inside ↦ absurd (ground (arith, f.held inside, ==ℤ_iff m.locked_for.1 m.node_id, few))
  | inr outside ↦ outside
]

release_next-kept :
    (q : List Message) (m : Mak)
    → ((release_next q m).response_map ≡ m.response_map)
      × ((release_next q m).waiting_queue ≡ m.waiting_queue)
      × ((release_next q m).is_in_cs ≡ m.is_in_cs)
      × ((release_next q m).inquiry_list ≡ m.inquiry_list)
unfolding release_next
release_next-kept [] m = (refl, refl, refl, refl)
release_next-kept (first ∷ rest) m = (refl, refl, refl, refl)

pub serve_next-kept :
    (q : List Message) (m : Mak)
    → ((serve_next q m).response_map ≡ m.response_map)
      × ((serve_next q m).waiting_queue ≡ m.waiting_queue)
      × ((serve_next q m).is_in_cs ≡ m.is_in_cs)
      × ((serve_next q m).inquiry_list ≡ m.inquiry_list)
unfolding serve_next
serve_next-kept [] m = (refl, refl, refl, refl)
serve_next-kept (first ∷ rest) m = (refl, refl, refl, refl)

-- What a handler leaves of the map, of the queue and of the lock.
pub record Kept (m m' : Mak) : Type 0 where
  pub answers : AreAnswers m.node_id m.quorum_set m'.response_map
  pub requests : All IsRequest m'.waiting_queue
  pub quiet : m'.inquiry_list ≡ []
  pub held : m'.is_in_cs ≡ true → m'.locked_for.1 ≡ m.node_id

access_cs-kept :
    (m : Mak)
    → ((access_cs m).response_map ≡ m.response_map)
      × ((access_cs m).waiting_queue ≡ m.waiting_queue)
      × ((access_cs m).locked_for ≡ m.locked_for)
      × ((access_cs m).inquiry_list ≡ m.inquiry_list)
unfolding access_cs
access_cs-kept m = ground arith

receive_locked-kept :
    (msg : Message) (m : Mak)
    → ((receive_locked msg m).response_map ≡ put msg.from msg.kind m.response_map)
      × ((receive_locked msg m).waiting_queue ≡ m.waiting_queue)
      × ((receive_locked msg m).locked_for ≡ m.locked_for)
      × ((receive_locked msg m).inquiry_list ≡ m.inquiry_list)
unfolding receive_locked
receive_locked-kept msg m =
    ground
      (arith, access_cs-kept (record m { response_map = put msg.from msg.kind m.response_map }))

pub same-Kept : (m : Mak) → Formed m → Kept m m
same-Kept m f = record {
  answers = same_answers m f;
  requests = f.requests;
  quiet = f.quiet;
  held = f.held;
}

kind-Kept :
    (k : MessageType) (msg : Message) (m m' : Mak)
    → msg.kind ≡ k
    → Formed m
    → banned k ≡ 0
    → IsOrderly k msg m
    → arbiter_claim m.node_id m + bit (is_release k) ≤ bit m.is_locked
    → dispatch k msg m ≡ some m'
    → Kept m m'
unfolding dispatch receive_release receive_failed
kind-Kept MessageType.request msg m m' k f b (d, order) few e =
    let (same, queue, list, held) = receive_request-kept msg m m' f order e in
    record {
      answers = rw same (same_answers m f);
      requests = rw queue (insert-All precedes IsRequest msg m.waiting_queue k f.requests);
      quiet = list ∙ f.quiet;
      held = held;
    }
kind-Kept MessageType.release msg m m' k f b order few e =
    let q = erase_from msg.from m.waiting_queue in
    let (same, queue, inside, list) = release_next-kept q (record m { waiting_queue = q }) in
    subst (Kept m) (some-injective _ _ e) (record {
      answers = rw same (same_answers m f);
      requests = rw queue (erase_from-All msg.from m.waiting_queue f.requests);
      quiet = list ∙ f.quiet;
      held = λ i. absurd (ground (arith, rw inside at i, release-outside m f few));
    })
kind-Kept MessageType.lock msg m m' k f b (d, member, mine) few e =
    let (same, queue, lock, list) = receive_locked-kept msg m in
    subst (Kept m) (some-injective _ _ e) (record {
      answers = rw same (
          put-AreAnswers m.node_id m.quorum_set m.response_map msg.from msg.kind member d (inl k)
            (same_answers m f));
      requests = rw queue f.requests;
      quiet = list ∙ f.quiet;
      held = λ i. ap (λ p. p.1) lock ∙ mine;
    })
kind-Kept MessageType.fail msg m m' k f b (d, member) few e =
    subst (Kept m) (some-injective _ _ e) (record {
      answers =
          put-AreAnswers m.node_id m.quorum_set m.response_map msg.from msg.kind member d (inr k)
            (same_answers m f);
      requests = f.requests;
      quiet = refl;
      held = f.held;
    })
kind-Kept MessageType.inquire msg m m' k f b order few e = absurd (omega (arith, b))
kind-Kept MessageType.relinquish msg m m' k f b order few e = absurd (omega (arith, b))
kind-Kept _ msg m m' k f b order few e = subst (Kept m) (some-injective _ _ e) (same-Kept m f)

pub own-IsHost : (m : Mak) → Formed m → IsHost m.node_id
own-IsHost m f = All-In IsHost m.node_id m.quorum_set f.hosts f.own

pub Kept-Formed :
    {g r : ℕ} (m m' : Mak) → Formed m → Inv m' → Effect m.node_id g r m m' → Kept m m' → Formed m'
Kept-Formed m m' f v x k =
    rebuilt m m' f v (x.sends.same_id, x.sends.same_quorum) k.answers k.requests k.quiet k.held

pub dispatch-Formed :
    (msg : Message) (m m' : Mak)
    → Formed m
    → banned msg.kind ≡ 0
    → IsOrderly msg.kind msg m
    → arbiter_claim m.node_id m + bit (is_release msg.kind) ≤ bit m.is_locked
    → dispatch msg.kind msg m ≡ some m'
    → Formed m'
dispatch-Formed msg m m' f b order few e =
    Kept-Formed m m' f (dispatch-Inv msg.kind msg m m' f.inv e)
      (dispatch-Effect m.node_id (own-IsHost m f) msg m m' f b order e)
      (kind-Kept msg.kind msg m m' refl f b order few e)
