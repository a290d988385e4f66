-- ===== src/Maekawa/System/KeptRounds.antt =====
-- A node stays formed in its rounds.
use aosproject.Prelude.{
  ◌+◌, ◌≡◌, refl, sym, ◌∙◌, subst, inl, inr, true, false, ◌&&◌, some, List, [], ◌∷◌, arith, ◌==◌,
  Bool-cases, ◌>>=◌, >>=-eq-some, All,
}
use aosproject.Maekawa.Message.{Message, precedes}
use aosproject.Maekawa.State.{Mak}
use aosproject.Maekawa.Handlers.{serve_next, erase_front, send_request}
use aosproject.Maekawa.Loop.{count_down, request_scheduled, tick}
use mathlib.Core.Option.{some-injective}
use aosproject.OrderedSet.{insert-All}
use aosproject.Node.State.{contains}
use aosproject.Maekawa.Invariant.{count_down-Inv, request_scheduled-Inv}
use aosproject.Maekawa.System.{IsFreeWhenDue}
use aosproject.Maekawa.System.Formed.{IsRequest, Formed, node-Formed}
use aosproject.Maekawa.System.Rounds.{
  freed, finish_cs-freed, count_down-Effect, request_scheduled-Effect,
}
use aosproject.Maekawa.System.Kept.{
  Kept, same_answers, serve_next-kept, same-Kept, own-IsHost, Kept-Formed,
}

finish_from-Kept :
    (m m' : Mak) (q : List Message)
    → All IsRequest q
    → (erase_front q >>= λ queue. some (serve_next queue (freed queue m))) ≡ some m'
    → Kept m m'
unfolding erase_front
finish_from-Kept m m' [] rs e = cc
finish_from-Kept m m' (first ∷ rest) (r, rs) e =
    let (same, queue, outside, list) = serve_next-kept rest (freed rest m) in
    subst (Kept m) (some-injective _ _ e) (record {
      answers = rw same ((λ q i. absurd i), (λ q i. absurd i), tt);
      requests = rw queue rs;
      quiet = list;
      held = λ i. absurd (ground (arith, rw outside at i));
    })

count_down-Formed : (m m' : Mak) → Formed m → count_down m ≡ some m' → Formed m'
unfolding count_down
count_down-Formed m m' f e = elim (Bool-cases ((m.cs_timer == 0) && m.is_in_cs)) [
  | inl over ↦
      Kept-Formed m m' f (count_down-Inv m m' f.inv e)
        (count_down-Effect m.node_id (own-IsHost m f) m m' f e)
        (finish_from-Kept m m' m.waiting_queue f.requests (sym (finish_cs-freed m) ∙ rw over at e))
  | inr on ↦ subst Formed (some-injective _ _ (rw on at e)) (node-Formed m _ refl refl f)
]

send_request-Kept : (m : Mak) → Formed m → Kept m (send_request m)
unfolding send_request
send_request-Kept m f = record {
  answers = same_answers m f;
  requests = insert-All precedes IsRequest _ m.waiting_queue refl f.requests;
  quiet = f.quiet;
  held = λ i. refl;
}

request_scheduled-Kept : (m : Mak) → Formed m → Kept m (request_scheduled m)
unfolding request_scheduled
request_scheduled-Kept m f = elim (Bool-cases (contains m.time_schedule m.timer)) [
  | inl due ↦
      let k =
        send_request-Kept (record m { node = record (m.node) { num_req = m.num_req + 1 } })
          (node-Formed m _ refl refl f) in
      rw due (record { answers = k.answers; requests = k.requests; quiet = k.quiet; held = k.held })
  | inr idle ↦ rw idle (same-Kept m f)
]

request_scheduled-Formed :
    (m : Mak)
    → Formed m
    → (contains m.time_schedule m.timer ≡ true → m.is_locked ≡ false)
    → Formed (request_scheduled m)
request_scheduled-Formed m f free =
    Kept-Formed m _ f (request_scheduled-Inv m f.inv)
      (request_scheduled-Effect m.node_id (own-IsHost m f) m free) (request_scheduled-Kept m f)

pub tick-Formed : (m m' : Mak) → Formed m → IsFreeWhenDue m → tick m ≡ some m' → Formed m'
unfolding tick
tick-Formed m m' f free e =
    let started = record m { node = record (m.node) { timer = m.timer + 1 } } in
    let (m'', counted, left) =
      >>=-eq-some (count_down started) (λ n. some (request_scheduled n)) e in
    subst Formed (some-injective _ _ left) (
      request_scheduled-Formed m''
        (count_down-Formed started m'' (node-Formed m _ refl refl f) counted) (free m'' counted))
