-- ===== src/Maekawa/System/Rounds.antt =====
-- What a round does to the grants of one node's lock: a request, or the end of a critical section.
use aosproject.Prelude.{
  ◌+◌, ◌≡◌, refl, sym, ap, ◌∙◌, subst, inl, inr, true, false, ◌&&◌, some, List, [], ◌∷◌, arith,
  ◌==◌, Bool-cases, ◌>>=◌, >>=-eq-some, All, ℤ, ◌==ℤ◌, ==ℤ_iff,
}
use aosproject.Maekawa.Message.{Message}
use aosproject.Maekawa.State.{Mak, nobody, release_quorum}
use aosproject.Maekawa.Handlers.{serve_next, erase_front, send_request, finish_cs}
use aosproject.Maekawa.Loop.{count_down, request_scheduled, tick}
use mathlib.Core.Option.{some-injective}
use aosproject.Node.State.{contains, network_send, send_finish_cs_msg}
use aosproject.Maekawa.Sends.{others}
use aosproject.Maekawa.System.{IsFreeWhenDue}
use aosproject.Maekawa.System.Weight.{bit, bit_le, count_to}
use aosproject.Maekawa.System.Effect.{
  Sends, Sends-nothing, Sends-trans, send_locked-Sends, release_quorum-Sends, request_quorum-Sends,
  send_finish_cs_msg-Sends, granted, client_claim, arbiter_claim, Effect, Effect-trans,
}
use aosproject.Maekawa.System.Formed.{
  IsHost, IsRequest, Formed, host-address, count_to-other, node-Formed,
}
use aosproject.Maekawa.System.Handled.{node-Effect, lock-Effect, locks-as_client, nobody-claim}

-- The node between its releases and the service of the next request.
abbrev pub freed : List Message → Mak → Mak
freed queue m = record m {
  node = release_quorum m.quorum_set (send_finish_cs_msg m.node);
  is_locked = false;
  is_in_cs = false;
  locked_for = nobody;
  response_map = [];
  waiting_queue = queue;
  inquiry_list = [];
}

pub finish_cs-freed :
    (m : Mak)
    → finish_cs m
      ≡ (erase_front m.waiting_queue >>= λ queue. some (serve_next queue (freed queue m)))
unfolding finish_cs
finish_cs-freed m = refl

module _ (a : ℤ) (ha : IsHost a) where
  -- A request of the node's own, on a lock that is free.
  pub send_request-Effect : (m : Mak) → m.is_locked ≡ false → Effect a 0 0 m (send_request m)
  unfolding send_request
  send_request-Effect m free =
      lock-Effect a ha (request_quorum-Sends a (host-address a ha) _ m.quorum_set m.node refl) refl
        refl (λ d. refl) (λ e rest few. omega (arith, few, ap bit free, bit_le (m.node_id ==ℤ a)))

  -- The node's lock is free, and it serves the next request.
  serve_next-Effect :
      (q : List Message) (m : Mak)
      → All IsRequest q
      → m.is_locked ≡ false
      → Effect a 0 0 m (serve_next q m)
  unfolding serve_next
  serve_next-Effect [] m rs free =
      node-Effect m m.node (Sends-nothing a m.node m.node refl refl refl refl)
  serve_next-Effect (first ∷ rest) m (r, rs) free = elim (Bool-cases (first.from ==ℤ m.node_id)) [
    | inl own ↦
        lock-Effect a ha
          (rw own (request_quorum-Sends a (host-address a ha) first m.quorum_set m.node r)) refl
          refl (λ d. refl)
          (λ e more few. omega (arith, few, ap bit free, bit_le (first.from ==ℤ a)))
    | inr other ↦
        lock-Effect a ha (rw other (send_locked-Sends a first.from m.node)) refl refl
          (locks-as_client a ha m)
          (λ e more few.
            ground (arith, few, free, other, ==ℤ_iff first.from a, ==ℤ_iff first.from m.node_id, e))
  ]

  own_lock : (m : Mak) → Formed m → m.is_in_cs ≡ true → m.node_id ≡ a → arbiter_claim a m ≡ 1
  own_lock m f inside e = ground (arith, f.held inside, e, ==ℤ_iff m.locked_for.1 a)

  no_release : (m : Mak) → Formed m → m.node_id ≡ a → count_to a (others m.node_id m.quorum_set) ≡ 0
  no_release m f e =
      count_to-other a m.node_id m.quorum_set ha f.hosts (λ q i other same. other (same ∙ sym e))

  freed-Effect :
      (queue : List Message) (m : Mak)
      → Formed m
      → m.is_in_cs ≡ true
      → Effect a 0 0 m (freed queue m)
  unfolding client_claim granted send_finish_cs_msg network_send
  freed-Effect queue m f inside =
      let s =
        Sends-trans a (send_finish_cs_msg-Sends a (host-address a ha) m.node)
          (release_quorum-Sends a m.quorum_set (send_finish_cs_msg m.node)) in
      record {
        weight = count_to a (others m.node_id m.quorum_set);
        sends =
            subst (λ w. Sends a w m.node (release_quorum m.quorum_set (send_finish_cs_msg m.node)))
              (omega arith) s;
        as_client = λ d. rw inside (omega arith);
        as_arbiter = λ e rest few. omega (
          arith,
          few,
          nobody-claim a ha,
          own_lock m f inside e,
          no_release m f e,
          bit_le m.is_locked,
        );
      }

  finish_from :
      (m m' : Mak)
      → Formed m
      → m.is_in_cs ≡ true
      → (q : List Message) → All IsRequest q
      → (erase_front q >>= λ queue. some (serve_next queue (freed queue m))) ≡ some m'
      → Effect a 0 0 m m'
  unfolding erase_front
  finish_from m m' f inside [] rs e = cc
  finish_from m m' f inside (first ∷ rest) (r, rs) e =
      subst (Effect a 0 0 m) (some-injective _ _ e) (
        Effect-trans (freed-Effect rest m f inside) (serve_next-Effect rest (freed rest m) rs refl))

  finish_cs-Effect :
      (m m' : Mak) → Formed m → m.is_in_cs ≡ true → finish_cs m ≡ some m' → Effect a 0 0 m m'
  finish_cs-Effect m m' f inside e =
      finish_from m m' f inside m.waiting_queue f.requests (sym (finish_cs-freed m) ∙ e)

  pub count_down-Effect : (m m' : Mak) → Formed m → count_down m ≡ some m' → Effect a 0 0 m m'
  unfolding count_down
  count_down-Effect m m' f e = elim (Bool-cases ((m.cs_timer == 0) && m.is_in_cs)) [
    | inl over ↦ finish_cs-Effect m m' f (ground (arith, over)) (rw over at e)
    | inr on ↦
        subst (Effect a 0 0 m) (some-injective _ _ (rw on at e))
          (node-Effect m _ (Sends-nothing a m.node _ refl refl refl refl))
  ]

  pub request_scheduled-Effect :
      (m : Mak)
      → (contains m.time_schedule m.timer ≡ true → m.is_locked ≡ false)
      → Effect a 0 0 m (request_scheduled m)
  unfolding request_scheduled
  request_scheduled-Effect m free = elim (Bool-cases (contains m.time_schedule m.timer)) [
    | inl due ↦ rw due (
        Effect-trans
          (node-Effect m (record (m.node) { num_req = m.num_req + 1 })
            (Sends-nothing a m.node _ refl refl refl refl))
          (send_request-Effect _ (free due)))
    | inr idle ↦ rw idle (node-Effect m m.node (Sends-nothing a m.node m.node refl refl refl refl))
  ]

  pub tick-Effect : (m m' : Mak) → Formed m → IsFreeWhenDue m → tick m ≡ some m' → Effect a 0 0 m m'
  unfolding tick
  tick-Effect m m' f free e =
      let started = record m { node = record (m.node) { timer = m.timer + 1 } } in
      let (m'', counted, left) =
        >>=-eq-some (count_down started) (λ n. some (request_scheduled n)) e in
      subst (Effect a 0 0 m) (some-injective _ _ left) (
        Effect-trans (node-Effect m _ (Sends-nothing a m.node _ refl refl refl refl)) (
          Effect-trans (count_down-Effect started m'' (node-Formed m _ refl refl f) counted)
            (request_scheduled-Effect m'' (free m'' counted))))
