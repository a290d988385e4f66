-- ===== src/Maekawa/Invariant.antt =====
-- What holds of a node between two steps: the lock and the queue agree.
mod Queue
pub mod Responses
use aosproject.Prelude.{
  ℕ, zero, suc, ◌+◌, ◌-◌, ◌*◌, ◌/◌, ◌%◌, ◌^◌, ◌≤◌, ◌<◌, ◌≡◌, refl, sym, ap, ◌∙◌, subst, ◌≢◌, ◌↔◌,
  ◌⊎◌, inl, inr, Bool, true, false, ◌&&◌, ◌||◌, not, Option, none, some, List, [], ◌∷◌, ◌++◌, map,
  append-nil, append_assoc, arith, ltb, leb, ◌==◌, if◌then◌else◌, ==_iff, Bool-cases, Option-cases,
  ◌>>=◌, >>=-eq-some, length, get_elem?, set, take, drop, replicate, In, All, length-append,
  length-replicate, In-append_left, In-append_right, In-append_cases, All-append, ℤ, pos, negsuc,
  minus_one, ◌==ℤ◌, ltb_ℤ, suc_ℤ, pred_ℤ, to_unsigned, ==ℤ_iff, ==ℤ_refl, ltb_ℤ_irrefl, ltb_ℤ_trans,
  ltb_ℤ_connex,
}
use aosproject.Text.{
  Bytes, space, show_int, atoi, first_field, rest_field, NoSpace, show_int-NoSpace, atoi-show_int,
  atoi-show_int-space, first_field-append, rest_field-append, first_field_last, rest_field_last,
}
use aosproject.OrderedSet.{
  insert, IsSorted, Same, insert-All, In-insert_old, In-insert_cases, insert-ne-nil,
  insert-IsSorted, insert_holds,
}
use aosproject.Node.MessageType.{
  MessageType, to_number, of_number, IsEnumerator, of_number-to_number, is_fail,
}
use aosproject.Node.State.{
  new as new_node, contains, receive, get_message, Node, Packet, send, send_access_cs_msg,
  send_finish_cs_msg, send_request_cs_msg,
}
use aosproject.Maekawa.Message.{
  Message, precedes, message_string, string_message, precedes_irrefl, precedes_trans, Same-fields,
}
use aosproject.Maekawa.State.{
  Mak, nobody, new, put, has_fail, send_locked, send_failed, send_inquiry, send_relinquish,
  send_release, request_quorum, release_quorum, relinquish_all,
}
use aosproject.Maekawa.Handlers.{
  front, erase_front, erase_from, send_request, receive_request, access_cs, receive_locked,
  receive_inquiry, receive_failed, receive_relinquish, receive_release, finish_cs, dispatch,
  receive_message,
}
use mathlib.Core.Option.{some-injective}
use aosproject.Maekawa.Loop.{
  count_down, request_scheduled, tick, end_of_run, Step, arrive, handle, round, Reach, here, next,
}
use aosproject.Node.Config.{Files, init}
use Responses.{keys, put-IsSorted}
use Queue.{Names, Names-insert_old, Names-insert, IsSorted-insert, IsSorted-erase_from}

pub record Inv (m : Mak) : Type 0 where
  -- The two sets are strictly ascending.
  pub sorted : IsSorted precedes m.waiting_queue
  pub inquiries : IsSorted precedes m.inquiry_list
  -- The keys of the responses are strictly ascending.
  pub responses : IsSorted ltb_ℤ (keys m.response_map)
  -- A locked node is locked for a request in its queue.
  pub locked : m.is_locked ≡ true → Names m.locked_for m.waiting_queue
  -- A free node has no request waiting.
  pub free : m.is_locked ≡ false → (m.waiting_queue ≡ []) × (m.locked_for ≡ nobody)

pub new-Inv : (id : ℤ) → Inv (new id)
unfolding new
new-Inv id = ground arith

send_request-Inv : (m : Mak) → Inv m → Inv (send_request m)
unfolding send_request
send_request-Inv m v = record {
  sorted = IsSorted-insert _ m.waiting_queue v.sorted;
  inquiries = v.inquiries;
  responses = v.responses;
  locked = λ _. Names-insert _ m.waiting_queue;
  free = λ e. cc;
}

receive_request-Inv :
    (msg : Message) (m m' : Mak) → Inv m → receive_request msg m ≡ some m' → Inv m'
unfolding receive_request
receive_request-Inv msg m m' v e = ground (
  arith,
  IsSorted-insert msg m.waiting_queue,
  Names-insert msg m.waiting_queue,
  Names-insert_old m.locked_for msg m.waiting_queue,
)

receive_locked-Inv : (msg : Message) (m : Mak) → Inv m → Inv (receive_locked msg m)
unfolding receive_locked
receive_locked-Inv msg m v = ground (arith, put-IsSorted msg.from msg.kind m.response_map)

receive_inquiry-Inv : (msg : Message) (m : Mak) → Inv m → Inv (receive_inquiry msg m)
unfolding receive_inquiry
receive_inquiry-Inv msg m v = ground (arith, IsSorted-insert msg m.inquiry_list)

receive_failed-Inv : (msg : Message) (m : Mak) → Inv m → Inv (receive_failed msg m)
unfolding receive_failed
receive_failed-Inv msg m v = ground (arith, put-IsSorted msg.from msg.kind m.response_map)

receive_relinquish-Inv :
    (msg : Message) (m m' : Mak) → Inv m → receive_relinquish msg m ≡ some m' → Inv m'
unfolding receive_relinquish
receive_relinquish-Inv msg m m' v e = ground arith

receive_release-Inv : (msg : Message) (m : Mak) → Inv m → Inv (receive_release msg m)
unfolding receive_release
receive_release-Inv msg m v = ground (arith, IsSorted-erase_from msg.from m.waiting_queue)

finish_cs-Inv : (m m' : Mak) → Inv m → finish_cs m ≡ some m' → Inv m'
unfolding finish_cs
finish_cs-Inv m m' v e = ground arith

-- The network and the timers are no part of it.
pub node-Inv : (m : Mak) (n : Node) → Inv m → Inv (record m { node = n })
node-Inv m n v = record {
  sorted = v.sorted;
  inquiries = v.inquiries;
  responses = v.responses;
  locked = v.locked;
  free = v.free;
}

done-Inv : {m m' : Mak} → Inv m → some m ≡ some m' → Inv m'
done-Inv v e = subst Inv (some-injective _ _ e) v

pub dispatch-Inv :
    (k : MessageType) (msg : Message) (m m' : Mak) → Inv m → dispatch k msg m ≡ some m' → Inv m'
unfolding dispatch
dispatch-Inv MessageType.request msg m m' v e = receive_request-Inv msg m m' v e
dispatch-Inv MessageType.release msg m m' v e = done-Inv (receive_release-Inv msg m v) e
dispatch-Inv MessageType.lock msg m m' v e = done-Inv (receive_locked-Inv msg m v) e
dispatch-Inv MessageType.fail msg m m' v e = done-Inv (receive_failed-Inv msg m v) e
dispatch-Inv MessageType.inquire msg m m' v e = done-Inv (receive_inquiry-Inv msg m v) e
dispatch-Inv MessageType.relinquish msg m m' v e = receive_relinquish-Inv msg m m' v e
dispatch-Inv _ msg m m' v e = done-Inv v e

pub count_down-Inv : (m m' : Mak) → Inv m → count_down m ≡ some m' → Inv m'
unfolding count_down
count_down-Inv m m' v e = elim (Bool-cases ((m.cs_timer == 0) && m.is_in_cs)) [
  | inl over ↦ finish_cs-Inv m m' v (rw over at e)
  | inr on ↦ done-Inv (node-Inv m (record (m.node) { cs_timer = m.cs_timer - 1 }) v) (rw on at e)
]

pub request_scheduled-Inv : (m : Mak) → Inv m → Inv (request_scheduled m)
unfolding request_scheduled
request_scheduled-Inv m v = elim (Bool-cases (contains m.time_schedule m.timer)) [
  | inl due ↦
      rw due (send_request-Inv _ (node-Inv m (record (m.node) { num_req = m.num_req + 1 }) v))
  | inr idle ↦ rw idle v
]

pub tick-Inv : (m m' : Mak) → Inv m → tick m ≡ some m' → Inv m'
unfolding tick
tick-Inv m m' v e =
    let started = record m { node = record (m.node) { timer = m.timer + 1 } } in
    let (m'', counted, left) =
      >>=-eq-some (count_down started) (λ n. some (request_scheduled n)) e in
    done-Inv (request_scheduled-Inv m'' (count_down-Inv started m'' (node-Inv m _ v) counted)) left

pub Step-Inv : {m m' : Mak} → Step m m' → Inv m → Inv m'
unfolding receive_message
Step-Inv {m} (arrive text) v = node-Inv m (receive text m.node) v
Step-Inv {m} (handle raw text n {m' = m'} got done) v =
    dispatch-Inv (string_message raw text).kind (string_message raw text) (record m { node = n }) m'
      (node-Inv m n v) done
Step-Inv {m} (round {m' = m'} quiet on done) v = tick-Inv m m' v done

-- In every state that a node reaches from the one that `init` leaves, whatever its files hold,
-- whatever messages arrive and however they interleave with its rounds, in which it requests and
-- leaves its critical section: both sets and the keys of the map of responses are strictly
-- ascending, a locked node is locked for a request that is in its queue, and a free node has an
-- empty queue and is locked for nobody.
pub Reach-Inv :
    (files : Files) (id : ℤ) {m : Mak}
    → Reach (record (new id) { node = init files (new id).node }) m
    → Inv m
Reach-Inv files id here = node-Inv (new id) (init files (new id).node) (new-Inv id)
Reach-Inv files id (next r st) = Step-Inv st (Reach-Inv files id r)
