-- ===== src/Maekawa/Overtaking.antt =====
-- A node that is in its critical section does not defend its own lock.
use aosproject.Prelude.{◌≡◌, refl, true, some, List, [], ◌∷◌, ◌++◌, All, ==ℤ_iff, ==ℤ_refl}
use aosproject.OrderedSet.{insert}
use aosproject.Node.MessageType.{MessageType}
use aosproject.Node.State.{network_send, send}
use aosproject.Maekawa.Message.{Message, precedes}
use aosproject.Maekawa.State.{Mak, signal, send_locked}
use aosproject.Maekawa.Handlers.{request_locked, front, receive_request, finish_cs}
use aosproject.Maekawa.Sends.{signal_packet}
use aosproject.Maekawa.Release.{finish_cs_releases}

insert_before :
    (x : Message) (xs : List Message)
    → All (λ y. precedes x y ≡ true) xs
    → insert precedes x xs ≡ x ∷ xs
unfolding insert
insert_before x [] h = refl
insert_before x (y ∷ ys) h = rw h.0 refl

-- The node after it has answered LOCK to a request that comes before its own.
overtaken : Message → Mak → Mak
unfolding send_locked
overtaken msg m = record m {
  node = send_locked msg.from m.node;
  locked_for = (msg.seq, msg.from);
  waiting_queue = msg ∷ m.waiting_queue;
}

overtaken_lem :
    (msg : Message) (m : Mak)
    → m.is_locked ≡ true
    → m.locked_for.1 ≡ m.node_id
    → All (λ y. precedes msg y ≡ true) m.waiting_queue
    → receive_request msg m ≡ some (overtaken msg m)
unfolding receive_request request_locked front overtaken
overtaken_lem msg m locked own h =
    rw
      (
        insert_before msg m.waiting_queue h,
        locked,
        ==ℤ_refl msg.from,
        ==ℤ_refl msg.seq,
        (==ℤ_iff m.locked_for.1 m.node_id).1 own,
      )
      refl

-- A node that is in its critical section, locked for itself, answers LOCK to a request that
-- precedes all in its queue, and stays in its critical section. When it leaves, it drops that
-- request from its queue, which then holds what it held before: its own, finished request is still
-- there.
pub lock_lost_in_cs :
    (msg : Message) (m : Mak)
    → m.is_in_cs ≡ true
    → m.is_locked ≡ true
    → m.locked_for.1 ≡ m.node_id
    → All (λ y. precedes msg y ≡ true) m.waiting_queue
    → (m' m'' : Mak) × (receive_request msg m ≡ some m')
      × (m'.sent ≡ m.sent ++ signal_packet MessageType.lock msg.from m.node ∷ [])
      × (m'.is_in_cs ≡ true)
      × (finish_cs m' ≡ some m'')
      × (m''.waiting_queue ≡ m.waiting_queue)
unfolding overtaken send_locked signal send network_send
lock_lost_in_cs msg m inside locked own h =
    let (m'', left, _, (_, queue, _, _, _)) =
      finish_cs_releases (overtaken msg m) msg m.waiting_queue refl in
    (overtaken msg m, m'', overtaken_lem msg m locked own h, refl, inside, left, queue)
