-- ===== src/Maekawa/Handlers.antt =====
-- The message handlers of `MAKNode`. `none` is the undefined behaviour of `*begin()` or
-- `erase(begin())` on an empty queue.
use aosproject.Prelude.{
  ◌+◌, true, false, ◌&&◌, Option, none, some, List, [], ◌∷◌, ◌==◌, if◌then◌else◌, ◌>>=◌, length, ℤ,
  ◌==ℤ◌, suc_ℤ,
}
use aosproject.Text.{Bytes}
use aosproject.OrderedSet.{insert}
use aosproject.Node.MessageType.{MessageType}
use aosproject.Node.State.{send_access_cs_msg, send_finish_cs_msg}
use aosproject.Maekawa.Message.{Message, precedes, string_message}
use aosproject.Maekawa.State.{
  Mak, nobody, put, has_fail, send_locked, send_failed, send_inquiry, send_relinquish,
  request_quorum, release_quorum, relinquish_all,
}

-- `*waiting_queue.begin()`.
unfoldable pub front : List Message → Option Message
front [] = none
front (m ∷ ms) = some m

-- `waiting_queue.erase(waiting_queue.begin())`.
unfoldable pub erase_front : List Message → Option (List Message)
erase_front [] = none
erase_front (m ∷ ms) = some ms

-- The loop of `receive_release`: the first request of that node is erased.
unfoldable pub erase_from : ℤ → List Message → List Message
erase_from id [] = []
erase_from id (m ∷ ms) = if m.from ==ℤ id then ms else m ∷ erase_from id ms

unfoldable pub send_request : Mak → Mak
unfolding request_quorum
send_request m = record m {
  node = request_quorum msg m.quorum_set m.node;
  seq = suc_ℤ m.seq;
  is_locked = true;
  locked_for = (msg.seq, msg.from);
  waiting_queue = insert precedes msg m.waiting_queue;
}
  where
    msg : Message
    msg = record { kind = MessageType.request; from = m.node_id; seq = m.seq }

-- `receive_request` on a locked node, with the new request in the queue.
unfoldable pub request_locked : Message → Message → Mak → Mak
unfolding send_inquiry send_locked send_failed
request_locked first msg m =
    if (first.from ==ℤ msg.from) && (first.seq ==ℤ msg.seq)
    then (if m.locked_for.1 ==ℤ m.node_id
        then record m { node = send_locked msg.from m.node; locked_for = (msg.seq, msg.from) }
        else record m { node = send_inquiry m.locked_for.1 m.node })
    else record m { node = send_failed msg.from m.node }

unfoldable pub request_free : Message → Mak → Mak
unfolding send_locked
request_free msg m = record m {
  node = send_locked msg.from m.node;
  is_locked = true;
  locked_for = (msg.seq, msg.from);
}

unfoldable pub receive_request : Message → Mak → Option Mak
unfolding request_locked request_free front
receive_request msg m0 =
    let m = record m0 { waiting_queue = insert precedes msg m0.waiting_queue } in
    if m0.is_locked
    then (do first ← front m.waiting_queue; some (request_locked first msg m))
    else some (request_free msg m)

unfoldable pub access_cs : Mak → Mak
unfolding send_access_cs_msg
access_cs m = if m.is_in_cs then m else record m {
  node = send_access_cs_msg (record (m.node) { cs_timer = m.cs_time });
  is_in_cs = true;
}

unfoldable pub receive_locked : Message → Mak → Mak
unfolding put has_fail access_cs
receive_locked msg m0 =
    let m = record m0 { response_map = put msg.from msg.kind m0.response_map } in
    if length m.response_map + 1 == length m.quorum_set
    then (if has_fail m.response_map then m else access_cs m)
    else m

unfoldable pub receive_inquiry : Message → Mak → Mak
unfolding has_fail send_relinquish
receive_inquiry msg m =
    if m.is_in_cs
    then m
    else if has_fail m.response_map
    then record m { node = send_relinquish msg.from m.node }
    else record m { inquiry_list = insert precedes msg m.inquiry_list }

unfoldable pub receive_failed : Message → Mak → Mak
unfolding put relinquish_all
receive_failed msg m = record m {
  node = relinquish_all m.inquiry_list m.node;
  response_map = put msg.from msg.kind m.response_map;
  inquiry_list = [];
}

unfoldable pub receive_relinquish : Message → Mak → Option Mak
unfolding front send_locked
receive_relinquish msg m = do
  first ← front m.waiting_queue
  some (record m {
    node = send_locked first.from m.node;
    is_locked = true;
    locked_for = (first.seq, first.from);
  })

unfoldable pub release_next : List Message → Mak → Mak
unfolding send_locked
release_next [] m = record m { is_locked = false; locked_for = nobody }
release_next (next ∷ rest) m = record m {
  node = (if next.from ==ℤ m.node_id then m.node else send_locked next.from m.node);
  locked_for = (next.seq, next.from);
}

unfoldable pub receive_release : Message → Mak → Mak
unfolding erase_from release_next
receive_release msg m =
    let queue = erase_from msg.from m.waiting_queue in
    release_next queue (record m { waiting_queue = queue })

-- The part of `finishCS` behind the releases: the next request in the queue, if there is one.
unfoldable pub serve_next : List Message → Mak → Mak
unfolding request_quorum send_locked
serve_next [] m = m
serve_next (next ∷ rest) m = record m {
  node =
      (if next.from ==ℤ m.node_id
        then request_quorum next m.quorum_set m.node
        else send_locked next.from m.node);
  is_locked = true;
  locked_for = (next.seq, next.from);
}

unfoldable pub finish_cs : Mak → Option Mak
unfolding erase_front release_quorum send_finish_cs_msg serve_next
finish_cs m = do
  queue ← erase_front m.waiting_queue
  some (
      serve_next queue (record m {
        node = release_quorum m.quorum_set (send_finish_cs_msg m.node);
        is_locked = false;
        is_in_cs = false;
        locked_for = nobody;
        response_map = [];
        waiting_queue = queue;
        inquiry_list = [];
      }))

unfoldable pub dispatch : MessageType → Message → Mak → Option Mak
dispatch MessageType.request msg m = receive_request msg m
dispatch MessageType.release msg m = some (receive_release msg m)
dispatch MessageType.lock msg m = some (receive_locked msg m)
dispatch MessageType.fail msg m = some (receive_failed msg m)
dispatch MessageType.inquire msg m = some (receive_inquiry msg m)
dispatch MessageType.relinquish msg m = receive_relinquish msg m
dispatch _ msg m = some m

-- `raw` as in `string_message`.
unfoldable pub receive_message : ℤ → Bytes → Mak → Option Mak
unfolding string_message dispatch
receive_message raw text m = let msg = string_message raw text in dispatch msg.kind msg m
