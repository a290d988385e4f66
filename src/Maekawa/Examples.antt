-- ===== src/Maekawa/Examples.antt =====
-- Node 1 of the quorum {1, 2, 3}: runs of the Maekawa node, and its theorems at them.
use aosproject.Prelude.{
  subst, arith, ◌+◌, ◌≡◌, refl, ◌≢◌, ◌⊎◌, inl, inr, true, false, some, List, [], ◌∷◌, ◌++◌, In, ℤ,
  pos, ◌==ℤ◌, ltb_ℤ,
}
use aosproject.OrderedSet.{insert}
use aosproject.Node.MessageType.{MessageType, is_fail}
use aosproject.Node.State.{receive, Node}
use aosproject.Maekawa.Message.{Message, precedes, message_string, string_message}
use aosproject.Maekawa.State.{Mak, new, put, has_fail, relinquish_all}
use aosproject.Maekawa.Handlers.{
  send_request, receive_request, access_cs, receive_locked, receive_failed, finish_cs,
}
use aosproject.Maekawa.Loop.{arrive, Reach, round, here, next}
use aosproject.Schedule.Write.{write_config}
use aosproject.Maekawa.Contention.{config, written, both-IsBooted, asked, asked-tick}
use aosproject.Maekawa.Message.Codec.{string_message-message_string}
use aosproject.Maekawa.Sends.{signal_packet, control_packet, release_packets}
use aosproject.Maekawa.Invariant.{Inv, Reach-Inv}
use aosproject.Maekawa.Invariant.Responses.{response}
use aosproject.Maekawa.Grants.{Answered, receive_request-Answered}
use aosproject.Maekawa.CriticalSection.{receive_locked_needs_quorum}
use aosproject.Maekawa.Release.{next_packets, LockedForFirst, finish_cs_releases}
use aosproject.Maekawa.GiveWay.{receive_failed_gives_way}
use aosproject.Maekawa.Clock.{Step_in_cs}
use aosproject.Maekawa.Overtaking.{lock_lost_in_cs}

abbrev quorum : List ℤ
quorum = pos 1 ∷ pos 2 ∷ pos 3 ∷ []

abbrev node_one : Node
node_one = record {
  node_id = pos 1;
  cs_time = 5;
  quorum_set = quorum;
  time_schedule = [];
  timer = 7;
  cs_timer = 0;
  num_req = 0;
  start_signaled = true;
  disconnect_signaled = false;
  done = false;
  message_queue = [];
  sent = [];
}

abbrev request_of : ℤ → ℤ → Message
request_of from seq = record { kind = MessageType.request; from = from; seq = seq }

abbrev from_node : ℤ → MessageType → Message
from_node from kind = record { kind = kind; from = from; seq = pos 0 }

-- Node 1 has asked its quorum for request 4, and node 2 has answered.
abbrev asking : Mak
asking = record {
  node = node_one;
  seq = pos 5;
  is_locked = true;
  is_in_cs = false;
  locked_for = (pos 4, pos 1);
  response_map = (pos 2, MessageType.lock) ∷ [];
  waiting_queue = request_of (pos 1) (pos 4) ∷ [];
  inquiry_list = from_node (pos 3) MessageType.inquire ∷ [];
}

abbrev inside : Mak
inside = record asking {
  node = record node_one { cs_timer = 5 };
  is_in_cs = true;
  response_map = (pos 2, MessageType.lock) ∷ (pos 3, MessageType.lock) ∷ [];
  inquiry_list = [];
}

asking-Inv : Inv asking
asking-Inv = record {
  sorted = (tt, tt);
  inquiries = (tt, tt);
  responses = (tt, tt);
  locked = λ e. inl (refl, refl);
  free = λ e. cc;
}

-- A node that has read no quorum never enters, whoever answers.
no_quorum_no_entry :
    (receive_locked
      (from_node (pos 3) MessageType.lock)
      (receive_locked (from_node (pos 2) MessageType.lock) (send_request (new (pos 1))))).is_in_cs
    ≡ false
unfolding receive_locked send_request new ◌==ℤ◌ ltb_ℤ
no_quorum_no_entry = refl

second_answer_enters : (receive_locked (from_node (pos 3) MessageType.lock) asking).is_in_cs ≡ true
unfolding receive_locked has_fail is_fail put access_cs ◌==ℤ◌ ltb_ℤ
second_answer_enters = refl

fail_keeps_out :
    (receive_locked
      (from_node (pos 3) MessageType.lock)
      (receive_failed (from_node (pos 2) MessageType.fail) asking)).is_in_cs
    ≡ false
unfolding receive_locked receive_failed has_fail is_fail put access_cs relinquish_all ◌==ℤ◌ ltb_ℤ
fail_keeps_out = refl

string_message-message_string_example :
    string_message (pos 77) (message_string (request_of (pos 12) (pos 305)))
    ≡ request_of (pos 12) (pos 305)
string_message-message_string_example =
    string_message-message_string (pos 77) (request_of (pos 12) (pos 305)) tt

-- The node has read its files, and has made its first round, in which it has requested.
Reach-Inv_example : Inv asked
unfolding aosproject.Node.State.get_message new aosproject.Node.State.new
Reach-Inv_example = Reach-Inv (write_config config written) (pos 1) (
    subst (λ m. Reach m asked) (both-IsBooted.1 0 (omega arith))
      (next here (round refl (omega arith) asked-tick)))

receive_request-Answered_example :
    (m' : Mak) × (receive_request (request_of (pos 2) (pos 6)) asking ≡ some m')
    × (m'.waiting_queue ≡ insert precedes (request_of (pos 2) (pos 6)) asking.waiting_queue)
    × Answered (request_of (pos 2) (pos 6)) asking m'
receive_request-Answered_example =
    receive_request-Answered (request_of (pos 2) (pos 6)) asking asking-Inv

receive_locked_needs_quorum_example :
    (v : MessageType) × (response
        (pos 2)
        (receive_locked (from_node (pos 3) MessageType.lock) asking).response_map
      ≡ some v)
    × (is_fail v ≡ false)
receive_locked_needs_quorum_example =
    receive_locked_needs_quorum (from_node (pos 3) MessageType.lock) asking asking-Inv (inl refl)
      (inr (inr (inl refl))) (λ e. cc) within others_only refl second_answer_enters (pos 2)
      (inr (inl refl)) (λ e. cc)
  where
    within : (a : ℤ) → In a (pos 2 ∷ []) → In a quorum
    within a (inl e) = inr (inl e)
    within a (inr h) = elim h [ ]

    others_only : (q : ℤ) → In q (pos 2 ∷ []) → pos 1 ≢ q
    others_only q (inl e) = λ s. cc
    others_only q (inr h) = elim h [ ]

finish_cs_releases_example :
    (m' : Mak) × (finish_cs inside ≡ some m')
    × (m'.sent
        ≡ control_packet (b'2' ∷ []) inside.node
          ∷ (release_packets inside.node (pos 2 ∷ pos 3 ∷ []) ++ next_packets [] inside))
    × ((m'.is_in_cs ≡ false)
        × (m'.waiting_queue ≡ [])
        × (m'.response_map ≡ [])
        × (m'.inquiry_list ≡ [])
        × LockedForFirst [] m')
unfolding ◌==ℤ◌
finish_cs_releases_example = finish_cs_releases inside (request_of (pos 1) (pos 4)) [] refl

receive_failed_gives_way_example :
    (receive_failed (from_node (pos 2) MessageType.fail) asking).inquiry_list ≡ []
receive_failed_gives_way_example =
    (receive_failed_gives_way (from_node (pos 2) MessageType.fail)
      (from_node (pos 3) MessageType.inquire) asking refl refl).1

Step_in_cs_example :
    ((inside.is_in_cs ≡ true) × (7 + 5 ≡ inside.timer + inside.cs_timer))
    ⊎ ((inside.is_in_cs ≡ false) × (inside.cs_timer ≡ 0) × (7 ≡ inside.timer + 1))
unfolding receive
Step_in_cs_example = Step_in_cs {m = inside} (arrive []) refl

lock_lost_in_cs_example :
    let msg = request_of (pos 3) (pos 2) in
    (m' m'' : Mak) × (receive_request msg inside ≡ some m')
    × (m'.sent ≡ signal_packet MessageType.lock (pos 3) inside.node ∷ [])
    × (m'.is_in_cs ≡ true)
    × (finish_cs m' ≡ some m'')
    × (m''.waiting_queue ≡ inside.waiting_queue)
lock_lost_in_cs_example =
    lock_lost_in_cs (request_of (pos 3) (pos 2)) inside refl refl refl
      (unfold precedes ltb_ℤ in (refl, tt))
