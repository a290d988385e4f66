-- ===== src/Maekawa/Contention.antt =====
-- A run of two Maekawa nodes, in which the first gets the lock of the second and enters.
use aosproject.Prelude.{
  ℕ, zero, suc, ◌<◌, ◌≡◌, refl, sym, ap, inl, inr, true, false, Option, none, some, List, [], ◌∷◌,
  arith, ℤ, pos, ◌==ℤ◌, ltb_ℤ, suc_ℤ, to_unsigned,
}
use aosproject.Maekawa.Message.{Message, message_string, string_message}
use aosproject.Maekawa.State.{Mak, nobody, new}
use aosproject.Maekawa.Handlers.{send_request, receive_request, receive_locked, receive_message}
use aosproject.Maekawa.Loop.{count_down, request_scheduled, tick}
use mathlib.Core.Option.{some-injective}
use aosproject.OrderedSet.{insert}
use aosproject.Node.MessageType.{MessageType, is_fail}
use aosproject.Node.State.{contains, receive, get_message, Packet}
use aosproject.Maekawa.System.{
  System, moved, delivered, deliver, handle, round, Reach, start, later, RunIsOrderly,
  IsFreeWhenDue,
}
use aosproject.Text.{Bytes}
use aosproject.Family.{update}
use aosproject.Maekawa.System.{booted, IsBooted}
use aosproject.Maekawa.MutualExclusion.{maekawa_excludes}
use aosproject.Node.State.{new as new_node}
use aosproject.Node.Config
use aosproject.Node.Config.{
  Files, parse_quorum, parse_schedule, read_schedule, insert_quorum, insert_times, lines, add_byte,
  file_name,
}
use aosproject.Quorum.Assignment.{quorum_assignment}
use aosproject.Quorum.Write.{write_quorums, host}
use aosproject.Schedule.Write.{Config, write_config}

-- Each node requests the section in its first round.
abbrev pub config : Config
config = record {
  num_nodes = pos 2;
  reliable = pos 1;
  congested = pos 0;
  alloc_time = 5;
  times = λ x. 1 ∷ [];
}

abbrev no_files : Files
no_files = λ name. []

or_files : Option Files → Files
or_files none = no_files
or_files (some f) = f

pub written : Files
unfolding or_files
written = or_files (write_quorums (quorum_assignment 2) no_files)

two_written : write_quorums (quorum_assignment 2) no_files ≡ some written
unfolding written or_files write_quorums quorum_assignment ◌==ℤ◌
two_written = refl

-- What `init` reads of them: the quorum of both is both.
abbrev ready : ℤ → Mak
ready id = record {
  node = record {
    node_id = id;
    cs_time = 5;
    quorum_set = pos 1 ∷ pos 2 ∷ [];
    time_schedule = 1 ∷ [];
    timer = 0;
    cs_timer = 0;
    num_req = 0;
    start_signaled = false;
    disconnect_signaled = false;
    done = false;
    message_queue = [];
    sent = [];
  };
  seq = pos 1;
  is_locked = false;
  is_in_cs = false;
  locked_for = nobody;
  response_map = [];
  waiting_queue = [];
  inquiry_list = [];
}

abbrev both : System
both = record { nodes = λ j. ready (pos (host (suc j))); flying = [] }

pub both-IsBooted : IsBooted (write_config config written) 2 both
unfolding new new_node Config.init write_config ltb_ℤ aosproject.Text.show_int aosproject.Text.atoi
    written insert write_quorums quorum_assignment ◌==ℤ◌
both-IsBooted = (refl, at)
  where
    at : (j : ℕ) → j < 2 → both.nodes j ≡ booted (write_config config written) (pos (host (suc j)))
    at zero l = refl
    at (suc zero) l = refl
    at (suc (suc j)) l = absurd (omega (arith, l))

abbrev mine : Message
mine = record { kind = MessageType.request; from = pos 1; seq = pos 1 }

abbrev packet : ℕ → ℕ → ℕ → Bytes → Packet
packet from to time text = record { from = from; to = to; timestamp = time; text = text }

abbrev announced : Packet
announced = packet 1 255 1 (b'3' ∷ [])

abbrev first_request : Packet
first_request = packet 1 2 1 (b'0' ∷ b' ' ∷ b'1' ∷ b' ' ∷ b'1' ∷ [])

abbrev grant : Packet
grant = packet 2 1 0 (b'6' ∷ b' ' ∷ b'2' ∷ [])

-- The first node has sent its request.
abbrev pub asked : Mak
asked = record (ready (pos 1)) {
  node = record ((ready (pos 1)).node) {
    timer = 1;
    num_req = 1;
    sent = announced ∷ first_request ∷ [];
  };
  seq = pos 2;
  is_locked = true;
  locked_for = (pos 1, pos 1);
  waiting_queue = mine ∷ [];
}

-- The second node has granted its lock.
abbrev granting : Mak
granting = record (ready (pos 2)) {
  node = record ((ready (pos 2)).node) { sent = grant ∷ [] };
  is_locked = true;
  locked_for = (pos 1, pos 1);
  waiting_queue = mine ∷ [];
}

-- The first node has entered.
abbrev inside : Mak
inside = record asked {
  node = record (asked.node) {
    cs_timer = 5;
    sent = announced ∷ first_request ∷ packet 1 255 1 (b'1' ∷ []) ∷ [];
  };
  is_in_cs = true;
  response_map = (pos 2, MessageType.lock) ∷ [];
}

pub asked-tick : tick (both.nodes 0) ≡ some asked
unfolding tick count_down request_scheduled contains send_request ◌==ℤ◌ suc_ℤ insert message_string
    aosproject.Text.show_int aosproject.Node.MessageType.to_number
asked-tick = refl

granted-first_request : receive_message (pos 0) first_request.text (ready (pos 2)) ≡ some granting
unfolding receive_message aosproject.Node.MessageType.of_number aosproject.Text.atoi
    aosproject.Text.first_field receive_request aosproject.Text.rest_field aosproject.Text.show_int
    insert aosproject.Node.MessageType.to_number
granted-first_request = refl

entered-grant : receive_message (pos 0) grant.text asked ≡ some inside
unfolding receive_message aosproject.Node.MessageType.of_number aosproject.Text.atoi
    aosproject.Text.first_field receive_locked is_fail aosproject.Text.rest_field
entered-grant = refl

abbrev arrived : System → ℕ → Packet → List Packet → System
arrived s j p flying = record {
  nodes = update s.nodes j (delivered p (s.nodes j));
  flying = flying;
}

abbrev s1 : System
s1 = moved both 0 asked

abbrev s2 : System
s2 = arrived s1 1 first_request (announced ∷ [])

abbrev s3 : System
s3 = moved s2 1 granting

abbrev s4 : System
s4 = arrived s3 0 grant (announced ∷ [])

abbrev s5 : System
s5 = moved s4 0 inside

run : Reach 2 both s5
unfolding receive get_message to_unsigned
run =
    later
      (later
        (later
          (later (later start (round 0 (omega arith) refl (omega arith) asked-tick))
            (deliver (announced ∷ []) [] first_request 1 (omega arith) refl refl))
          (handle 1 (pos 0) first_request.text (ready (pos 2)).node (omega arith) refl
            granted-first_request))
        (deliver (announced ∷ []) [] grant 0 (omega arith) refl refl))
      (handle 0 (pos 0) grant.text asked.node (omega arith) refl entered-grant)

free_when_due : IsFreeWhenDue (both.nodes 0)
unfolding count_down
free_when_due = λ m' e due. ap (λ (m : Mak). m.is_locked) (sym (some-injective _ _ e))

run-IsOrderly : RunIsOrderly run
unfolding run string_message aosproject.Node.MessageType.of_number aosproject.Text.atoi
    aosproject.Text.first_field aosproject.Text.rest_field
run-IsOrderly = (
  ((((tt, free_when_due), tt), ((λ e. ground (arith, e)), inl refl)), tt),
  ((λ e. ground (arith, e)), inr (inl refl), refl),
)

-- The first node is inside.
maekawa_excludes_example : ◌≡◌ {A = ℕ} 0 0
unfolding run
maekawa_excludes_example =
    maekawa_excludes 2 config no_files written (omega arith) two_written both-IsBooted run
      run-IsOrderly 0 0 (omega arith) (omega arith) refl refl
