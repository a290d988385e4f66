-- ===== src/Lak/Loop.antt =====
-- `LAKNode::run`: one round of its loop, and the node between its own thread and the network's.
use aosproject.Prelude.{ℕ, ◌+◌, ◌-◌, ◌<◌, ◌≡◌, ◌&&◌, none, some, ◌==◌, if◌then◌else◌}
use aosproject.Text.{Bytes}
use aosproject.Node.State.{contains, receive, get_message, Node, send_request_cs_msg}
use aosproject.Lak.Message.{Entry}
use aosproject.Lak.State.{Lak}
use aosproject.Lak.Handlers.{send_request, finish_cs, receive_message}

unfoldable pub count_down : Lak → Lak
count_down m =
    if (m.cs_timer == 0) && m.is_in_cs
    then finish_cs m
    else record m { node = record (m.node) { cs_timer = m.cs_timer - 1 } }

unfoldable pub request_scheduled : Lak → Lak
request_scheduled m =
    if contains m.time_schedule m.timer
    then send_request
        (record m { node = send_request_cs_msg (record (m.node) { num_req = m.num_req + 1 }) })
    else m

-- What a round does once the message queue is empty. `CS_timer` is decremented if it is positive.
unfoldable pub tick : Lak → Lak
tick m =
    request_scheduled (count_down (record m { node = record (m.node) { timer = m.timer + 1 } }))

abbrev pub end_of_run : ℕ
end_of_run = 60000

-- The network thread may put a message in the queue at any time; the node's thread empties the
-- queue, makes a round, and stops when the timer has run out.
pub data Step (m : Lak) : Lak → Type 0 where
  arrive : (text : Bytes) → Step m (record m { node = receive text m.node })
  handle :
      (fuel : ℕ) (raw : Entry) (text : Bytes) (n : Node) {m' : Lak}
      → get_message m.node ≡ some (text, n)
      → receive_message fuel raw text (record m { node = n }) ≡ some m'
      → Step m m'
  round : get_message m.node ≡ none → m.timer < end_of_run → Step m (tick m)
