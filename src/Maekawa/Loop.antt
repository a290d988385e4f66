-- ===== src/Maekawa/Loop.antt =====
-- `MAKNode::run`: one round of its loop, and the node between its own thread and the network's.
use aosproject.Prelude.{
  ℕ, ◌+◌, ◌-◌, ◌<◌, ◌≡◌, ◌&&◌, Option, none, some, ◌==◌, if◌then◌else◌, ◌>>=◌, ℤ,
}
use aosproject.Text.{Bytes}
use aosproject.Node.State.{contains, receive, get_message, Node}
use aosproject.Maekawa.State.{Mak}
use aosproject.Maekawa.Handlers.{send_request, finish_cs, receive_message}

-- The critical section, in the middle of a round.
unfoldable pub count_down : Mak → Option Mak
count_down m =
    if (m.cs_timer == 0) && m.is_in_cs
    then finish_cs m
    else some (record m { node = record (m.node) { cs_timer = m.cs_timer - 1 } })

unfoldable pub request_scheduled : Mak → Mak
request_scheduled m =
    if contains m.time_schedule m.timer
    then send_request (record m { node = record (m.node) { num_req = m.num_req + 1 } })
    else m

-- What a round does once the message queue is empty. `CS_timer` is decremented if it is positive.
unfoldable pub tick : Mak → Option Mak
tick m = do
  m' ← count_down (record m { node = record (m.node) { timer = m.timer + 1 } })
  some (request_scheduled m')

abbrev pub end_of_run : ℕ
end_of_run = 60000

-- The network thread may put a message in the queue at any time; the node's thread empties the
-- queue, makes a round, and stops when the timer has run out.
pub data Step (m : Mak) : Mak → Type 0 where
  arrive : (text : Bytes) → Step m (record m { node = receive text m.node })
  handle :
      (raw : ℤ) (text : Bytes) (n : Node) {m' : Mak}
      → get_message m.node ≡ some (text, n)
      → receive_message raw text (record m { node = n }) ≡ some m'
      → Step m m'
  round :
      {m' : Mak} → get_message m.node ≡ none → m.timer < end_of_run → tick m ≡ some m' → Step m m'

pub data Reach (s : Mak) : Mak → Type 0 where
  here : Reach s s
  next : {t u : Mak} → Reach s t → Step t u → Reach s u
