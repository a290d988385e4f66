-- ===== src/Socket/Examples.antt =====
-- A message over a link, and a write that fails.
use aosproject.Prelude.{
  ◌++◌, ◌≡◌, refl, none, some, List, [], ◌∷◌, arith, replicate, pos, minus_one, ◌==ℤ◌,
}
use aosproject.Text.{Bytes}
use aosproject.Socket.{
  Socket, Call, accepted, create_threads, register_event_listener, send, send_round, send_front,
  send_first, receive_round, is_failure, notify, on_receive,
}
use aosproject.Socket.Link.{
  Link, LinkStep, sending, writing, reading, LinkRun, begin, next, fresh_link,
}
use aosproject.Socket.Fifo.{Fifo, FifoRun, Shows}
use aosproject.Socket.Refinement.{link_refines_fifo}
use aosproject.Socket.Disconnect.{KeepsLock, send_round_hangs}

abbrev message : Bytes
message = replicate 1024 7

abbrev sender : List Bytes → Socket
sender ms = record (accepted (pos 3)) { messages = ms }

abbrev receiver : List Call → Socket
receiver calls = record (register_event_listener (accepted (pos 4))).1 { calls = calls }

abbrev sent_link : Link
sent_link = record fresh_link { here = sender (message ∷ []) }

abbrev written_link : Link
written_link = record {
  here = sender [];
  wire = message;
  there = (register_event_listener (accepted (pos 4))).1;
}

abbrev read_link : Link
read_link = record { here = sender []; wire = []; there = receiver (on_receive message ∷ []) }

first_step : LinkStep fresh_link sent_link
unfolding send accepted create_threads
first_step = sending message (sender (message ∷ [])) refl

second_step : LinkStep sent_link written_link
unfolding send_round send_front send_first is_failure accepted create_threads ◌==ℤ◌
second_step = writing (pos 1024) (sender []) message refl refl refl

third_step : LinkStep written_link read_link
unfolding receive_round notify is_failure accepted create_threads register_event_listener ◌==ℤ◌
third_step = reading 1024 (receiver (on_receive message ∷ [])) refl (omega arith) (omega arith) refl

run : LinkRun fresh_link read_link
run = next (next (next begin first_step) second_step) third_step

link_refines_fifo_example :
    (q : Fifo) × FifoRun (record { waiting = []; handed = [] }) q
    × Shows read_link q
    × (q.handed ++ q.waiting ≡ message ∷ [])
unfolding run first_step second_step third_step
link_refines_fifo_example = link_refines_fifo run (((tt, tt), refl), refl)

stays_locked : KeepsLock (λ s. some s)
stays_locked s s' l e = ground (arith, l, e)

send_round_hangs_example : send_round (λ s. some s) minus_one (sender (message ∷ [])) ≡ none
unfolding accepted create_threads is_failure ◌==ℤ◌
send_round_hangs_example =
    send_round_hangs (λ s. some s) minus_one message [] (sender (message ∷ [])) stays_locked refl
      (λ e. ground (arith, e)) refl
