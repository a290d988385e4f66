-- ===== src/Socket/Refinement.antt =====
-- A link as a first-in first-out queue.
use aosproject.Prelude.{
  ◌≤◌, ◌≡◌, refl, sym, ap, ◌∙◌, subst, inl, inr, true, some, List, [], ◌∷◌, ◌++◌, append-nil,
  append_assoc, arith, length, take, drop, All, All-append, pos,
}
use aosproject.Text.{Bytes}
use aosproject.Socket.{
  accepted, create_threads, register_event_listener, Socket, buffer_size, on_receive, send,
  send_round, receive_round,
}
use aosproject.Socket.Link.{
  Link, LinkStep, sending, writing, reading, IsWhole, LinkRun, begin, next, AreWhole, fresh_link,
  put_by, sent_by,
}
use aosproject.Socket.Fifo.{
  Fifo, FifoStep, put, take_first, stay, FifoRun, rest, more, joined_bytes, IsBlock, receipts,
  Shows,
}
use aosproject.Socket.Rounds.{
  take_front, drop_front, joined_bytes-append, receipts-append, send_lem, send_round_lem,
  receive_round_lem,
}

-- The parts of `Shows`, for a far end that has made `calls`.
shown :
    {l : Link} {q : Fifo} (bs : List Bytes)
    → l.wire ≡ joined_bytes bs
    → All IsBlock bs
    → All IsBlock l.here.messages
    → q.waiting ≡ bs ++ l.here.messages
    → l.there.calls ≡ receipts q.handed
    → l.there.has_listener ≡ true
    → Shows l q
shown bs w b m q h t = record {
  on_wire = bs;
  wire_is = w;
  blocks = b;
  queued = m;
  waiting_is = q;
  handed_is = h;
  listens = t;
}

-- A step of the link is one of the queue, which puts what the step sends behind all that was put.
abbrev Follows : Link → Fifo → List Bytes → Type 0
Follows l q puts =
    (q' : Fifo) × FifoStep q q'
    × Shows l q'
    × (q'.handed ++ q'.waiting ≡ (q.handed ++ q.waiting) ++ puts)

sending-Follows :
    {l : Link} {q : Fifo}
    → Shows l q
    → (memory : Bytes) (s : Socket) → send memory l.here ≡ some s
    → Follows (record l { here = s }) q (take buffer_size memory ∷ [])
sending-Follows {l} {q} sh memory s e =
    let (block, queue) = send_lem memory l.here s e in
    let m = take buffer_size memory in
    (
      record q { waiting = q.waiting ++ (m ∷ []) },
      put m block,
      shown sh.on_wire sh.wire_is sh.blocks
          (subst (All IsBlock) (sym queue)
            (All-append IsBlock l.here.messages (m ∷ []) sh.queued (block, tt)))
          (ap (λ w. w ++ (m ∷ [])) sh.waiting_is
            ∙ append_assoc sh.on_wire l.here.messages (m ∷ [])
            ∙ ap (λ ms. sh.on_wire ++ ms) (sym queue))
          sh.handed_is sh.listens,
      sym (append_assoc q.handed q.waiting (m ∷ [])),
    )

writing-Follows :
    {l : Link} {q : Fifo}
    → Shows l q
    → (s : Socket) (out : Bytes) → send_round some (pos buffer_size) l.here ≡ some (s, out)
    → Follows (record l { here = s; wire = l.wire ++ out }) q []
writing-Follows {l} {q} sh s out e = (
  q,
  stay,
  elim (send_round_lem l.here s out sh.queued e) [
    | inl (same, none_out) ↦
        shown sh.on_wire (ap (λ o. l.wire ++ o) none_out ∙ append-nil l.wire ∙ sh.wire_is) sh.blocks
          (subst (All IsBlock) (sym same) sh.queued)
          (sh.waiting_is ∙ ap (λ ms. sh.on_wire ++ ms) (sym same)) sh.handed_is sh.listens
    | inr (first, block) ↦
        let queued = subst (All IsBlock) first sh.queued in
        shown (sh.on_wire ++ (out ∷ []))
          (ap (λ w. w ++ out) sh.wire_is ∙ sym (joined_bytes-append sh.on_wire out))
          (All-append IsBlock sh.on_wire (out ∷ []) sh.blocks (block, tt)) queued.1
          (sh.waiting_is
            ∙ ap (λ ms. sh.on_wire ++ ms) first
            ∙ sym (append_assoc sh.on_wire (out ∷ []) s.messages))
          sh.handed_is sh.listens
  ],
  sym (append-nil (q.handed ++ q.waiting)),
)

reading-Follows :
    (l : Link) (q : Fifo) (bs : List Bytes)
    → l.wire ≡ joined_bytes bs
    → All IsBlock bs
    → All IsBlock l.here.messages
    → q.waiting ≡ bs ++ l.here.messages
    → l.there.calls ≡ receipts q.handed
    → l.there.has_listener ≡ true
    → (s : Socket) → buffer_size ≤ length l.wire
    → receive_round some (pos buffer_size) (take buffer_size l.wire) l.there ≡ some s
    → Follows (record l { wire = drop buffer_size l.wire; there = s }) q []
reading-Follows l q [] w b m wait h t s le e = absurd (omega (arith, le, ap length w))
reading-Follows l q (b ∷ bs) w (block, blocks) m wait h t s le e =
    let first : take buffer_size l.wire ≡ b =
      ap (take buffer_size) w
      ∙ subst (λ n. take n (b ++ joined_bytes bs) ≡ b) block (take_front b (joined_bytes bs)) in
    let others : drop buffer_size l.wire ≡ joined_bytes bs =
      ap (drop buffer_size) w
      ∙ subst (λ n. drop n (b ++ joined_bytes bs) ≡ joined_bytes bs) block
          (drop_front b (joined_bytes bs)) in
    let (called, still) =
      receive_round_lem b l.there s block t
        (subst (λ d. receive_round some (pos buffer_size) d l.there ≡ some s) first e) in
    (
      record { waiting = bs ++ l.here.messages; handed = q.handed ++ (b ∷ []) },
      take_first b (bs ++ l.here.messages) wait,
      shown bs others blocks m refl
          (called ∙ ap (λ c. c ++ (on_receive b ∷ [])) h ∙ sym (receipts-append q.handed b)) still,
      append_assoc q.handed (b ∷ []) (bs ++ l.here.messages)
          ∙ ap (λ ws. q.handed ++ ws) (sym wait)
          ∙ sym (append-nil (q.handed ++ q.waiting)),
    )

step-Follows :
    {l l' : Link} {q : Fifo}
    → Shows l q
    → (st : LinkStep l l') → IsWhole st
    → Follows l' q (put_by st)
step-Follows sh (sending memory s e) w = sending-Follows sh memory s e
step-Follows {l} sh (writing result s out on ok e) w =
    writing-Follows sh s out (subst (λ r. send_round some r l.here ≡ some (s, out)) w e)
step-Follows {l} {q = q} sh (reading k s on some_bytes there e) w =
    subst
      (λ n.
        n ≤ length l.wire
        → receive_round some (pos n) (take n l.wire) l.there ≡ some s
        → Follows (record l { wire = drop n l.wire; there = s }) q [])
      (sym w)
      (reading-Follows l q sh.on_wire sh.wire_is sh.blocks sh.queued sh.waiting_is sh.handed_is
        sh.listens s)
      there e

-- A link is a first-in first-out queue of messages of 1024 bytes: over any run from two fresh
-- sockets, with a listener at the far one, in which each `write` and each `read` moves a whole
-- message, there is a run of the queue that the link shows, and what the queue has handed over,
-- followed by what waits in it, is the list of the messages that `send` was called with in the run,
-- in the order of the calls, each once. So the listener is called with the messages that were sent,
-- in their order, each once, and what it has not been called with is on the wire or in the queue of
-- the sender, in the same order.
pub link_refines_fifo :
    {l : Link} (run : LinkRun fresh_link l)
    → AreWhole run
    → (q : Fifo) × FifoRun (record { waiting = []; handed = [] }) q
      × Shows l q
      × (q.handed ++ q.waiting ≡ sent_by run)
unfolding accepted create_threads register_event_listener
link_refines_fifo begin w =
    (record { waiting = []; handed = [] }, rest, shown [] refl tt tt refl refl refl, refl)
link_refines_fifo (next run st) (whole, w) =
    let (q, run', sh, sent) = link_refines_fifo run whole in
    let (q', st', sh', put_last) = step-Follows sh st w in
    (q', more run' st', sh', put_last ∙ ap (λ ms. ms ++ put_by st) sent)
