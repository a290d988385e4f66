-- ===== src/Maekawa/Release.antt =====
-- Leaving the critical section, and giving way to others.
use aosproject.Prelude.{
  ◌≡◌, refl, sym, ap, ◌∙◌, subst, inl, inr, true, false, none, some, List, [], ◌∷◌, ◌++◌,
  append-nil, append_assoc, arith, if◌then◌else◌, Bool-cases, ◌==ℤ◌,
}
use aosproject.Node.MessageType.{MessageType}
use aosproject.Node.State.{network_send, Node, Packet, send, send_finish_cs_msg}
use aosproject.Maekawa.Message.{Message}
use aosproject.Maekawa.State.{Mak, nobody, signal, send_locked, release_quorum}
use aosproject.Maekawa.Handlers.{serve_next, finish_cs}
use mathlib.Core.Option.{some-injective}
use aosproject.Maekawa.Sends.{
  signal_packet, control_packet, others, appended, release_packets, request_packets,
  request_packets-appended, release_quorum-sent, request_quorum-sent,
}

-- What follows the releases: nothing on an empty queue, LOCK for the first request if it is of
-- another node, and the request itself to the quorum if it is the node's own.
abbrev pub next_packets : List Message → Mak → List Packet
next_packets [] m = []
next_packets (r ∷ rest) m =
    if r.from ==ℤ m.node_id
    then request_packets r m.node (others m.node_id m.quorum_set)
    else signal_packet MessageType.lock r.from m.node ∷ []

abbrev pub LockedForFirst : List Message → Mak → Type 0
LockedForFirst [] m = (m.is_locked ≡ false) × (m.locked_for ≡ nobody)
LockedForFirst (r ∷ rest) m = (m.is_locked ≡ true) × (m.locked_for ≡ (r.seq, r.from))

-- The node between the releases and the service of the next request, with the node part given.
left : Node → List Message → Mak → Mak
left n rest m = record m {
  node = n;
  is_locked = false;
  is_in_cs = false;
  locked_for = nobody;
  response_map = [];
  waiting_queue = rest;
  inquiry_list = [];
}

abbrev goodbye : Mak → List Packet
goodbye m =
    control_packet (b'2' ∷ []) m.node ∷ release_packets m.node (others m.node_id m.quorum_set)

released-node :
    (m : Mak)
    → release_quorum m.quorum_set (send_finish_cs_msg m.node) ≡ appended m.node (goodbye m)
unfolding send_finish_cs_msg network_send
released-node m = rw (release_quorum-sent m.quorum_set _) (simp append_assoc)

finish_cs-left :
    (m : Mak) (first : Message) (rest : List Message)
    → m.waiting_queue ≡ first ∷ rest
    → finish_cs m ≡ some (serve_next rest (left (appended m.node (goodbye m)) rest m))
unfolding finish_cs left
finish_cs-left m first rest e = rw (e, released-node m) refl

serve_next-node :
    (rest : List Message) (m : Mak)
    → (serve_next rest m).node ≡ appended m.node (next_packets rest m)
unfolding serve_next send_locked signal send network_send
serve_next-node [] m = ground (arith, append-nil m.sent)
serve_next-node (r ∷ rest) m = elim (Bool-cases (r.from ==ℤ m.node_id)) [
  | inl e ↦ rw e (request_quorum-sent r m.quorum_set m.node)
  | inr e ↦ rw e refl
]

serve_next-left :
    (n : Node) (queue rest : List Message) (m : Mak)
    → let m' = serve_next rest (left n queue m) in
      (m'.is_in_cs ≡ false)
      × (m'.waiting_queue ≡ queue)
      × (m'.response_map ≡ [])
      × (m'.inquiry_list ≡ [])
      × LockedForFirst rest m'
unfolding serve_next left
serve_next-left n queue [] m = (refl, refl, refl, refl, (refl, refl))
serve_next-left n queue (r ∷ rest) m = (refl, refl, refl, refl, (refl, refl))

next_packets-left :
    (rest queue : List Message) (ps : List Packet) (m : Mak)
    → next_packets rest (left (appended m.node ps) queue m) ≡ next_packets rest m
unfolding left
next_packets-left [] queue ps m = refl
next_packets-left (r ∷ rest) queue ps m =
    rw (request_packets-appended r m.node ps (others m.node_id m.quorum_set))

-- When a node leaves its critical section, it announces this, releases every other member of its
-- quorum, forgets the answers and the inquiries, drops the first request of its queue, and then
-- serves the request behind it: it locks itself for that one and tells its sender, or asks its own
-- quorum again. On an empty queue it stays free and sends nothing more.
pub finish_cs_releases :
    (m : Mak) (first : Message) (rest : List Message)
    → m.waiting_queue ≡ first ∷ rest
    → (m' : Mak) × (finish_cs m ≡ some m')
      × (m'.sent
          ≡ m.sent
            ++ (control_packet (b'2' ∷ []) m.node
                ∷ (release_packets m.node (others m.node_id m.quorum_set) ++ next_packets rest m)))
      × ((m'.is_in_cs ≡ false)
          × (m'.waiting_queue ≡ rest)
          × (m'.response_map ≡ [])
          × (m'.inquiry_list ≡ [])
          × LockedForFirst rest m')
unfolding left
finish_cs_releases m first rest e =
    let done = left (appended m.node (goodbye m)) rest m in
    (
      serve_next rest done,
      finish_cs-left m first rest e,
      ap (λ (n : Node). n.sent) (serve_next-node rest done)
          ∙ append_assoc m.sent (goodbye m) (next_packets rest done)
          ∙ ap (λ ps. m.sent ++ (goodbye m ++ ps)) (next_packets-left rest rest (goodbye m) m),
      serve_next-left (appended m.node (goodbye m)) rest rest m,
    )

clock-left :
    (queue rest : List Message) (ps : List Packet) (m : Mak)
    → let m' = serve_next rest (left (appended m.node ps) queue m) in
      (m'.is_in_cs ≡ false) × (m'.timer ≡ m.timer) × (m'.cs_timer ≡ m.cs_timer)
unfolding left
clock-left queue rest ps m =
    let start = left (appended m.node ps) queue m in
    (
      (serve_next-left (appended m.node ps) queue rest m).0,
      ap (λ (n : Node). n.timer) (serve_next-node rest start),
      ap (λ (n : Node). n.cs_timer) (serve_next-node rest start),
    )

finish_cs_nothing : (m : Mak) → m.waiting_queue ≡ [] → finish_cs m ≡ none
unfolding finish_cs
finish_cs_nothing m e = rw (e, finish_cs) refl

clock_of_queue :
    (q : List Message) (m m' : Mak)
    → m.waiting_queue ≡ q
    → finish_cs m ≡ some m'
    → (m'.is_in_cs ≡ false) × (m'.timer ≡ m.timer) × (m'.cs_timer ≡ m.cs_timer)
clock_of_queue [] m m' e f = cc (finish_cs_nothing m e)
clock_of_queue (first ∷ rest) m m' e f =
    subst (λ (n : Mak). (n.is_in_cs ≡ false) × (n.timer ≡ m.timer) × (n.cs_timer ≡ m.cs_timer))
      (some-injective _ _ (sym (finish_cs-left m first rest e) ∙ f))
      (clock-left rest rest (goodbye m) m)

pub finish_cs_clock :
    (m m' : Mak)
    → finish_cs m ≡ some m'
    → (m'.is_in_cs ≡ false) × (m'.timer ≡ m.timer) × (m'.cs_timer ≡ m.cs_timer)
finish_cs_clock m m' f = clock_of_queue m.waiting_queue m m' refl f
