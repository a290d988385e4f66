-- ===== src/Maekawa/GiveWay.antt =====
-- A failed request gives every inquirer its lock back, at once and from then on.
use aosproject.Prelude.{◌≡◌, refl, ap, true, false, List, [], ◌∷◌, ◌++◌, map, arith, ℤ}
use aosproject.Node.MessageType.{MessageType, is_fail}
use aosproject.Node.State.{network_send, Node, send}
use aosproject.Maekawa.Message.{Message}
use aosproject.Maekawa.State.{Mak, put, has_fail, signal, send_relinquish}
use aosproject.Maekawa.Handlers.{receive_inquiry, receive_failed}
use aosproject.Maekawa.Sends.{signal_packet, relinquish_all-sent}

has_fail-put : (k : ℤ) (m : List (ℤ × MessageType)) → has_fail (put k MessageType.fail m) ≡ true
unfolding has_fail put is_fail
has_fail-put k [] = refl
has_fail-put k ((j, w) ∷ m) = ground (arith, has_fail-put k m)

-- When FAIL arrives, RELINQUISH goes to every node whose INQUIRE was kept, in the order of the set,
-- and none stays in it; an INQUIRE that comes next outside the critical section is answered by
-- RELINQUISH and not kept.
pub receive_failed_gives_way :
    (failed inquiry : Message) (m : Mak)
    → failed.kind ≡ MessageType.fail
    → m.is_in_cs ≡ false
    → let m' = receive_failed failed m in
      let m'' = receive_inquiry inquiry m' in
      (m'.sent
        ≡ m.sent
          ++ map
              (λ (i : Message). signal_packet MessageType.relinquish i.from m.node)
              m.inquiry_list)
      × (m'.inquiry_list ≡ [])
      × (m''.sent ≡ m'.sent ++ signal_packet MessageType.relinquish inquiry.from m.node ∷ [])
      × (m''.inquiry_list ≡ [])
unfolding receive_failed receive_inquiry send_relinquish signal send network_send
receive_failed_gives_way failed inquiry m e out =
    let kept = has_fail-put failed.from m.response_map in
    (
      ap (λ (n : Node). n.sent) (relinquish_all-sent m.inquiry_list m.node),
      refl,
      rw (out, e, kept, relinquish_all-sent m.inquiry_list m.node) refl,
      rw (out, e, kept) refl,
    )
