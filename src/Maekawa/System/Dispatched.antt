-- ===== src/Maekawa/System/Dispatched.antt =====
-- What a message that is handled in order does to the grants of one node's lock.
use aosproject.Prelude.{arith, ◌≡◌, refl, subst, ◌&&◌, some, ℤ, ◌==ℤ◌}
use aosproject.Maekawa.Message.{Message}
use aosproject.Maekawa.State.{Mak}
use aosproject.Maekawa.Handlers.{dispatch}
use mathlib.Core.Option.{some-injective}
use aosproject.Node.MessageType.{MessageType}
use aosproject.Maekawa.System.{IsOrderly}
use aosproject.Maekawa.System.Weight.{banned, bit, is_lock, is_release, is_grant}
use aosproject.Maekawa.System.Effect.{Sends-nothing, Effect}
use aosproject.Maekawa.System.Formed.{IsHost, Formed}
use aosproject.Maekawa.System.Handled.{receive_request-Effect, receive_release-Effect, node-Effect}
use aosproject.Maekawa.System.Answered.{receive_locked-Effect, receive_failed-Effect}

module _ (a : ℤ) (ha : IsHost a) where
  nothing-Effect : (m m' : Mak) → some m ≡ some m' → Effect a 0 0 m m'
  nothing-Effect m m' e =
      subst (Effect a 0 0 m) (some-injective _ _ e)
        (node-Effect m m.node (Sends-nothing a m.node m.node refl refl refl refl))

  -- By the type of the message.
  kind-Effect :
      (k : MessageType) (msg : Message) (m m' : Mak)
      → msg.kind ≡ k
      → Formed m
      → banned k ≡ 0
      → IsOrderly k msg m
      → dispatch k msg m ≡ some m'
      → Effect a (bit (is_lock k && (msg.from ==ℤ a))) (bit (is_release k)) m m'
  unfolding dispatch
  kind-Effect MessageType.request msg m m' k f b (d, order) e =
      receive_request-Effect a ha msg m m' d order e
  kind-Effect MessageType.release msg m m' k f b order e =
      subst (Effect a 0 1 m) (some-injective _ _ e) (receive_release-Effect a ha msg m)
  kind-Effect MessageType.lock msg m m' k f b (d, member, mine) e =
      subst (Effect a _ 0 m) (some-injective _ _ e) (receive_locked-Effect a ha msg m f k member d)
  kind-Effect MessageType.fail msg m m' k f b (d, member) e =
      subst (Effect a 0 0 m) (some-injective _ _ e) (receive_failed-Effect a ha msg m f k)
  kind-Effect MessageType.inquire msg m m' k f b order e = absurd (omega (arith, b))
  kind-Effect MessageType.relinquish msg m m' k f b order e = absurd (omega (arith, b))
  kind-Effect _ msg m m' k f b order e = nothing-Effect m m' e

  pub dispatch-Effect :
      (msg : Message) (m m' : Mak)
      → Formed m
      → banned msg.kind ≡ 0
      → IsOrderly msg.kind msg m
      → dispatch msg.kind msg m ≡ some m'
      → Effect a (bit (is_grant a msg)) (bit (is_release msg.kind)) m m'
  dispatch-Effect msg m m' f b order e = kind-Effect msg.kind msg m m' refl f b order e
