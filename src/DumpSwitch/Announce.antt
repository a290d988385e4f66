-- ===== src/DumpSwitch/Announce.antt =====
-- How the nodes announce themselves, as `DumpSwitch::onReceive` takes it.
use aosproject.Prelude.{
  ℕ, ◌<◌, ◌≡◌, refl, sym, subst, ◌≢◌, false, ◌&&◌, Option, some, List, [], ◌∷◌, ◌++◌, arith, leb,
  ◌==◌, ◌>>=◌, take, drop, All,
}
use aosproject.Text.{Bytes, show_int, show_nat, IsDigit}
use aosproject.Text.Decimal.{codes, show_nat-All, show_nat-ne-nil}
use aosproject.Text.Equal.{same_bytes}
use aosproject.Network.Frame.{byte_at, c_string, from_le}
use aosproject.Network.Connect.{announcement}
use aosproject.DumpSwitch.{DumpSwitch, init, on_receive, forward_message, discard, Entry, discarded}

-- A node, what lies behind its announcement in memory, and the socket it comes on.
abbrev pub Announcements : Type 0
Announcements = List (ℕ × Bytes × ℕ)

abbrev pub receive_all : Announcements → DumpSwitch → Option DumpSwitch
receive_all [] d = some d
receive_all ((node_id, behind, socket) ∷ more) d =
    on_receive (announcement node_id behind) socket d >>= λ d'. receive_all more d'

-- The text begins with a digit.
IsDigit-first :
    (s : Bytes) → All IsDigit s → s ≢ [] → (c : ℕ) × (t : Bytes) × IsDigit c × (s ≡ c ∷ t)
IsDigit-first [] d h = absurd (h refl)
IsDigit-first (c ∷ s) (d, ds) h = (c, s, d, refl)

no_word : (c k : ℕ) (s t : Bytes) → (c == k) ≡ false → same_bytes (c ∷ s) (k ∷ t) ≡ false
unfolding same_bytes
no_word c k s t e = rw e refl

digit_is : (c k : ℕ) → IsDigit c → 57 < k → (c == k) ≡ false
digit_is c k h l = ground (arith, h, l)

no_receiver : (c n : ℕ) → IsDigit c → n < 48 → (leb 1 c && leb c n) ≡ false
no_receiver c n h l = ground (arith, h, l)

-- A message that begins with a digit is logged and discarded: no node has so high a number.
digit_discarded :
    (c : ℕ) (s : Bytes) (socket : ℕ) (d : DumpSwitch)
    → IsDigit c
    → d.num_of_nodes < 48
    → (e : Entry) × (on_receive (c ∷ s) socket d ≡ some (record d { log = d.log ++ (e ∷ []) }))
unfolding on_receive forward_message byte_at discard
digit_discarded c s socket d h n = (
  discarded (byte_at s 0) c (from_le (take 4 (drop 1 s))) (c_string (drop 5 s)),
  rw (no_word c (b'N') (take 4 s) (codes "ODE ") (digit_is c (b'N') h (omega arith))) (
      rw (no_word c (b'E') (take 3 s) (codes "ND ") (digit_is c (b'E') h (omega arith)))
        (rw (no_receiver c d.num_of_nodes h n) refl)),
)

announcement_discarded :
    (node_id : ℕ) (behind : Bytes) (socket : ℕ) (d : DumpSwitch)
    → d.num_of_nodes < 48
    → (e : Entry) × (on_receive (announcement node_id behind) socket d
        ≡ some (record d { log = d.log ++ (e ∷ []) }))
unfolding announcement show_int
announcement_discarded node_id behind socket d n =
    let (c, t, h, e) =
      IsDigit-first (show_nat node_id) (show_nat-All node_id) (show_nat-ne-nil node_id) in
    subst
      (λ s.
        (x : Entry) × (on_receive (s ++ (0 ∷ behind)) socket d
          ≡ some (record d { log = d.log ++ (x ∷ []) })))
      (sym e) (digit_discarded c (t ++ (0 ∷ behind)) socket d h n)

receive_all_quiet :
    (calls : Announcements) (d : DumpSwitch)
    → d.num_of_nodes < 48
    → (d' : DumpSwitch) × (receive_all calls d ≡ some d')
      × (d'.connected ≡ d.connected)
      × (d'.sent ≡ d.sent)
receive_all_quiet [] d n = (d, refl, refl, refl)
receive_all_quiet ((node_id, behind, socket) ∷ more) d n =
    let (e, here) = announcement_discarded node_id behind socket d n in
    let (d', run, connected, sent) =
      receive_all_quiet more (record d { log = d.log ++ (e ∷ []) }) n in
    (d', rw here run, connected, sent)

-- The dump switch never starts its nodes: however many of them announce themselves on their
-- connections, with whatever numbers and in whatever order, a dump switch for fewer than 48 nodes
-- counts none as connected, and sends nothing, START included.
pub announcements_start_nothing :
    (n : ℕ) (calls : Announcements)
    → n < 48
    → (d : DumpSwitch) × (receive_all calls (init n) ≡ some d) × (d.connected ≡ 0) × (d.sent ≡ [])
unfolding init
announcements_start_nothing n calls h = receive_all_quiet calls (init n) h
