-- ===== src/DumpSwitch/Examples.antt =====
-- Nodes at the dump switch.
use aosproject.Prelude.{◌≡◌, refl, some, [], ◌∷◌, arith, ◌>>=◌}
use aosproject.Text.{atoi}
use aosproject.Text.Decimal.{codes}
use aosproject.DumpSwitch.{DumpSwitch, init, on_receive}
use aosproject.DumpSwitch.Announce.{Announcements, receive_all, announcements_start_nothing}

abbrev both : Announcements
both = (1, codes "START", 11) ∷ (2, [], 12) ∷ []

announcements_start_nothing_example :
    (d : DumpSwitch) × (receive_all both (init 2) ≡ some d) × (d.connected ≡ 0) × (d.sent ≡ [])
announcements_start_nothing_example = announcements_start_nothing 2 both (omega arith)

-- Nodes that announce themselves as the dump switch wants it are started by the last of them.
named_nodes_start :
    (on_receive (codes "NODE 2") 12 (init 2) >>= λ d.
    on_receive (codes "NODE 1") 11 d >>= λ d'. some d'.sent)
    ≡ some ((11, codes "START") ∷ (12, codes "START") ∷ [])
unfolding on_receive init atoi
named_nodes_start = refl
