-- ===== src/Network/Connect.antt =====
-- `NodeNetwork::onConnect`: a node announces itself on its connection.
use aosproject.Prelude.{ℕ, Option, ◌∷◌, ◌++◌, pos}
use aosproject.Text.{Bytes, show_int}
use aosproject.Socket.{Socket, send}

-- `sprintf(buff,"%d",m_node_id)`, with what lies behind the text in memory.
unfoldable pub announcement : ℕ → Bytes → Bytes
announcement node_id behind = show_int (pos node_id) ++ (0 ∷ behind)

unfoldable pub on_connect : ℕ → Bytes → Socket → Option Socket
unfolding announcement send
on_connect node_id behind s = send (announcement node_id behind) s
