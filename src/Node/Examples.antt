-- ===== src/Node/Examples.antt =====
-- A node that the test bed starts.
use aosproject.Node.State.{new as new_node}
