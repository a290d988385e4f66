-- ===== src/Node.antt =====
-- node/Node.h and node/Node.cpp: the state and the operations that both algorithms share.
pub mod MessageType
pub mod State
pub mod Start
pub mod Config
pub mod Examples
