-- ===== src/Network.antt =====
-- node/NodeNetwork.cpp: the frames of the nodes, and what the accepting thread does with one.
pub mod Frame
pub mod Accept
pub mod Connect
pub mod Lifetime
pub mod Listen
pub mod Examples
