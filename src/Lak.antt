-- ===== src/Lak.antt =====
-- node/LAKNode.h and node/LAKNode.cpp: the authors' token algorithm, as the node runs it.
pub mod Message
pub mod State
pub mod Handlers
pub mod Loop
pub mod Tokens
pub mod Conservation
pub mod Faults
pub mod Runs
pub mod Extends
pub mod Program
pub mod System
pub mod MutualExclusion
mod Examples
