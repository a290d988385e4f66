-- ===== src/Maekawa.antt =====
-- node/MAKNode.h and node/MAKNode.cpp: Maekawa's algorithm, as the node runs it.
pub mod Message
pub mod State
pub mod Handlers
pub mod Loop
pub mod Invariant
mod Priority
pub mod Sends
pub mod Grants
pub mod CriticalSection
pub mod Release
pub mod Clock
pub mod GiveWay
pub mod Overtaking
pub mod System
pub mod MutualExclusion
pub mod Contention
mod Examples
