-- ===== src/Quorum.antt =====
-- testbed.cpp, `QuorumAssignment` and `write_quorums`: the grid quorums of the Maekawa nodes.
pub mod Grid
pub mod Assignment
pub mod Intersection
pub mod Write
pub mod Numbering
pub mod ReadBack
pub mod ReadSet
