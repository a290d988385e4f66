-- ===== src/Schedule.antt =====
-- testbed.cpp, `read_config` and `write_config`: what the nodes and the switches read about a run.
pub mod Write
pub mod ReadBack
pub mod Read
pub mod ConfigText
pub mod ReadTime
pub mod ReadRequests
pub mod ReadConfig
pub mod Unended
pub mod EndToEnd
pub mod Examples
