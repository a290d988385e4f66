-- ===== src/Switch.antt =====
-- vswitch.cpp: the switch that logs, drops, delays and forwards the messages of its nodes.
pub mod Session
pub mod Forwarding
pub mod Idle
pub mod Main
