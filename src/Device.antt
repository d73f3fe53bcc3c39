-- ===== src/Device.antt =====
-- examples/ws-discovery: a device that answers probes.
pub mod Types
pub mod Matching
pub mod Log
pub mod Notes
pub mod Main
pub mod Serving
pub mod Reports
pub mod Start
pub mod Threads
