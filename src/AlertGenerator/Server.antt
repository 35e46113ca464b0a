-- ===== src/AlertGenerator/Server.antt =====
-- alert_generator/server.go: the server that receives alerts and compares them with the expected
-- ones. The children hold the state, the operations and what they keep.
pub mod State
pub mod Sweep
pub mod Handler
pub mod Total
pub mod Errors
pub mod Reports
pub mod Filing
pub mod WellStored
pub mod Conservation
