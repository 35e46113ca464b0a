-- ===== src/AlertGenerator/Cases.antt =====
-- The test cases of the alert generator: alert_generator/cases/.
pub mod Checks
pub mod Rules
pub mod Samples
pub mod Common
pub mod PendingFiring
pub mod Together
pub mod ZeroFor
pub mod PendingResolved
pub mod NewAlerts
