-- ===== src/AlertGenerator/TestSuite.antt =====
-- alert_generator/testsuite.go: the suite that runs the test cases, its checking loops and its
-- verdict.
pub mod State
pub mod Groups
pub mod Rounds
pub mod Fetching
pub mod Interleavings
pub mod Verdict
pub mod Judgement
pub mod Explanation
pub mod Options
pub mod Starting
pub mod Validation
