-- ===== src/PromQl.antt =====
-- promql: the tester that compares a PromQL implementation with the reference implementation.
pub mod Time
pub mod Config
pub mod TestCases
pub mod Comparer
pub mod Output
pub mod Tests
