-- ===== src/AlertGenerator.antt =====
-- alert_generator: the suite that checks an alert generator against expected alerts.
pub mod Api
pub mod ExpectedAlert
pub mod Server
pub mod TestSuite
pub mod Tests
pub mod Cases
pub mod Config
pub mod RemoteWrite
pub mod Responses
pub mod MultiError
