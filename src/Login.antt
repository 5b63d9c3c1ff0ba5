-- ===== src/Login.antt =====
-- The login feature: its ports (internal/features/login/repository/repository.go), and the use case
-- (internal/features/login/usecase) as a computation that calls them.
pub mod Traced
pub mod Ports
pub mod Fingerprint
pub mod Transaction
pub mod Sessions
pub mod Steps
pub mod Outcomes
pub mod Handler
pub mod Refusals
pub mod Indistinct
pub mod Locked
pub mod Verified
pub mod Inversion
pub mod Success
pub mod Decision
pub mod Eviction
pub mod Fixtures
pub mod Tests
