-- ===== src/Domain.antt =====
-- internal/domain: the two aggregates of the login service, the values that they are made of, and
-- the events that they record.
pub mod Kinds
pub mod Password
pub mod Event
pub mod Fault
pub mod Policy
pub mod Session
pub mod Credential
