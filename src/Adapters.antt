-- ===== src/Adapters.antt =====
-- The smaller adapters of the login feature: the client of the identity service
-- (internal/features/login/repository/identity/acl.go), the store of MFA sessions
-- (internal/features/login/repository/redis/mfa_session.go) and the signer of tokens
-- (internal/platform/jwtsign/jwtsign.go).
pub mod Tokens
pub mod Identity
pub mod MfaSessions
mod Tests
