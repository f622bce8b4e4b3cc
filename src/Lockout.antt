-- ===== src/Lockout.antt =====
-- backend/src/security/account-lockout.service.js: the lockout of an account after failed logins.
pub mod Account
pub mod BruteForce
pub mod Expiry
mod Tests
