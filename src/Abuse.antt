-- ===== src/Abuse.antt =====
-- backend/src/security/api-abuse.service.js: the score of a request and the addresses that are blocked.
pub mod Patterns
pub mod Requests
pub mod Blocks
pub mod Disarmed
mod Tests
