-- ===== src/Dispatch.antt =====
-- Assignment of riders: backend/src/services/assignment.service.js, order-batcher.js and
-- dispatch.service.js.
pub mod World
pub mod Batch
pub mod Windows
pub mod Eligible
pub mod Assign
pub mod Timeout
pub mod Queue
pub mod Load
pub mod Capped
pub mod Calls
pub mod Reach
pub mod Attempts
pub mod Chain
pub mod Closed
pub mod Nearest
pub mod Queued
mod Tests
