-- ===== src/FailedDelivery.antt =====
-- Failed deliveries: backend/src/services/failedDelivery.service.js and adminTask.service.js, with
-- backend/src/constants/failedDelivery.constants.js.
pub mod Words
pub mod Tasks
pub mod Handlers
pub mod Marked
pub mod Resolved
pub mod Cycle
pub mod Run
pub mod Counted
mod Tests
