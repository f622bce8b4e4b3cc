-- ===== src/Refunds.antt =====
-- Refunds through the payment gateway: backend/src/services/cashfreeRefund.service.js.
pub mod Rows
pub mod Gateway
pub mod Submit
pub mod Effect
pub mod Batch
pub mod Once
pub mod Runs
pub mod Stranded
mod Tests
