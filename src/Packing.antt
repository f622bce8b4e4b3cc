-- ===== src/Packing.antt =====
-- The packing of an order: backend/src/services/packingWeightReconciliation.service.js with
-- backend/src/services/weightReconciliation.service.js.
pub mod Reconcile
pub mod Balance
pub mod Rows
pub mod Lines
pub mod Measured
pub mod Kept
pub mod Packed
pub mod Flow
pub mod Settled
mod Tests
