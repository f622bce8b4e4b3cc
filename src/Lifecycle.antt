-- ===== src/Lifecycle.antt =====
-- backend/src/services/orderLifecycle.service.js: the transitions of an order with their guards and
-- effects on the database, its cancellation, and sequences of the services' operations.
pub mod Transition
pub mod Guards
pub mod Entered
pub mod Paid
pub mod Confirmed
pub mod Cancel
pub mod History
pub mod Timeline
pub mod Returned
pub mod Cancelled
mod Tests
