-- ===== src/Payment.antt =====
-- Stock and payments: backend/src/modules/payments/payment-stock.js and payment-success.js.
pub mod Stock
pub mod Conservation
pub mod Success
pub mod Settled
mod Tests
