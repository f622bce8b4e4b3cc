-- ===== src/Cashfree.antt =====
-- Payments through the gateway: backend/src/modules/payments/cashfree.controller.js with
-- cashfree.service.js, backend/src/utils/cashfreeWebhook.js and
-- backend/src/services/payment-reconciliation.service.js.
pub mod Webhook
pub mod Api
pub mod Changes
pub mod Handlers
pub mod Reconcile
pub mod Events
pub mod Again
pub mod Sessions
pub mod Effects
pub mod Settled
mod Tests
