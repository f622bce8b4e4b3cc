-- ===== src/Delivery.antt =====
-- The rider's requests: backend/src/modules/delivery/delivery.controller.js, and the delivery codes of
-- backend/src/services/deliveryProof.service.js.
pub mod Otp
pub mod Handlers
pub mod Handed
pub mod Rejected
mod Tests
