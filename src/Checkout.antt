-- ===== src/Checkout.antt =====
-- The cart and the checkout: backend/src/modules/cart/cart.service.js and `createOrder` of
-- backend/src/modules/orders/orders.controller.js.
pub mod Cart
pub mod Request
pub mod Create
pub mod Placed
pub mod Limits
mod Tests
