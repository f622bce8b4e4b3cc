-- ===== src/Routes.antt =====
-- backend/src/middlewares/orderState.middleware.js: the guards in front of the order routes, and the
-- handlers of backend/src/modules/orders/orders.controller.js that set a status or try a coupon.
pub mod Guard
pub mod Agree
pub mod Orders
pub mod Statuses
pub mod Moved
pub mod Coupons
mod Tests
