-- ===== src/Pricing.antt =====
-- What a line, a delivery and a coupon cost: backend/src/utils/productPricing.util.js,
-- weightBasedProduct.util.js, orderPricing.util.js and backend/src/modules/coupons/coupons.service.js.
-- Prices are whole paise; a discount is counted in units of 1/10000 paisa, in which a percentage with
-- two decimals of a whole number of paise is exact.
pub mod Product
pub mod Delivery
pub mod Coupon
pub mod Redemption
mod Tests
