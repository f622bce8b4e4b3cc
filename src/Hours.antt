-- ===== src/Hours.antt =====
-- backend/src/utils/storeHours.util.js and backend/src/constants/storeAcceptanceMode.constants.js: when
-- the store takes orders.
pub mod Availability
pub mod Circle
mod Tests
