-- ===== src/Status.antt =====
-- backend/src/utils/orderStatus.js: the order statuses, how a text is normalised to one, and the
-- unified transition table. A status that is none of the named ones is `other`, with its text.
pub mod Names
pub mod Table
pub mod Runs
pub mod Assignment
pub mod Customer
pub use Names.{Status, status_eq, status_eq_iff, status_eq_refl, includes, to_text, of_text}
pub use Table.{transitions}
unfoldable pub use Table.{normalize_status, can_transition, has_edge, allows}
mod Tests
