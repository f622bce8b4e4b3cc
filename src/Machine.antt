-- ===== src/Machine.antt =====
-- backend/src/utils/enhancedOrderStateMachine.js: the state machine that every order transition goes
-- through, and the tables that hang on its states.
pub mod Roles
pub mod Rules
pub mod Laws
pub mod Actions
pub mod Interpolate
pub mod Notifications
mod Tests
pub use Roles.{Role, role_eq, role_eq_iff}
pub use Rules.{state_transitions, transition_actors}
unfoldable pub use Rules.{can_transition, get_valid_transitions, can_actor_trigger_state}
