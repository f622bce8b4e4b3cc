-- ===== src/Machine/Laws.antt =====
-- The machine against the unified table of backend/src/utils/orderStatus.js, and who may move an
-- order where.
use meatvo_app.Base.{List, [], arith, false, true, ◌∷◌, ◌≡◌, ◌⊎◌}
use meatvo_app.Machine.Roles.{admin, customer, rider, system}
use meatvo_app.Machine.Rules.{can_actor_trigger_state, can_transition}
use meatvo_app.Status.Table.{allows}
use meatvo_app.Status.Names.{
  Status, cancelled, confirmed, failed, failed_delivery, includes, named, on_the_way, packed,
  packing_started, payment_pending, picked_up, placed, status_eq,
}

-- The states that only the unified table knows.
abbrev pub legacy_states : List Status
legacy_states = picked_up ∷ on_the_way ∷ failed ∷ []

-- Every transition that the enhanced state machine allows is allowed by the unified status table.
pub can_transition-allows : (s t : Status) → can_transition s t ≡ true → allows s t ≡ true
unfolding can_transition allows
can_transition-allows placed t h = ground arith
can_transition-allows _ t h = ground arith

-- From a named state to any state, neither of them PICKED_UP, ON_THE_WAY or FAILED, the unified status
-- table and the enhanced state machine give the same answer.
pub allows-can_transition :
    (s t : Status)
    → includes named s ≡ true
    → includes legacy_states s ≡ false
    → includes legacy_states t ≡ false
    → allows s t ≡ can_transition s t
unfolding can_transition allows
allows-can_transition placed t n h k = ground arith
allows-can_transition _ t n h k = ground arith

-- The states from which a customer may cancel.
abbrev pub cancellable_by_customer : List Status
cancellable_by_customer =
    placed ∷ payment_pending ∷ confirmed ∷ packing_started ∷ packed ∷ failed_delivery ∷ []

-- The only state that a customer may move an order to, by a change of state that the machine
-- allows, is CANCELLED, and only from PLACED, PAYMENT_PENDING, CONFIRMED, PACKING_STARTED, PACKED or
-- FAILED_DELIVERY.
pub customer_only_cancels :
    (s t : Status)
    → can_transition s t ≡ true
    → status_eq s t ≡ false
    → can_actor_trigger_state t customer ≡ true
    → (t ≡ cancelled) × (includes cancellable_by_customer s ≡ true)
unfolding can_transition can_actor_trigger_state
customer_only_cancels placed t e ne a = ground arith
customer_only_cancels _ t e ne a = ground arith

-- Every transition that the machine allows may be triggered by an admin, a rider or the system.
pub transition_has_actor :
    (s t : Status)
    → can_transition s t ≡ true
    → status_eq s t ≡ false
    → (can_actor_trigger_state t admin ≡ true)
      ⊎ (can_actor_trigger_state t rider ≡ true)
      ⊎ (can_actor_trigger_state t system ≡ true)
unfolding can_transition can_actor_trigger_state
transition_has_actor placed t e ne = ground arith
transition_has_actor _ t e ne = ground arith
