-- ===== src/Machine/Rules.antt =====
-- backend/src/utils/enhancedOrderStateMachine.js: STATE_TRANSITIONS, TRANSITION_ACTORS and the tests
-- on them. A state that is no key of a table has no entry there.
use meatvo_app.Base.{
  Bool, List, Option, [], any, false, if◌then◌else◌, none, or_else, some, true, ◌||◌, ◌∷◌,
}
use meatvo_app.Status.{Status, includes, status_eq}
use meatvo_app.Status.Names.{
  cancelled, confirmed, delivered, failed_delivery, other, out_for_delivery, packed,
  packing_started, payment_pending, payment_verified, placed, refunded, rider_accepted,
  rider_assigned, rider_nearby, rider_rejected,
}
use meatvo_app.Machine.Roles.{Role, admin, customer, rider, role_eq, staff, system}

-- STATE_TRANSITIONS
abbrev pub state_transitions : Status → Option (List Status)
state_transitions placed = some (payment_pending ∷ confirmed ∷ cancelled ∷ [])
state_transitions payment_pending = some (payment_verified ∷ cancelled ∷ [])
state_transitions payment_verified = some (confirmed ∷ [])
state_transitions confirmed = some (packing_started ∷ packed ∷ cancelled ∷ [])
state_transitions packing_started = some (packed ∷ cancelled ∷ [])
state_transitions packed = some (rider_assigned ∷ out_for_delivery ∷ cancelled ∷ [])
state_transitions rider_assigned = some (rider_accepted ∷ rider_rejected ∷ packed ∷ [])
state_transitions rider_rejected = some (packed ∷ [])
state_transitions rider_accepted = some (out_for_delivery ∷ [])
state_transitions out_for_delivery = some (rider_nearby ∷ delivered ∷ failed_delivery ∷ [])
state_transitions rider_nearby = some (delivered ∷ failed_delivery ∷ [])
state_transitions delivered = some (refunded ∷ [])
state_transitions failed_delivery = some (packed ∷ refunded ∷ cancelled ∷ [])
state_transitions cancelled = some (refunded ∷ [])
state_transitions refunded = some []
state_transitions _ = none

-- TRANSITION_ACTORS
abbrev pub transition_actors : Status → Option (List Role)
transition_actors placed = some (customer ∷ system ∷ [])
transition_actors payment_pending = some (system ∷ [])
transition_actors payment_verified = some (admin ∷ system ∷ [])
transition_actors confirmed = some (admin ∷ staff ∷ [])
transition_actors packing_started = some (admin ∷ staff ∷ [])
transition_actors packed = some (admin ∷ staff ∷ [])
transition_actors rider_assigned = some (admin ∷ system ∷ [])
transition_actors rider_accepted = some (rider ∷ [])
transition_actors rider_rejected = some (rider ∷ [])
transition_actors out_for_delivery = some (rider ∷ admin ∷ staff ∷ [])
transition_actors rider_nearby = some (system ∷ admin ∷ [])
transition_actors delivered = some (rider ∷ admin ∷ staff ∷ [])
transition_actors failed_delivery = some (rider ∷ admin ∷ [])
transition_actors cancelled = some (customer ∷ admin ∷ staff ∷ [])
transition_actors refunded = some (admin ∷ [])
transition_actors _ = none

-- `canTransition`; the empty text is falsy.
unfoldable pub can_transition : Status → Status → Bool
can_transition from to =
    if status_eq from (other []) || status_eq to (other [])
    then false
    else if status_eq from to
    then true
    else elim (state_transitions from) [ none ↦ false | some valid ↦ includes valid to ]

-- `getValidTransitions`
unfoldable pub get_valid_transitions : Status → List Status
get_valid_transitions from = or_else (state_transitions from) []

-- `canActorTriggerState`
unfoldable pub can_actor_trigger_state : Status → Role → Bool
can_actor_trigger_state state actor = elim (transition_actors state) [
  | none ↦ false
  | some actors ↦ any (role_eq actor) actors
]
