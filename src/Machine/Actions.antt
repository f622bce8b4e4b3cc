-- ===== src/Machine/Actions.antt =====
-- backend/src/utils/enhancedOrderStateMachine.js: STATE_ACTIONS, the actions offered to a role at a
-- state, and `getAvailableActions`.
use meatvo_app.Base.{List, Option, [], none, or_else, some, ◌∷◌}
use meatvo_app.Machine.Roles.{Role, admin, customer, rider, staff}
use meatvo_app.Status.Names.{
  Status, cancelled, confirmed, delivered, failed_delivery, out_for_delivery, packed,
  packing_started, payment_pending, placed, rider_accepted, rider_assigned, rider_nearby,
}

pub data Action : Type 0 where
  cancel_order verify_payment confirm_order start_packing mark_packed : Action
  assign_rider auto_assign reassign_rider cancel_assignment monitor : Action
  accept_order reject_order start_delivery update_location mark_nearby mark_delivered : Action
  call_rider track_rider track_live rate_order report_issue view_details next_order : Action
  resolve_failed_delivery redeliver refund discard confirm_return_to_store process_refund : Action

-- The entry of a state in STATE_ACTIONS; a role without a key has none.
abbrev pub state_actions : Status → Role → Option (List Action)
state_actions placed customer = some (cancel_order ∷ [])
state_actions placed admin = some (verify_payment ∷ confirm_order ∷ cancel_order ∷ [])
state_actions placed rider = some []
state_actions payment_pending customer = some []
state_actions payment_pending admin = some (verify_payment ∷ cancel_order ∷ [])
state_actions payment_pending rider = some []
state_actions confirmed customer = some (cancel_order ∷ [])
state_actions confirmed admin = some (start_packing ∷ cancel_order ∷ [])
state_actions confirmed staff = some (start_packing ∷ [])
state_actions confirmed rider = some []
state_actions packing_started customer = some []
state_actions packing_started admin = some (mark_packed ∷ cancel_order ∷ [])
state_actions packing_started staff = some (mark_packed ∷ [])
state_actions packing_started rider = some []
state_actions packed customer = some []
state_actions packed admin = some (assign_rider ∷ auto_assign ∷ cancel_order ∷ [])
state_actions packed rider = some []
state_actions rider_assigned customer = some (call_rider ∷ track_rider ∷ [])
state_actions rider_assigned admin = some (reassign_rider ∷ cancel_assignment ∷ [])
state_actions rider_assigned rider = some (accept_order ∷ reject_order ∷ [])
state_actions rider_accepted customer = some (call_rider ∷ track_rider ∷ [])
state_actions rider_accepted admin = some (monitor ∷ [])
state_actions rider_accepted rider = some (start_delivery ∷ reject_order ∷ [])
state_actions out_for_delivery customer = some (track_live ∷ call_rider ∷ [])
state_actions out_for_delivery admin = some (monitor ∷ [])
state_actions out_for_delivery rider = some (update_location ∷ mark_nearby ∷ mark_delivered ∷ [])
state_actions rider_nearby customer = some (call_rider ∷ track_live ∷ [])
state_actions rider_nearby admin = some (monitor ∷ [])
state_actions rider_nearby rider = some (mark_delivered ∷ [])
state_actions delivered customer = some (rate_order ∷ report_issue ∷ [])
state_actions delivered admin = some (view_details ∷ [])
state_actions delivered rider = some (next_order ∷ [])
state_actions failed_delivery customer = some []
state_actions failed_delivery admin =
    some (resolve_failed_delivery ∷ redeliver ∷ refund ∷ discard ∷ [])
state_actions failed_delivery rider = some (confirm_return_to_store ∷ [])
state_actions cancelled customer = some []
state_actions cancelled admin = some (process_refund ∷ [])
state_actions cancelled rider = some []
state_actions _ _ = none

-- `getAvailableActions`
unfoldable pub get_available_actions : Status → Role → List Action
get_available_actions state role = or_else (state_actions state role) []
