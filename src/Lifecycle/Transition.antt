-- ===== src/Lifecycle/Transition.antt =====
-- backend/src/services/orderLifecycle.service.js, `transitionOrderState` and `handleStateActions`, with
-- `cancelRiderAssignmentForOrder` of assignment.service.js and the dispatch guard of
-- backend/src/utils/weightReconciliationDispatch.util.js. Notifications, socket events and logs change
-- no row and are left out, and so are the assignment of a rider, which runs behind the response, and
-- the amounts of a rider's earnings.
use mathlib.Core.Option
use meatvo_app.Base.{
  Bool, List, Option, [], err, false, if◌then◌else◌, lookup, none, not, ok, some, true, update, ℕ,
  ◌&&◌, ◌||◌, ◌∷◌,
}
use meatvo_app.Base.Result.{Result}
use meatvo_app.Status.Names.{
  Status, cancelled, confirmed, delivered, includes, out_for_delivery, packed, packing_started,
  rider_accepted, rider_assigned, rider_rejected, status_eq,
}
use meatvo_app.Machine.Rules.{can_actor_trigger_state, can_transition}
use meatvo_app.Machine.Roles.{Role, admin, role_eq}
use meatvo_app.Store.{
  Assignment, Order, PaymentMode, PaymentStatus, ReconStatus, Store, completed, not_required,
  online,
}
use meatvo_app.Status.Assignment.{AssignmentStatus}

pub data LifecycleError : Type 0 where
  order_not_found payment_required weight_reconciliation_pending : LifecycleError
  invalid_transition : Status → Status → LifecycleError
  role_cannot_trigger : Role → Status → LifecycleError

-- `postConfirmStates`
abbrev pub post_confirm_states : List Status
post_confirm_states =
    confirmed ∷ packing_started ∷ packed ∷ rider_assigned ∷ rider_accepted ∷ out_for_delivery
    ∷ delivered ∷ []

-- `['PAID', 'PAYMENT_VERIFIED'].includes(paymentStatus)`
abbrev pub is_settled : PaymentStatus → Bool
is_settled PaymentStatus.paid = true
is_settled PaymentStatus.payment_verified = true
is_settled _ = false

abbrev pub is_online : PaymentMode → Bool
is_online online = true
is_online _ = false

-- The condition under which an unsettled online payment stops the transition.
unfoldable pub payment_blocks : Order → Status → Role → Bool → Bool
payment_blocks o new_state actor_role admin_override =
    is_online o.payment_mode
    && (includes post_confirm_states new_state
        && (not (is_settled o.payment_status)
            && (not (status_eq new_state cancelled)
                && not (role_eq actor_role admin && admin_override))))

-- `isWeightReconciliationCompleteForDispatch`
unfoldable pub is_weight_reconciliation_complete_for_dispatch : ReconStatus → Bool
is_weight_reconciliation_complete_for_dispatch completed = true
is_weight_reconciliation_complete_for_dispatch not_required = true
is_weight_reconciliation_complete_for_dispatch _ = false

-- The condition under which the weights stop the transition.
unfoldable pub weight_blocks : Order → Status → Bool
unfolding is_weight_reconciliation_complete_for_dispatch
weight_blocks o new_state =
    (status_eq new_state packed || status_eq new_state out_for_delivery)
    && not (is_weight_reconciliation_complete_for_dispatch o.recon_status)

-- `oa.status = ANY(['ASSIGNED', 'ACCEPTED', 'PICKED'])`
abbrev pub is_live : AssignmentStatus → Bool
is_live AssignmentStatus.assigned = true
is_live AssignmentStatus.accepted = true
is_live AssignmentStatus.picked = true
is_live _ = false

abbrev pub cancel_live : Assignment → Assignment
cancel_live a = if is_live a.status then record a { status = AssignmentStatus.cancelled } else a

-- `cancelRiderAssignmentForOrder`
unfoldable pub cancel_rider_assignment : ℕ → Store → Store
cancel_rider_assignment order_id s = record s {
  orders =
      update order_id (λ o. record o { assignment = Option.map cancel_live o.assignment }) s.orders;
}

-- `UPDATE orders SET status = $1 WHERE id = $2`
abbrev pub set_status : ℕ → Status → Store → Store
set_status order_id state s = record s {
  orders = update order_id (λ o. record o { status = state }) s.orders;
}

-- The rider whose earnings an entry into DELIVERED records: that of the order's assignment row.
abbrev pub rider_of : ℕ → Store → Option ℕ
rider_of order_id s = elim (lookup order_id s.orders) [
  | none ↦ none
  | some o ↦ Option.map (λ a. a.partner_user_id) o.assignment
]

record_earnings : ℕ → Store → Store
record_earnings order_id s = elim (rider_of order_id s) [
  | none ↦ s
  | some r ↦ record s { earnings = (order_id, r) ∷ s.earnings }
]

-- `handleStateActions`; its errors are caught there.
unfoldable pub handle_state_actions : ℕ → Status → Store → Store
unfolding record_earnings
handle_state_actions order_id rider_rejected s = set_status order_id packed s
handle_state_actions order_id delivered s = record_earnings order_id s
handle_state_actions order_id _ s = s

-- The row updates of a transition whose guards have passed.
unfoldable pub enter_state : ℕ → Status → Store → Store
unfolding cancel_rider_assignment handle_state_actions
enter_state order_id new_state s =
    let updated = set_status order_id new_state s in
    let released =
      if status_eq new_state cancelled then cancel_rider_assignment order_id updated else updated in
    handle_state_actions order_id new_state released

-- The guards, in the order of the code.
unfoldable pub check_transition : Order → Status → Role → Bool → Result LifecycleError (Unit {0})
check_transition o new_state actor_role admin_override =
    if not (can_transition o.status new_state)
    then err (invalid_transition o.status new_state)
    else if not (can_actor_trigger_state new_state actor_role)
    then err (role_cannot_trigger actor_role new_state)
    else if payment_blocks o new_state actor_role admin_override
    then err payment_required
    else if weight_blocks o new_state
    then err weight_reconciliation_pending
    else ok tt

-- `transitionOrderState`, with the old state that it reports.
unfoldable pub transition_order_state :
    ℕ → Status → Role → Bool → Store → Result LifecycleError (Store × Status)
transition_order_state order_id new_state actor_role admin_override s =
    elim (lookup order_id s.orders) [
      | none ↦ err order_not_found
      | some o ↦ elim (check_transition o new_state actor_role admin_override) [
        | err e ↦ err e
        | ok _ ↦ ok (enter_state order_id new_state s, o.status)
      ]
    ]
