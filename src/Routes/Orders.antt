-- ===== src/Routes/Orders.antt =====
use meatvo_app.Base.{
  Bool, List, Option, Text, [], err, false, if◌then◌else◌, length, lookup, none, not, ok, some,
  true, update, ℕ, ◌&&◌, ◌-◌, ◌==◌, ◌∷◌,
}
use meatvo_app.Status.Names.{
  Status, cancelled, delivered, includes, out_for_delivery, packed, status_eq,
}
use meatvo_app.Status.Assignment.{AssignmentStatus}
use meatvo_app.Machine.Roles.{Role, admin, customer, delivery, role_eq}
use meatvo_app.Store.{Assignment, Coupon, Order, Store}
use meatvo_app.Lifecycle.Transition.{
  LifecycleError, transition_order_state, weight_reconciliation_pending,
}
use meatvo_app.Packing.Rows.{LineWeight, order_missing}
use meatvo_app.Packing.Flow.{
  FlowError, not_moved, not_reconciled, pack_order_with_weight_reconciliation,
}
use meatvo_app.Pricing.Coupon.{Reason, invalid, units, valid, validate_coupon_for_order}
use meatvo_app.Routes.Guard.{actor_of, is_assigned}
-- `updateOrderStatus` and `applyCoupon` of backend/src/modules/orders/orders.controller.js. The rows that a
-- response repeats, the logs and the names of products in messages are left out.
use mathlib.Core.Option

-- `req.user`
pub record User : Type 0 where
  pub id : ℕ
  pub role : Role

-- The responses of `updateOrderStatus`.
pub data StatusAnswer : Type 0 where
  no_order unchanged not_yours not_for_customers not_assigned_to_you not_for_riders : StatusAnswer
  packed_from : ℕ → Status → StatusAnswer
  moved_from : Status → StatusAnswer
  not_packed : FlowError → StatusAnswer
  refused : LifecycleError → StatusAnswer

-- The statuses that a delivery partner may set.
abbrev pub rider_statuses : List Status
rider_statuses = out_for_delivery ∷ delivered ∷ []

-- The refusals before the status is changed.
unfoldable pub check_update : User → Order → Status → Option StatusAnswer
check_update u o target =
    if role_eq u.role customer
    then if not (o.customer_id == u.id)
      then some not_yours
      else if not (status_eq target cancelled)
      then some not_for_customers
      else none
    else if not (role_eq u.role delivery)
    then none
    else if not (is_assigned u.id o)
    then some not_assigned_to_you
    else if not (includes rider_statuses target)
    then some not_for_riders
    else none

abbrev pub delivered_row : Assignment → Assignment
delivered_row a = record a { status = AssignmentStatus.delivered }

-- `UPDATE order_assignments SET status = 'DELIVERED'`, for a delivery partner who delivered.
abbrev pub close_assignment : User → ℕ → Status → Store → Store
close_assignment u order_id target s =
    if status_eq target delivered && role_eq u.role delivery
    then record s {
      orders =
          update order_id (λ o. record o { assignment = Option.map delivered_row o.assignment })
            s.orders;
    }
    else s

-- The packing, for which an admin may leave the weights out.
abbrev pub pack_update : User → ℕ → List LineWeight → Store → Store × StatusAnswer
pack_update u order_id weights s =
    let skip = role_eq u.role admin && length weights == 0 in
    let (s', r) =
      pack_order_with_weight_reconciliation order_id weights skip (actor_of u.role) false s in
    (s', elim r [ err e ↦ not_packed e | ok (total, old) ↦ packed_from total old ])

-- The transition, which an admin may force past the payment.
unfoldable pub move_update : User → ℕ → Status → Store → Store × StatusAnswer
move_update u order_id target s =
    elim (transition_order_state order_id target (actor_of u.role) (role_eq u.role admin) s) [
      | err e ↦ (s, refused e)
      | ok (s', old) ↦ (close_assignment u order_id target s', moved_from old)
    ]

-- `updateOrderStatus`
unfoldable pub update_order_status :
    User → ℕ → Status → List LineWeight → Store → Store × StatusAnswer
update_order_status u order_id target weights s = elim (lookup order_id s.orders) [
  | none ↦ (s, no_order)
  | some o ↦ if status_eq o.status target then (s, unchanged) else elim (check_update u o target) [
    | some answer ↦ (s, answer)
    | none ↦
        if status_eq target packed
        then pack_update u order_id weights s
        else move_update u order_id target s
  ]
]

-- The messages that the test of the exception handler finds.
abbrev pub is_client_error : LifecycleError → Bool
is_client_error weight_reconciliation_pending = false
is_client_error _ = true

abbrev pub is_client_flow_error : FlowError → Bool
is_client_flow_error (not_moved e) = is_client_error e
is_client_flow_error (not_reconciled order_missing) = true
is_client_flow_error (not_reconciled _) = false

-- The status code of a response.
unfoldable pub status_code : StatusAnswer → ℕ
status_code no_order = 404
status_code not_yours = 403
status_code not_for_customers = 403
status_code not_assigned_to_you = 403
status_code not_for_riders = 400
status_code (not_packed e) = if is_client_flow_error e then 400 else 500
status_code (refused e) = if is_client_error e then 400 else 500
status_code _ = 200

pub data CouponAnswer : Type 0 where
  coupon_refused : Reason → CouponAnswer
  coupon_applied : Coupon → ℕ → ℕ → CouponAnswer  -- the discount and the final total, in units

-- `applyCoupon`; a user id that is missing is 0.
unfoldable pub apply_coupon : Text → ℕ → ℕ → Store → CouponAnswer
apply_coupon code order_total user_id s =
    elim (validate_coupon_for_order code order_total user_id s) [
      | invalid r ↦ coupon_refused r
      | valid c discount ↦ coupon_applied c discount (units order_total - discount)
    ]
