-- ===== src/Lifecycle/Cancel.antt =====
-- backend/src/services/orderLifecycle.service.js, `cancelOrderLifecycle`, and the customer's handler
-- `cancelOrder` of backend/src/modules/orders/orders.controller.js. The stock and the coupon are given
-- back in a transaction of their own, before the transition is tried: what it wrote stays written
-- where the transition then throws.
use meatvo_app.Base.{
  Bool, List, [], err, false, if◌then◌else◌, lookup, none, not, ok, some, true, ℕ, ◌&&◌, ◌==◌, ◌∷◌,
}
use meatvo_app.Base.Result.{Result}
use meatvo_app.Status.Names.{Status, cancelled, confirmed, includes, payment_pending, placed}
use meatvo_app.Machine.Roles.{Role, customer}
use meatvo_app.Store.{PaymentStatus, Store}
use meatvo_app.Payment.Stock.{restore_stock_for_order, should_restore_stock_on_cancel}
use meatvo_app.Pricing.Coupon.{release_coupon_for_order}
use meatvo_app.Lifecycle.Transition.{
  LifecycleError, is_online, order_not_found, transition_order_state,
}

-- The transaction of `cancelOrderLifecycle`.
unfoldable pub give_back : ℕ → Status → Store → Store
give_back order_id current s =
    let restored =
      if should_restore_stock_on_cancel current then restore_stock_for_order order_id s else s in
    (release_coupon_for_order order_id restored).0

abbrev pub is_paid_status : PaymentStatus → Bool
is_paid_status PaymentStatus.paid = true
is_paid_status _ = false

-- What a cancellation that succeeds reports: the old status, and whether a refund was asked of the
-- payment gateway.
pub record CancelReport : Type 0 where
  pub old_status : Status
  pub refund_requested : Bool

-- `cancelOrderLifecycle`: the store that it leaves, and its result or what it threw.
unfoldable pub cancel_order_lifecycle :
    ℕ → Role → Bool → Store → Store × Result LifecycleError CancelReport
cancel_order_lifecycle order_id actor_role trigger_refund s = elim (lookup order_id s.orders) [
  | none ↦ (s, err order_not_found)
  | some o ↦
      let given = give_back order_id o.status s in
      elim (transition_order_state order_id cancelled actor_role false given) [
        | err e ↦ (given, err e)
        | ok (s', old) ↦ (
          s',
          ok (record {
            old_status = old;
            refund_requested =
                trigger_refund && (is_online o.payment_mode && is_paid_status o.payment_status);
          }),
        )
      ]
]

-- The responses of `cancelOrder`.
pub data CancelResponse : Type 0 where
  not_found not_owner not_cancellable cancelled_order stock_restored : CancelResponse
  failed_with : LifecycleError → CancelResponse

-- `['PLACED', 'PAYMENT_PENDING', 'CONFIRMED']`
abbrev pub customer_cancellable : List Status
customer_cancellable = placed ∷ payment_pending ∷ confirmed ∷ []

-- `cancelOrder`
unfoldable pub cancel_order : ℕ → ℕ → Store → Store × CancelResponse
cancel_order order_id customer_id s = elim (lookup order_id s.orders) [
  | none ↦ (s, not_found)
  | some o ↦
      if not (o.customer_id == customer_id)
      then (s, not_owner)
      else if not (includes customer_cancellable o.status)
      then (s, not_cancellable)
      else let (s', r) = cancel_order_lifecycle order_id customer true s in
        (
          s',
          elim r [
            | err e ↦ failed_with e
            | ok _ ↦
                if should_restore_stock_on_cancel o.status then stock_restored else cancelled_order
          ],
        )
]
