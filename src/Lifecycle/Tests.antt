-- ===== src/Lifecycle/Tests.antt =====
use meatvo_app.Lifecycle.Timeline.{
  completed_states, entries, first_entry, get_order_actions, status_order,
}
use meatvo_app.Samples.{finished, order_in, paid_up, payment_in, store_of, unpaid}
use meatvo_app.Status.Names.{
  cancelled, confirmed, delivered, includes, packing_started, payment_pending, picked_up, placed,
}
-- Transitions, cancellations and histories at concrete inputs.
use meatvo_app.Packing.Flow.{pack_order_with_weight_reconciliation}
use meatvo_app.Base.{
  Bool, Bool-cases, [], arith, err, false, inl, inr, lookup, ok, refl, some, true, ◌==◌, ◌∷◌, ◌≡◌,
}
use meatvo_app.Machine.Roles.{admin, customer, rider, staff}
use meatvo_app.Machine.Rules.{can_actor_trigger_state, can_transition}
use meatvo_app.Store.{Order, PaymentStatus, Store, TransactionStatus, stock_of}
use meatvo_app.Payment.Stock.{
  reserve_stock_for_paid_order, restore_stock_for_order, should_restore_stock_on_cancel,
}
use meatvo_app.Payment.Success.{applied, apply_payment_success, confirm_order_after_payment}
use meatvo_app.Pricing.Coupon.{release_coupon_for_order}
use meatvo_app.Lifecycle.Transition.{
  check_transition, enter_state, invalid_transition, payment_blocks, transition_order_state,
  weight_blocks,
}
use meatvo_app.Lifecycle.Paid.{AllPaid}
use meatvo_app.Lifecycle.Cancel.{
  cancel_order, cancel_order_lifecycle, customer_cancellable, give_back, stock_restored,
}
use meatvo_app.Lifecycle.Returned.{cancel_order_lifecycle_stock}
use meatvo_app.Lifecycle.Cancelled.{cancel_order_succeeds, cancel_order_undoes_payment}
use meatvo_app.Lifecycle.History.{Reach-AllPaid, here, next, pack, pay, transition}

-- Moving the paid order to PACKING_STARTED.
packing_allowed :
    transition_order_state 1 packing_started staff false paid_up
    ≡ ok (enter_state 1 packing_started paid_up, confirmed)
unfolding transition_order_state check_transition can_transition can_actor_trigger_state
    payment_blocks weight_blocks
packing_allowed = refl

-- Delivering before dispatch is refused.
too_early :
    transition_order_state 1 delivered rider false paid_up
    ≡ err (invalid_transition confirmed delivered)
unfolding transition_order_state check_transition can_transition
too_early = refl

cancel_order_lifecycle_stock_example :
    stock_of 7 (cancel_order_lifecycle 1 admin false finished).0 ≡ some 10
unfolding should_restore_stock_on_cancel
cancel_order_lifecycle_stock_example =
    cancel_order_lifecycle_stock 1 7 admin false finished (order_in delivered PaymentStatus.paid)
      refl (refl, tt)

-- A delivered order is not cancelled, and its stock is given back all the same.
delivered_cancel :
    (cancel_order_lifecycle 1 admin false finished).1 ≡ err (invalid_transition delivered cancelled)
unfolding cancel_order_lifecycle transition_order_state check_transition can_transition give_back
    should_restore_stock_on_cancel release_coupon_for_order restore_stock_for_order
delivered_cancel = refl

cancel_order_succeeds_example :
    ((cancel_order 1 5 paid_up).1 ≡ stock_restored)
    × ((b : Bool) × (lookup 1 (cancel_order 1 5 paid_up).0.orders
          ≡ some (record (order_in confirmed PaymentStatus.paid) {
            status = cancelled;
            coupon_released = b;
          })))
unfolding should_restore_stock_on_cancel
cancel_order_succeeds_example =
    cancel_order_succeeds 1 5 paid_up (order_in confirmed PaymentStatus.paid) refl refl refl

refused_here :
    (o : Order)
    → lookup 1 finished.orders ≡ some o
    → o.customer_id ≡ 5
    → includes customer_cancellable o.status ≡ false
refused_here o e h = ground arith

unpaid_settled : apply_payment_success 3 unpaid ≡ ok (paid_up, applied)
unfolding apply_payment_success confirm_order_after_payment reserve_stock_for_paid_order
unpaid_settled = refl

cancel_order_undoes_payment_example : stock_of 7 (cancel_order 1 5 paid_up).0 ≡ some 10
cancel_order_undoes_payment_example =
    cancel_order_undoes_payment 3 7 10 5 unpaid paid_up (payment_in TransactionStatus.initiated)
      (order_in payment_pending PaymentStatus.pending) applied refl refl refl refl (refl, tt) refl
      unpaid_settled refl

unpaid-AllPaid : AllPaid unpaid
unpaid-AllPaid j o e mode past = elim (Bool-cases (1 == j)) [
  | inl same ↦ absurd (ground arith)
  | inr gone ↦ absurd (ground arith)
]

-- The order is paid for, its packing is started, and it is packed without a check of its weights.
Reach-AllPaid_example :
    AllPaid
      (pack_order_with_weight_reconciliation 1 [] true staff false
        (enter_state 1 packing_started paid_up)).0
Reach-AllPaid_example =
    Reach-AllPaid unpaid
      (pack_order_with_weight_reconciliation 1 [] true staff false
        (enter_state 1 packing_started paid_up)).0
      unpaid-AllPaid
      (next
        (next (next here (pay 3 applied unpaid_settled))
          (transition 1 packing_started confirmed staff false refl packing_allowed))
        (pack 1 [] true staff false refl refl))

-- An order that was picked up shows nothing done but its placing.
abbrev picked_up_store : Store
picked_up_store = store_of (order_in picked_up PaymentStatus.paid) TransactionStatus.success 8

stalled_timeline : completed_states (first_entry ∷ entries picked_up status_order) ≡ placed ∷ []
stalled_timeline = refl

strangers_actions : get_order_actions 1 6 customer picked_up_store ≡ []
unfolding get_order_actions
strangers_actions = refl
