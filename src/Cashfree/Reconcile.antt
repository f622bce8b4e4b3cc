-- ===== src/Cashfree/Reconcile.antt =====
use meatvo_app.Base.{
  Bool, List, Map, Option, Text, [], any, codes, err, false, filter, if◌then◌else◌, length, lookup,
  none, ok, some, take, text_eq, to_upper, true, ℕ, ◌&&◌, ◌+◌, ◌∷◌,
}
use meatvo_app.Store.{Order, Payment, Store}
use meatvo_app.Pricing.Coupon.{release_coupon_for_order}
use meatvo_app.Payment.Success.{
  Outcome, applied, apply_payment_success, is_open_status, is_unconfirmed, order_recovered,
}
use meatvo_app.Lifecycle.Transition.{is_online}
use meatvo_app.Cashfree.Api.{Gateway, get_order_status, resolve_successful_cashfree_payment}
use meatvo_app.Cashfree.Changes.{cancel_unpaid, failed_transaction, set_order, set_payment}
use mathlib.Core.List.{reverse}

-- backend/src/services/payment-reconciliation.service.js: `cancelOrderForPaymentFailure` and
-- `reconcileStalePayments`. Every payment through the gateway has the gateway's id of its order, since
-- only `initiatePayment` writes one. What is old enough is a parameter, `is_stale`, on the rows' ids.

-- `cancelOrderForPaymentFailure`
unfoldable pub cancel_order_for_payment_failure : ℕ → Store → Store
cancel_order_for_payment_failure order_id s =
    (release_coupon_for_order order_id
      (set_order order_id (λ o. if is_unconfirmed o.status then cancel_unpaid o else o) s)).0

-- `result.applied`
abbrev pub is_applied : Outcome → Bool
is_applied applied = true
is_applied order_recovered = true
is_applied _ = false

-- The transaction for a payment that the gateway confirms.
unfoldable pub settle_stale : ℕ → Store → Option Text → Store × Bool
settle_stale i s (some (c ∷ t)) = elim (apply_payment_success i s) [
  | err _ ↦ (s, false)
  | ok (s', r) ↦ if is_applied r then (s', true) else (s, false)
]
settle_stale i s _ = (s, false)

-- CASHFREE_SUCCESS_STATUSES and CASHFREE_FAILURE_STATUSES
abbrev pub is_paid_text : Text → Bool
is_paid_text t = any (text_eq (to_upper t)) (codes "SUCCESS" ∷ codes "PAID" ∷ [])

abbrev pub is_failure_text : Text → Bool
is_failure_text t =
    any (text_eq (to_upper t)) (codes "FAILED" ∷ codes "CANCELLED" ∷ codes "EXPIRED" ∷ [])

-- One round of the loop with the gateway's status, and whether it counts as an update.
unfoldable pub reconcile_payment : Gateway → ℕ → Payment → Store → Option Text → Store × Bool
reconcile_payment g i p s none = (s, false)
reconcile_payment g i p s (some t) =
    if is_paid_text t
    then settle_stale i s (resolve_successful_cashfree_payment g p.order_id p.amount)
    else if is_failure_text t
    then (cancel_order_for_payment_failure p.order_id (set_payment i failed_transaction s), true)
    else (s, false)

unfoldable pub reconcile_all : Gateway → List (ℕ × Payment) → Store → Store × ℕ
reconcile_all g [] s = (s, 0)
reconcile_all g ((i, p) ∷ rows) s =
    let (s1, done) = reconcile_payment g i p s (get_order_status g p.order_id) in
    let (s2, updated) = reconcile_all g rows s1 in (s2, (if done then 1 else 0) + updated)

abbrev pub waits_for_payment : Order → Bool
waits_for_payment o = is_online o.payment_mode && is_unconfirmed o.status

abbrev pub is_due : (ℕ → Bool) → Map Order → ℕ × Payment → Bool
is_due is_stale orders (i, p) =
    p.is_cashfree
    && (is_open_status p.status
        && (is_stale i
            && (elim (lookup p.order_id orders) [ none ↦ false | some o ↦ waits_for_payment o ])))

-- `reconcileStalePayments`, with the numbers of payments checked and updated: the oldest first, 50 at most.
unfoldable pub reconcile_stale_payments : Gateway → (ℕ → Bool) → Store → Store × (ℕ × ℕ)
reconcile_stale_payments g is_stale s =
    let rows = take 50 (reverse (filter (is_due is_stale s.orders) s.payments)) in
    let (s', updated) = reconcile_all g rows s in (s', (length rows, updated))
