-- ===== src/Cashfree/Changes.antt =====
use meatvo_app.Lifecycle.Transition.{is_online}
use meatvo_app.Base.{
  Bool, Map, Option, [], codes, err, false, if◌then◌else◌, none, ok, some, true, update, ℕ, ◌&&◌,
  ◌==◌, ◌∷◌,
}
use meatvo_app.Store.{Order, Payment, PaymentStatus, Store, TransactionStatus}
use meatvo_app.Status.Names.{cancelled}
use meatvo_app.Pricing.Coupon.{release_coupon_for_order}
use meatvo_app.Payment.Success.{apply_payment_success, is_open_status, is_unconfirmed}

-- The rows that backend/src/modules/payments/cashfree.controller.js reads and writes for a payment that
-- fails or is abandoned. Socket events are left out.

-- The status FAILED, of a payment and of an order's payment.
abbrev pub failed_transaction : TransactionStatus
failed_transaction = TransactionStatus.other (codes "FAILED")

abbrev pub payment_failed_status : PaymentStatus
payment_failed_status = PaymentStatus.other (codes "FAILED")

-- `ORDER BY created_at DESC LIMIT 1` among the order's payments through the gateway.
abbrev pub latest_payment : ℕ → Map Payment → Option (ℕ × Payment)
latest_payment order_id [] = none
latest_payment order_id ((i, p) ∷ payments) =
    let rest = latest_payment order_id payments in
    if p.order_id == order_id && p.is_cashfree then some (i, p) else rest

abbrev pub set_payment : ℕ → TransactionStatus → Store → Store
set_payment i st s = record s { payments = update i (λ p. record p { status = st }) s.payments }

abbrev pub set_order : ℕ → (Order → Order) → Store → Store
set_order order_id f s = record s { orders = update order_id f s.orders }

abbrev pub cancel_unpaid : Order → Order
cancel_unpaid o = record o { status = cancelled; payment_status = payment_failed_status }

-- `applyPaymentFailure`
unfoldable pub apply_payment_failure : ℕ → ℕ → Store → Store
apply_payment_failure payment_id order_id s =
    (release_coupon_for_order order_id
      (set_order order_id cancel_unpaid (set_payment payment_id failed_transaction s))).0

abbrev pub fail_open : Payment → Payment
fail_open p = if is_open_status p.status then record p { status = failed_transaction } else p

abbrev pub mark_unpaid : Order → Order
mark_unpaid o = record o { payment_status = payment_failed_status }

abbrev pub mark_retryable : Order → Order
mark_retryable o = if is_unconfirmed o.status && is_online o.payment_mode then mark_unpaid o else o

-- `applyPaymentAbandon`, for the payment if there is one.
unfoldable pub apply_payment_abandon : Option ℕ → ℕ → Store → Store
apply_payment_abandon payment order_id s =
    let s1 : Store = elim payment [
      | none ↦ s
      | some i ↦ record s { payments = update i fail_open s.payments }
    ] in
    set_order order_id mark_retryable s1

-- A transaction around `applyPaymentSuccess`: what throws is rolled back.
abbrev pub pay_or_roll_back : ℕ → Store → Store × Bool
pay_or_roll_back payment_id s = elim (apply_payment_success payment_id s) [
  | err _ ↦ (s, false)
  | ok (s', _) ↦ (s', true)
]
