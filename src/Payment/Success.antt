-- ===== src/Payment/Success.antt =====
-- backend/src/modules/payments/payment-success.js: `confirmOrderAfterPayment` and `applyPaymentSuccess`,
-- which run in one transaction: where the stock is short, the exception undoes all of it.
use meatvo_app.Base.{
  Bool, Option, [], false, if◌then◌else◌, lookup, none, ok, some, true, update, ℕ, ◌>>=◌, ◌∷◌,
}
use meatvo_app.Base.Result.{Result}
use meatvo_app.Store.{
  Order, Payment, PaymentStatus, Store, TransactionStatus, initiated, other, pending, success,
}
use meatvo_app.Status.Names.{Status, confirmed, includes, payment_pending, placed}
use meatvo_app.Payment.Stock.{StockError, reserve_stock_for_paid_order}

-- `o.status IN ('PLACED', 'PAYMENT_PENDING')`, which is also UNCONFIRMED_ORDER_STATUSES.
abbrev pub is_unconfirmed : Status → Bool
is_unconfirmed = includes (placed ∷ payment_pending ∷ [])

abbrev pub confirm_row : Order → Order
confirm_row o =
    if is_unconfirmed o.status
    then record o { status = confirmed; payment_status = PaymentStatus.paid }
    else o

abbrev pub confirms : Option Order → Bool
confirms none = false
confirms (some o) = is_unconfirmed o.status

-- `confirmOrderAfterPayment`, with whether the guarded UPDATE changed a row. Every customer of an
-- order is a row of `users`.
unfoldable pub confirm_order_after_payment : ℕ → Store → Result StockError (Store × Bool)
confirm_order_after_payment order_id s = do
  s' ← reserve_stock_for_paid_order order_id s
  ok (
    record s' { orders = update order_id confirm_row s'.orders },
    confirms (lookup order_id s'.orders),
  )

pub data Outcome : Type 0 where
  not_found order_recovered order_not_confirmable already_success invalid_status applied : Outcome

abbrev pub settle : Payment → Payment
settle p = record p { status = TransactionStatus.success }

abbrev pub is_open_status : TransactionStatus → Bool
is_open_status TransactionStatus.pending = true
is_open_status TransactionStatus.initiated = true
is_open_status _ = false

abbrev pub recovered : Store × Bool → Result StockError (Store × Outcome)
recovered (s, done) = ok (s, if done then order_recovered else order_not_confirmable)

abbrev pub as_applied : Store × Bool → Result StockError (Store × Outcome)
as_applied (s, done) = ok (s, applied)

-- `applyPaymentSuccess` behind the lock on the payment's row and its order's; the row is locked, so
-- the guarded UPDATE of the payment changes it.
abbrev pub settle_payment : ℕ → Payment → Order → Store → Result StockError (Store × Outcome)
settle_payment payment_id p o s =
    let recover = confirm_order_after_payment p.order_id s >>= recovered in
    let settled = record s { payments = update payment_id settle s.payments } in
    let confirm = confirm_order_after_payment p.order_id settled >>= as_applied in
    elim p.status [
      | success ↦ if is_unconfirmed o.status then recover else ok (s, already_success)
      | initiated ↦ confirm
      | pending ↦ confirm
      | other t ↦ ok (s, invalid_status)
    ]

-- `applyPaymentSuccess`: the order is the one that the payment's row names.
unfoldable pub apply_payment_success : ℕ → Store → Result StockError (Store × Outcome)
apply_payment_success payment_id s = elim (lookup payment_id s.payments) [
  | none ↦ ok (s, not_found)
  | some p ↦ elim (lookup p.order_id s.orders) [
    | none ↦ ok (s, not_found)
    | some o ↦ settle_payment payment_id p o s
  ]
]
