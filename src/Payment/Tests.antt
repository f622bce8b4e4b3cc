-- ===== src/Payment/Tests.antt =====
-- Payments and stock at concrete inputs.
use meatvo_app.Base.{err, lookup, ok, refl, some, ◌≡◌, ◌≤◌}
use meatvo_app.Status.Names.{confirmed, payment_pending, placed}
use meatvo_app.Store.{PaymentStatus, TransactionStatus, stock_of}
use meatvo_app.Samples.{order_in, paid_up, payment_in, store_of, unpaid}
use meatvo_app.Payment.Stock.{
  insufficient_stock, reserve_stock_for_paid_order, restore_stock_for_order,
}
use meatvo_app.Payment.Success.{
  already_success, applied, apply_payment_success, confirm_order_after_payment,
}
use meatvo_app.Payment.Conservation.{restore-reserve}
use meatvo_app.Payment.Settled.{apply_payment_success_idem, apply_payment_success_open}

unpaid_succeeds : apply_payment_success 3 unpaid ≡ ok (paid_up, applied)
unfolding apply_payment_success confirm_order_after_payment reserve_stock_for_paid_order
unpaid_succeeds = refl

apply_payment_success_open_example :
    (applied ≡ applied)
    × (lookup 3 paid_up.payments ≡ some (payment_in TransactionStatus.success))
    × (lookup 1 paid_up.orders ≡ some (order_in confirmed PaymentStatus.paid))
    × (2 ≤ 10)
    × (stock_of 7 paid_up ≡ some 8)
apply_payment_success_open_example =
    apply_payment_success_open 3 7 10 unpaid (payment_in TransactionStatus.initiated)
      (order_in payment_pending PaymentStatus.pending) paid_up applied refl refl refl (refl, tt)
      refl unpaid_succeeds

apply_payment_success_idem_example : apply_payment_success 3 paid_up ≡ ok (paid_up, already_success)
apply_payment_success_idem_example =
    apply_payment_success_idem 3 unpaid paid_up applied unpaid_succeeds

reserved :
    reserve_stock_for_paid_order 1 unpaid ≡ ok (record unpaid { products = paid_up.products })
unfolding reserve_stock_for_paid_order
reserved = refl

restore-reserve_example :
    stock_of 7 (restore_stock_for_order 1 (record unpaid { products = paid_up.products }))
    ≡ stock_of 7 unpaid
restore-reserve_example =
    restore-reserve 1 7 unpaid (record unpaid { products = paid_up.products }) (refl, tt) reserved

-- One unit is too few for two.
short :
    reserve_stock_for_paid_order 1
      (store_of (order_in placed PaymentStatus.pending) TransactionStatus.initiated 1)
    ≡ err (insufficient_stock 7)
unfolding reserve_stock_for_paid_order
short = refl
