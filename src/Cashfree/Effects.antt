-- ===== src/Cashfree/Effects.antt =====
use meatvo_app.Refunds.Submit.{is_success}
use meatvo_app.Base.{
  Bool, Bool-cases, List, Option, Option-cases, Text, [], false, if◌then◌else◌, inl, inr, none,
  some, true, ℕ, ◌&&◌, ◌==◌, ◌∷◌,
}
use meatvo_app.Store.{Order, Payment, Store, TransactionStatus}
use meatvo_app.Status.Names.{cancelled}
use meatvo_app.Payment.Success.{is_open_status, is_unconfirmed}
use meatvo_app.Cashfree.Api.{
  Gateway, GatewayPayment, find_successful, is_amount_mismatch, is_failure_status, received_amount,
  resolve_live_cashfree_order_status, resolve_successful_cashfree_payment,
}
use meatvo_app.Cashfree.Changes.{apply_payment_failure, failed_transaction, pay_or_roll_back}
use meatvo_app.Cashfree.Handlers.{
  Answer, check_open, check_payment, confirm_if_paid_at_gateway, get_payment_status, is_failed,
  own_payment, status_of, verify_found, verify_live, verify_payment,
}

-- What `getPaymentStatus` and `verifyPayment` of backend/src/modules/payments/cashfree.controller.js do to
-- the database.

-- The store that a handler leaves: as it was, or with one payment settled or failed.
pub data Effect (s : Store) : Store → Type 0 where
  kept : Effect s s
  settled : (i : ℕ) → Effect s (pay_or_roll_back i s).0
  failed_payment : (i k : ℕ) → Effect s (apply_payment_failure i k s)

confirm-Effect :
    (i : ℕ) (p : Payment) (o : Order) (s : Store) (x : Option Text)
    → Effect s (confirm_if_paid_at_gateway i p o s x).0
confirm-Effect i p o s none = kept
confirm-Effect i p o s (some []) = kept
confirm-Effect i p o s (some (c ∷ t)) = settled i

check_failure-Effect :
    (k i : ℕ) (s : Store) (b : Bool) (a a' : Answer)
    → Effect s (if◌then◌else◌ {A = Store × Answer} b (apply_payment_failure i k s, a) (s, a')).0
check_failure-Effect k i s true a a' = failed_payment i k
check_failure-Effect k i s false a a' = kept

check_open-Effect :
    (g : Gateway) (k i : ℕ) (p : Payment) (o : Order) (s : Store) (x : Option TransactionStatus)
    → Effect s (check_open g k i p o s x).0
unfolding check_open
check_open-Effect g k i p o s none = kept
check_open-Effect g k i p o s (some TransactionStatus.success) =
    confirm-Effect i p o s (resolve_successful_cashfree_payment g k p.amount)
check_open-Effect g k i p o s (some live) =
    check_failure-Effect k i s (is_failure_status live) (status_of failed_transaction cancelled)
      (status_of live o.status)

pub check-Effect :
    (g : Gateway) (user k : ℕ) (s : Store) → Effect s (get_payment_status g user k s).0
unfolding get_payment_status check_payment
check-Effect g user k s = elim (Bool-cases (k == 0)) [
  | inl bad ↦ rw (bad, get_payment_status) kept
  | inr fine ↦ elim (Option-cases (own_payment user k s)) [
    | inl none_own ↦ rw (fine, none_own, get_payment_status) kept
    | inr ((i, p, o), own) ↦ elim (Bool-cases (is_open_status p.status)) [
      | inl is_open ↦
          rw (fine, own, is_open, get_payment_status, check_payment)
            (check_open-Effect g k i p o s (resolve_live_cashfree_order_status g k))
      | inr closed ↦ elim (Bool-cases (is_success p.status && is_unconfirmed o.status)) [
        | inl late ↦ rw (fine, own, closed, late, get_payment_status, check_payment) (settled i)
        | inr done ↦ rw (fine, own, closed, done, get_payment_status, check_payment) kept
      ]
    ]
  ]
]

found-Effect :
    (i : ℕ) (p : Payment) (s : Store) (x : Option (List GatewayPayment))
    → Effect s (verify_found i p s x).0
unfolding verify_found
found-Effect i p s none = kept
found-Effect i p s (some payments) = elim (Option-cases (find_successful payments)) [
  | inl pending_yet ↦ rw (pending_yet, verify_found) kept
  | inr (e, paid_there) ↦ elim (Bool-cases (is_amount_mismatch p.amount (received_amount e))) [
    | inl differs ↦ rw (paid_there, differs, verify_found) kept
    | inr equal ↦ rw (paid_there, equal, verify_found) (settled i)
  ]
]

live-Effect :
    (g : Gateway) (k i : ℕ) (p : Payment) (s : Store) (x : Option TransactionStatus)
    → Effect s (verify_live g k i p s x).0
unfolding verify_live
live-Effect g k i p s none = kept
live-Effect g k i p s (some live) = elim (Bool-cases (is_failure_status live)) [
  | inl fails ↦ rw (fails, verify_live) (failed_payment i k)
  | inr goes_on ↦ rw (goes_on, verify_live) (found-Effect i p s (g.fetch_payments k))
]

pub verify-Effect : (g : Gateway) (user k : ℕ) (s : Store) → Effect s (verify_payment g user k s).0
unfolding verify_payment
verify-Effect g user k s = elim (Bool-cases (k == 0)) [
  | inl bad ↦ rw (bad, verify_payment) kept
  | inr fine ↦ elim (Option-cases (own_payment user k s)) [
    | inl none_own ↦ rw (fine, none_own, verify_payment) kept
    | inr ((i, p, o), own) ↦ elim (Bool-cases (is_success p.status)) [
      | inl done ↦ rw (fine, own, done, verify_payment) (settled i)
      | inr not_done ↦ elim (Bool-cases (is_failed p.status)) [
        | inl over ↦ rw (fine, own, not_done, over, verify_payment) kept
        | inr unsettled ↦
            rw (fine, own, not_done, unsettled, verify_payment)
              (live-Effect g k i p s (resolve_live_cashfree_order_status g k))
      ]
    ]
  ]
]
