-- ===== src/Cashfree/Handlers.antt =====
use meatvo_app.Refunds.Submit.{is_success}
use meatvo_app.Base.{
  Bool, List, Map, Option, Text, [], any, codes, false, if◌then◌else◌, lookup, none, not, or_else,
  some, take, text_eq, trim, true, ℕ, ◌&&◌, ◌+◌, ◌/◌, ◌==◌, ◌∷◌,
}
use meatvo_app.Store.{Order, Payment, Store, TransactionStatus}
use meatvo_app.Status.Names.{Status, cancelled, confirmed}
use meatvo_app.Payment.Success.{is_open_status, is_unconfirmed}
use meatvo_app.Lifecycle.Transition.{is_online}
use meatvo_app.Cashfree.Webhook.{
  Event, Hmac, Payload, WebhookRequest, paise, parse_cashfree_webhook_event, payment_success,
  verify_cashfree_webhook,
}
use meatvo_app.Cashfree.Api.{
  Gateway, GatewayPayment, create_order, find_successful, is_amount_mismatch, is_failure_status,
  received_amount, resolve_live_cashfree_order_status, resolve_successful_cashfree_payment,
}
use meatvo_app.Cashfree.Changes.{
  apply_payment_abandon, apply_payment_failure, cancel_unpaid, failed_transaction, latest_payment,
  mark_unpaid, pay_or_roll_back, set_order,
}
use mathlib.Core.Option

-- backend/src/modules/payments/cashfree.controller.js: `initiatePayment`, `handleWebhook`,
-- `getPaymentStatus`, `verifyPayment` and `abandonPayment`. Each runs in one transaction, which an
-- exception and most refusals roll back; errors of the database are left out. An order id that is no
-- positive integer is 0.

pub data Answer : Type 0 where
  order_id_required no_access no_payment not_payable not_online : Answer
  no_return_url initiation_failed check_failed amount_mismatch : Answer
  session_of : Text → Answer
  status_of : TransactionStatus → Status → Answer
  verified unpaid still_pending : Answer
  already_paid already_abandoned failed_and_cancelled abandoned : Answer

abbrev pub is_pending : TransactionStatus → Bool
is_pending TransactionStatus.pending = true
is_pending _ = false

abbrev pub is_failed : TransactionStatus → Bool
is_failed (TransactionStatus.other t) = text_eq t (codes "FAILED")
is_failed _ = false

-- The latest PENDING payment of the order.
abbrev pub pending_payment : ℕ → Map Payment → Option (ℕ × Payment)
pending_payment order_id [] = none
pending_payment order_id ((i, p) ∷ payments) =
    let rest = pending_payment order_id payments in
    if p.order_id == order_id && (p.is_cashfree && is_pending p.status) then some (i, p) else rest

-- The total, rounded to the two decimals of `payment_transactions.amount`.
abbrev pub amount_of : Order → ℕ
amount_of o = (o.total_amount + 5000) / 10000

-- The row that `initiatePayment` inserts.
abbrev pub new_payment : ℕ → Order → Text → Payment
new_payment order_id o session = record {
  order_id = order_id;
  status = TransactionStatus.pending;
  is_cashfree = true;
  session = session;
  amount = amount_of o;
}

-- `initiatePayment` for an order that may be paid, with the id of the new row.
unfoldable pub open_session : Gateway → Text → ℕ → ℕ → Order → Store → Store × Answer
open_session g return_url fresh order_id o s = elim (pending_payment order_id s.payments) [
  | some (i, p) ↦ (s, session_of p.session)
  | none ↦ elim return_url [
    | [] ↦ (s, no_return_url)
    | c ∷ t ↦ elim (create_order g order_id (amount_of o)) [
      | none ↦ (s, initiation_failed)
      | some session ↦ (
        record s { payments = (fresh, new_payment order_id o session) ∷ s.payments },
        session_of session,
      )
    ]
  ]
]

-- `initiatePayment`
unfoldable pub initiate_payment : Gateway → Text → ℕ → ℕ → ℕ → Store → Store × Answer
initiate_payment g return_url fresh user order_id s =
    if order_id == 0 then (s, order_id_required) else elim (lookup order_id s.orders) [
      | none ↦ (s, no_access)
      | some o ↦
          if not (o.customer_id == user)
          then (s, no_access)
          else if not (is_unconfirmed o.status)
          then (s, not_payable)
          else if not (is_online o.payment_mode)
          then (s, not_online)
          else open_session g return_url fresh order_id o s
    ]

-- What `handleWebhook` does with an event for a payment that is open.
unfoldable pub apply_event : Event → ℕ → Payment → Store → Store
apply_event e i p s = elim e.event_type [
  | payment_success ↦
      if is_amount_mismatch p.amount (paise (or_else e.amount 0))
      then s
      else (pay_or_roll_back i s).0
  | _ ↦ apply_payment_failure i p.order_id s
]

-- `handleWebhook` for an event with an order; `Number(null)` is 0.
unfoldable pub on_event : Event → ℕ → Store → Store
on_event e order_id s = elim (latest_payment order_id s.payments) [
  | none ↦ s
  | some (i, p) ↦ elim (lookup p.order_id s.orders) [
    | none ↦ s
    | some _ ↦ if is_open_status p.status then apply_event e i p s else s
  ]
]

-- `handleWebhook`, with whether the signature was valid; everything else is answered alike.
unfoldable pub handle_webhook :
    Hmac → (Text → Option Payload) → Text → WebhookRequest → Store → Store × Bool
handle_webhook hmac parse secret_key r s = elim (verify_cashfree_webhook hmac parse secret_key r) [
  | none ↦ (s, false)
  | some payload ↦ elim (parse_cashfree_webhook_event payload) [
    | none ↦ (s, true)
    | some e ↦ elim e.order_id [ none ↦ (s, true) | some order_id ↦ (on_event e order_id s, true) ]
  ]
]

-- The order's latest payment and its order, for the order's customer.
abbrev pub own_payment : ℕ → ℕ → Store → Option (ℕ × Payment × Order)
own_payment user order_id s = elim (latest_payment order_id s.payments) [
  | none ↦ none
  | some (i, p) ↦ elim (lookup order_id s.orders) [
    | none ↦ none
    | some o ↦ if o.customer_id == user then some (i, p, o) else none
  ]
]

-- The transaction of `applyPaymentSuccess`, with an answer to each outcome.
abbrev pub pay_and_answer : ℕ → Answer → Store → Store × Answer
pay_and_answer i done s =
    let (s', settled) = pay_or_roll_back i s in (s', if settled then done else check_failed)

-- `confirmIfPaidAtGateway`, with the payment's id from the gateway.
abbrev pub confirm_if_paid_at_gateway : ℕ → Payment → Order → Store → Option Text → Store × Answer
confirm_if_paid_at_gateway i p o s none = (s, check_failed)
confirm_if_paid_at_gateway i p o s (some []) = (s, status_of p.status o.status)
confirm_if_paid_at_gateway i p o s (some (c ∷ t)) =
    pay_and_answer i (status_of TransactionStatus.success confirmed) s

-- `getPaymentStatus` for an open payment, with the live status.
unfoldable pub check_open :
    Gateway → ℕ → ℕ → Payment → Order → Store → Option TransactionStatus → Store × Answer
check_open g order_id i p o s none = (s, check_failed)
check_open g order_id i p o s (some TransactionStatus.success) =
    confirm_if_paid_at_gateway i p o s (resolve_successful_cashfree_payment g order_id p.amount)
check_open g order_id i p o s (some live) =
    if is_failure_status live
    then (apply_payment_failure i order_id s, status_of failed_transaction cancelled)
    else (s, status_of live o.status)

-- `getPaymentStatus` for an order of the customer.
unfoldable pub check_payment : Gateway → ℕ → ℕ → Payment → Order → Store → Store × Answer
check_payment g order_id i p o s =
    if is_open_status p.status
    then check_open g order_id i p o s (resolve_live_cashfree_order_status g order_id)
    else if is_success p.status && is_unconfirmed o.status
    then pay_and_answer i (status_of p.status confirmed) s
    else (s, status_of p.status o.status)

-- `getPaymentStatus`
unfoldable pub get_payment_status : Gateway → ℕ → ℕ → Store → Store × Answer
get_payment_status g user order_id s =
    if order_id == 0 then (s, order_id_required) else elim (own_payment user order_id s) [
      | none ↦ (s, no_payment)
      | some (i, p, o) ↦ check_payment g order_id i p o s
    ]

-- `verifyPayment` with the gateway's payments.
unfoldable pub verify_found : ℕ → Payment → Store → Option (List GatewayPayment) → Store × Answer
verify_found i p s none = (s, check_failed)
verify_found i p s (some payments) = elim (find_successful payments) [
  | none ↦ (s, still_pending)
  | some e ↦
      if is_amount_mismatch p.amount (received_amount e)
      then (s, amount_mismatch)
      else pay_and_answer i verified s
]

-- `verifyPayment` with the live status.
unfoldable pub verify_live :
    Gateway → ℕ → ℕ → Payment → Store → Option TransactionStatus → Store × Answer
verify_live g order_id i p s none = (s, check_failed)
verify_live g order_id i p s (some live) =
    if is_failure_status live
    then (apply_payment_failure i order_id s, unpaid)
    else verify_found i p s (g.fetch_payments order_id)

-- `verifyPayment`
unfoldable pub verify_payment : Gateway → ℕ → ℕ → Store → Store × Answer
verify_payment g user order_id s =
    if order_id == 0 then (s, order_id_required) else elim (own_payment user order_id s) [
      | none ↦ (s, no_payment)
      | some (i, p, o) ↦
          if is_success p.status
          then pay_and_answer i verified s
          else if is_failed p.status
          then (s, unpaid)
          else verify_live g order_id i p s (resolve_live_cashfree_order_status g order_id)
    ]

-- `definitiveFailureReasons`, tried on the trimmed text's first 64 characters.
abbrev pub is_definitive_failure : Text → Bool
is_definitive_failure reason = any (text_eq (take 64 (trim reason))) (
    codes "payment_failed"
    ∷ codes "payment_declined"
    ∷ codes "sdk_error"
    ∷ codes "network_error"
    ∷ [])

abbrev pub is_success_row : Option (ℕ × Payment) → Bool
is_success_row none = false
is_success_row (some (i, p)) = is_success p.status

abbrev pub is_failed_row : Option (ℕ × Payment) → Bool
is_failed_row none = false
is_failed_row (some (i, p)) = is_failed p.status

-- `abandonPayment` for an order that waits for its payment; without a payment the coupon is kept.
unfoldable pub give_up : Bool → ℕ → Option (ℕ × Payment) → Store → Store × Answer
give_up definitive order_id latest s =
    if is_success_row latest
    then (s, already_paid)
    else if is_failed_row latest && not definitive
    then (set_order order_id mark_unpaid s, already_abandoned)
    else if definitive
    then elim latest [
      | none ↦ (set_order order_id cancel_unpaid s, failed_and_cancelled)
      | some (i, p) ↦ (apply_payment_failure i order_id s, failed_and_cancelled)
    ]
    else (apply_payment_abandon (Option.map (λ x. x.0) latest) order_id s, abandoned)

-- `abandonPayment`
unfoldable pub abandon_payment : ℕ → ℕ → Text → Store → Store × Answer
abandon_payment user order_id reason s =
    if order_id == 0 then (s, order_id_required) else elim (lookup order_id s.orders) [
      | none ↦ (s, no_access)
      | some o ↦
          if not (o.customer_id == user)
          then (s, no_access)
          else if not (is_online o.payment_mode)
          then (s, not_online)
          else if not (is_unconfirmed o.status)
          then (s, not_payable)
          else give_up (is_definitive_failure reason) order_id (latest_payment order_id s.payments)
              s
    ]
