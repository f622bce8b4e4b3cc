-- ===== src/Refunds/Submit.antt =====
-- backend/src/services/cashfreeRefund.service.js, lines 11 to 204: the submission of one refund. The
-- notes in `metadata` are left out.
use meatvo_app.Base.{
  Bool, List, Map, Option, Text, [], codes, false, if◌then◌else◌, lookup, ltb, none, not, or_else,
  some, text_eq, to_upper, true, update, ℕ, ◌&&◌, ◌==◌, ◌∷◌,
}
use meatvo_app.Refunds.Rows.{
  GatewayId, PartialRefund, RefundKey, RefundReason, RefundStatus, row_key,
}
use meatvo_app.Refunds.Gateway.{Post, create_refund, refund_name}
use meatvo_app.Store.{Payment, Store, TransactionStatus}

-- A request that was sent to the gateway for a refund, and whether the gateway answered.
pub record Call : Type 0 where
  pub row_id : ℕ
  pub order_id : ℕ
  pub amount : ℕ
  pub key : RefundKey
  pub accepted : Bool

-- The database and the requests so far, the latest first.
pub record Desk : Type 0 where
  pub store : Store
  pub calls : List Call

-- `buildIdempotencyKey`, for a row.
abbrev pub build_idempotency_key : ℕ → PartialRefund → RefundKey
build_idempotency_key id r = row_key r.reason r.order_id id

abbrev pub is_success : TransactionStatus → Bool
is_success TransactionStatus.success = true
is_success _ = false

-- `findSuccessfulCashfreePayment`; the payments stand with the latest first.
unfoldable pub find_successful_cashfree_payment : ℕ → Map Payment → Option (ℕ × Payment)
find_successful_cashfree_payment order_id [] = none
find_successful_cashfree_payment order_id ((i, p) ∷ payments) =
    let rest = find_successful_cashfree_payment order_id payments in
    if p.order_id == order_id && (p.is_cashfree && is_success p.status) then some (i, p) else rest

abbrev pub write_refund : ℕ → (PartialRefund → PartialRefund) → Desk → Desk
write_refund id f d = record d { store = record d.store { refunds = update id f d.store.refunds } }

-- `markRefundSubmitted` on the row: COALESCE keeps the name that a NULL would replace.
abbrev pub submitted_row : GatewayId → Text → PartialRefund → PartialRefund
submitted_row name status r = record r {
  status =
      if text_eq (to_upper status) (codes "SUCCESS")
      then RefundStatus.success
      else RefundStatus.submitted;
  gateway_refund_id = some name;
}

-- `markRefundFailed` on the row
abbrev pub failed_row : PartialRefund → PartialRefund
failed_row r = elim r.gateway_refund_id [
  | none ↦ record r { status = RefundStatus.failed }
  | some _ ↦ r
]

-- `UPDATE payment_transactions SET status = 'REFUNDED' WHERE id = $1 AND status = 'SUCCESS'`
abbrev pub refund_payment : ℕ → Desk → Desk
refund_payment id d = record d {
  store = record d.store {
    payments =
        update id
          (λ p.
            if is_success p.status
            then record p { status = TransactionStatus.other (codes "REFUNDED") }
            else p)
          d.store.payments;
  };
}

pub data Submission : Type 0 where
  refund_not_found already_submitted not_online_payment already_processed : Submission
  payment_not_found invalid_refund_amount amount_exceeds_payment gateway_error : Submission
  sent : GatewayId → Submission

-- `terminalStatuses`
abbrev pub is_terminal : RefundStatus → Bool
is_terminal RefundStatus.success = true
is_terminal RefundStatus.submitted = true
is_terminal _ = false

abbrev pub is_failed_delivery : RefundReason → Bool
is_failed_delivery RefundReason.failed_delivery = true
is_failed_delivery _ = false

-- The refusals of the row, in the order of the code.
unfoldable pub refusal : PartialRefund → Option Submission
refusal r = elim r.gateway_refund_id [
  | some _ ↦ some already_submitted
  | none ↦
      if not r.is_online
      then some not_online_payment
      else if is_terminal r.status
      then some already_processed
      else none
]

abbrev pub key_of : ℕ → PartialRefund → RefundKey
key_of id r = or_else r.key (build_idempotency_key id r)

-- The request to the gateway and what is written after it.
unfoldable pub request_refund : Post → ℕ → PartialRefund → ℕ → RefundKey → Desk → Desk × Submission
request_refund post id r payment_id key d =
    let call : Bool → Call = λ b. record {
      row_id = id;
      order_id = r.order_id;
      amount = r.amount;
      key = key;
      accepted = b;
    } in
    elim (create_refund post r.order_id r.amount key) [
      | none ↦
          (write_refund id failed_row (record d { calls = call false ∷ d.calls }), gateway_error)
      | some g ↦
          let d1 : Desk =
            write_refund id (submitted_row (refund_name g) g.status)
              (record d { calls = call true ∷ d.calls }) in
          (
            if is_failed_delivery r.reason then refund_payment payment_id d1 else d1,
            sent (refund_name g),
          )
    ]

-- `submitPartialRefundToGateway`
unfoldable pub submit_partial_refund_to_gateway : Post → ℕ → Desk → Desk × Submission
submit_partial_refund_to_gateway post id d = elim (lookup id d.store.refunds) [
  | none ↦ (d, refund_not_found)
  | some r ↦ elim (refusal r) [
    | some x ↦ (d, x)
    | none ↦ elim (find_successful_cashfree_payment r.order_id d.store.payments) [
      | none ↦ (write_refund id failed_row d, payment_not_found)
      | some (payment_id, p) ↦
          let key = key_of id r in
          let keyed = write_refund id (λ x. record x { key = some key }) d in
          if r.amount == 0
          then (keyed, invalid_refund_amount)
          else if ltb p.amount r.amount
          then (write_refund id failed_row keyed, amount_exceeds_payment)
          else request_refund post id r payment_id key keyed
    ]
  ]
]
