-- ===== src/Refunds/Batch.antt =====
-- backend/src/services/cashfreeRefund.service.js, lines 206 to 397: the refunds of an order that are due,
-- the refund of a failed delivery, and the retry of what failed.
use meatvo_app.Base.{
  Bool, List, Map, Option, [], any, false, filter, if◌then◌else◌, length, none, not, some, suc,
  true, ℕ, ◌&&◌, ◌++◌, ◌+◌, ◌==◌, ◌∷◌,
}
use meatvo_app.Refunds.Rows.{PartialRefund, RefundReason, RefundStatus, order_key}
use meatvo_app.Refunds.Gateway.{Post}
use meatvo_app.Refunds.Submit.{
  Desk, Submission, already_processed, already_submitted, invalid_refund_amount, is_failed_delivery,
  not_online_payment, sent, submit_partial_refund_to_gateway,
}
use meatvo_app.Store.{PaymentMode}
use meatvo_app.Lifecycle.Transition.{is_online}

abbrev pub is_unnamed : PartialRefund → Bool
is_unnamed r = elim r.gateway_refund_id [ none ↦ true | some _ ↦ false ]

-- `status IN ('PENDING', 'FAILED')`
abbrev pub is_due_status : RefundStatus → Bool
is_due_status RefundStatus.pending = true
is_due_status RefundStatus.failed = true
is_due_status _ = false

abbrev pub is_due : ℕ → PartialRefund → Bool
is_due order_id r =
    r.order_id == order_id && (r.is_online && (is_unnamed r && is_due_status r.status))

-- `ORDER BY id ASC`
abbrev pub due_ids : ℕ → Map PartialRefund → List ℕ
due_ids order_id [] = []
due_ids order_id ((id, r) ∷ m) =
    let earlier = due_ids order_id m in if is_due order_id r then earlier ++ (id ∷ []) else earlier

-- The loop over the rows, with the results in their order.
abbrev pub submit_all : Post → List ℕ → Desk → Desk × List Submission
submit_all post [] d = (d, [])
submit_all post (id ∷ ids) d =
    let (d1, x) = submit_partial_refund_to_gateway post id d in
    let (d2, xs) = submit_all post ids d1 in (d2, x ∷ xs)

-- `processPendingRefundsForOrder`
unfoldable pub process_pending_refunds_for_order : Post → ℕ → Desk → Desk × List Submission
process_pending_refunds_for_order post order_id d =
    submit_all post (due_ids order_id d.store.refunds) d

-- `ORDER BY id DESC LIMIT 1`
unfoldable pub find_failed_delivery : ℕ → Map PartialRefund → Option (ℕ × PartialRefund)
find_failed_delivery order_id [] = none
find_failed_delivery order_id ((id, r) ∷ m) =
    let earlier = find_failed_delivery order_id m in
    if r.order_id == order_id && is_failed_delivery r.reason then some (id, r) else earlier

abbrev pub full_refund : ℕ → ℕ → PartialRefund
full_refund order_id amount = record {
  order_id = order_id;
  item_id = none;
  amount = amount;
  reason = RefundReason.failed_delivery;
  status = RefundStatus.pending;
  is_online = true;
  gateway_refund_id = none;
  key = some (order_key order_id);
}

-- The INSERT; the next number is given to it.
abbrev pub insert_refund : PartialRefund → Desk → Desk
insert_refund r d = record d {
  store = record d.store { refunds = (suc (length d.store.refunds), r) ∷ d.store.refunds };
}

-- `processFailedDeliveryRefund`. The INSERT's key is unique to the order and to this reason, so that
-- the index on the keys does not refuse it.
unfoldable pub process_failed_delivery_refund :
    Post → ℕ → ℕ → PaymentMode → Desk → Desk × Submission
process_failed_delivery_refund post order_id amount mode d =
    if not (is_online mode)
    then (d, not_online_payment)
    else if amount == 0
    then (d, invalid_refund_amount)
    else elim (find_failed_delivery order_id d.store.refunds) [
      | some (id, r) ↦
          if is_unnamed r
          then submit_partial_refund_to_gateway post id d
          else (d, already_submitted)
      | none ↦
          submit_partial_refund_to_gateway post (suc (length d.store.refunds))
            (insert_refund (full_refund order_id amount) d)
    ]

-- `SELECT DISTINCT order_id` of the recent failures.
abbrev pub retry_orders : (ℕ → Bool) → Map PartialRefund → List ℕ
retry_orders recent [] = []
retry_orders recent ((id, r) ∷ m) =
    let rest = retry_orders recent m in
    if (r.is_online && is_unnamed r)
      && (recent id && elim r.status [ RefundStatus.failed ↦ true | _ ↦ false ])
    then r.order_id ∷ filter (λ k. not (k == r.order_id)) rest
    else rest

-- `r.submitted`
abbrev pub is_submitted : Submission → Bool
is_submitted already_submitted = true
is_submitted already_processed = true
is_submitted (sent _) = true
is_submitted _ = false

abbrev pub retry_each : Post → List ℕ → Desk → Desk × (ℕ × ℕ)
retry_each post [] d = (d, (0, 0))
retry_each post (o ∷ orders) d =
    let (d1, results) = process_pending_refunds_for_order post o d in
    let (d2, (retried, succeeded)) = retry_each post orders d1 in
    (d2, (suc retried, (if any is_submitted results then 1 else 0) + succeeded))

-- `retryAllFailedRefunds`, where `recent` tells the rows of the last seven days.
unfoldable pub retry_all_failed_refunds : Post → (ℕ → Bool) → Desk → Desk × (ℕ × ℕ)
retry_all_failed_refunds post recent d = retry_each post (retry_orders recent d.store.refunds) d
