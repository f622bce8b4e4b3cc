-- ===== src/Refunds/Stranded.antt =====
-- A refund of the weights after the refund of the whole order:
-- backend/src/services/cashfreeRefund.service.js, lines 120 to 128 and 174 to 185.
use meatvo_app.Base.{
  Bool, Bool-cases, Map, Option-cases, [], arith, codes, if◌then◌else◌, inl, inr, lookup, ltb, none,
  refl, some, true, update, ℕ, ◌&&◌, ◌+◌, ◌==◌, ◌∷◌, ◌≡◌, ◌≢◌,
}
use meatvo_app.Refunds.Rows.{GatewayId, PartialRefund}
use meatvo_app.Refunds.Gateway.{Post, create_refund}
use meatvo_app.Refunds.Submit.{
  Desk, Submission, failed_row, find_successful_cashfree_payment, is_failed_delivery, is_success,
  key_of, payment_not_found, refusal, request_refund, sent, submit_partial_refund_to_gateway,
  write_refund,
}
use meatvo_app.Store.{Payment, TransactionStatus}

abbrev is_funding : ℕ → Payment → Bool
is_funding o p = p.order_id == o && (p.is_cashfree && is_success p.status)

-- How many successful payments an order has at the gateway.
abbrev pub success_count : ℕ → Map Payment → ℕ
success_count o [] = 0
success_count o ((_, p) ∷ m) = (if is_funding o p then 1 else 0) + success_count o m

abbrev refunded_payment : Payment → Payment
refunded_payment p =
    if is_success p.status
    then record p { status = TransactionStatus.other (codes "REFUNDED") }
    else p

none_funding :
    (o i : ℕ) (m : Map Payment)
    → success_count o m ≡ 0
    → find_successful_cashfree_payment o (update i refunded_payment m) ≡ none
unfolding find_successful_cashfree_payment
none_funding o i [] h = refl
none_funding o i ((k, p) ∷ m) h = ground (arith, none_funding o i m)

sole_funding :
    (o i : ℕ) (p : Payment) (m : Map Payment)
    → find_successful_cashfree_payment o m ≡ some (i, p)
    → success_count o m ≡ 1
    → find_successful_cashfree_payment o (update i refunded_payment m) ≡ none
unfolding find_successful_cashfree_payment
sole_funding o i p [] e h = refl
sole_funding o i p ((k, q) ∷ m) e h = ground (arith, sole_funding o i p m, none_funding o i m)

refused_unsent :
    (r : PartialRefund) (y : Submission) (x : GatewayId) → refusal r ≡ some y → y ≢ sent x
unfolding refusal
refused_unsent r y x h e = ground arith

-- What a submission of a failed delivery's refund that the gateway accepts leaves of the payments.
sent-payments :
    (post : Post) (id : ℕ) (d : Desk) (r : PartialRefund) (x : GatewayId)
    → lookup id d.store.refunds ≡ some r
    → is_failed_delivery r.reason ≡ true
    → (submit_partial_refund_to_gateway post id d).1 ≡ sent x
    → (i : ℕ) × (p : Payment) × (find_successful_cashfree_payment r.order_id d.store.payments
        ≡ some (i, p))
      × ((submit_partial_refund_to_gateway post id d).0.store.payments
          ≡ update i refunded_payment d.store.payments)
unfolding submit_partial_refund_to_gateway request_refund
sent-payments post id d r x at whole h = elim (Option-cases (refusal r)) [
  | inr (y, refused) ↦ absurd (refused_unsent r y x refused (ground arith))
  | inl free ↦ elim (Option-cases (find_successful_cashfree_payment r.order_id d.store.payments)) [
    | inl unpaid ↦ ground arith
    | inr ((i, p), funded) ↦ elim (Bool-cases (r.amount == 0)) [
      | inl nothing ↦ ground arith
      | inr something ↦ elim (Bool-cases (ltb p.amount r.amount)) [
        | inl above ↦ ground arith
        | inr within ↦ elim (Option-cases (create_refund post r.order_id r.amount (key_of id r))) [
          | inl broken ↦ ground arith
          | inr (g, answered) ↦ (i, p, funded, ground arith)
        ]
      ]
    ]
  ]
]

unpaid_submission :
    (post : Post) (j : ℕ) (d : Desk) (q : PartialRefund)
    → lookup j d.store.refunds ≡ some q
    → refusal q ≡ none
    → find_successful_cashfree_payment q.order_id d.store.payments ≡ none
    → submit_partial_refund_to_gateway post j d ≡ (write_refund j failed_row d, payment_not_found)
unfolding submit_partial_refund_to_gateway
unpaid_submission post j d q at free unpaid =
    rw (at, free, unpaid, submit_partial_refund_to_gateway) refl

-- Once the gateway has accepted the refund of a failed delivery, and that order had one successful
-- payment, no other refund of the order is sent any more: its submission finds no payment, sends
-- nothing and marks it FAILED.
pub stranded_refund :
    (post again : Post) (id j : ℕ) (d : Desk) (r q : PartialRefund) (x : GatewayId)
    → lookup id d.store.refunds ≡ some r
    → is_failed_delivery r.reason ≡ true
    → success_count r.order_id d.store.payments ≡ 1
    → (submit_partial_refund_to_gateway post id d).1 ≡ sent x
    → lookup j (submit_partial_refund_to_gateway post id d).0.store.refunds ≡ some q
    → q.order_id ≡ r.order_id
    → refusal q ≡ none
    → submit_partial_refund_to_gateway again j (submit_partial_refund_to_gateway post id d).0 ≡ (
      write_refund j failed_row (submit_partial_refund_to_gateway post id d).0,
      payment_not_found,
    )
stranded_refund post again id j d r q x at whole sole h there its free =
    let d' = (submit_partial_refund_to_gateway post id d).0 in
    let (i, p, funded, left) = sent-payments post id d r x at whole h in
    let spent : find_successful_cashfree_payment q.order_id d'.store.payments ≡ none =
      rw (its, left) (sole_funding r.order_id i p d.store.payments funded sole) in
    unpaid_submission again j d' q there free spent
