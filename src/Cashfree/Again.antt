-- ===== src/Cashfree/Again.antt =====
use meatvo_app.Base.{
  Bool, IsUnique, Option, Option-cases, Text, ap, arith, inl, inr, lookup, lookup-update, some,
  subst, sym, true, ℕ, ◌∙◌, ◌≡◌, ◌≢◌,
}
use meatvo_app.Store.{Order, Payment, Store}
use meatvo_app.Pricing.Redemption.{release-orders}
use meatvo_app.Payment.Success.{is_open_status}
use meatvo_app.Cashfree.Webhook.{
  Event, Hmac, Payload, WebhookRequest, parse_cashfree_webhook_event, payment_success,
  verify_cashfree_webhook,
}
use meatvo_app.Cashfree.Changes.{
  apply_payment_failure, cancel_unpaid, failed_transaction, latest_payment, set_order, set_payment,
}
use meatvo_app.Cashfree.Handlers.{apply_event, handle_webhook, on_event}
use meatvo_app.Cashfree.Events.{after_failure, after_payment, event_cases, latest-IsOf}

-- What the webhook of backend/src/modules/payments/cashfree.controller.js does when it is called again,
-- and when a success follows a failure.

event-again :
    (e : Event) (k : ℕ) (s : Store)
    → IsUnique s.payments
    → on_event e k (on_event e k s) ≡ on_event e k s
event-again e k s u = elim (event_cases e k s) [
  | inl same ↦ ap (on_event e k) same
  | inr (i, p, q, at, there, is_open, what) ↦ elim what [
    | inl fails ↦ subst (λ t. on_event e k t ≡ t) (sym fails) (after_failure e k i p s at)
    | inr (_, _, pays) ↦
        subst (λ t. on_event e k t ≡ t) (sym pays)
          (after_payment e k i p q s u at there is_open pays)
  ]
]

-- A notification that the gateway sends again changes nothing more: not the payment, nor the order, nor
-- the stock, nor the coupon. The ids of the payments are distinct.
pub webhook_again :
    (hmac : Hmac) (parse : Text → Option Payload) (secret_key : Text) (r : WebhookRequest)
    (s : Store)
    → IsUnique s.payments
    → handle_webhook hmac parse secret_key r (handle_webhook hmac parse secret_key r s).0
      ≡ handle_webhook hmac parse secret_key r s
unfolding handle_webhook
webhook_again hmac parse secret_key r s u =
    elim (Option-cases (verify_cashfree_webhook hmac parse secret_key r)) [
      | inl forged ↦ ground (arith, forged)
      | inr (payload, signed) ↦ elim (Option-cases (parse_cashfree_webhook_event payload)) [
        | inl unsupported ↦ ground (arith, signed, unsupported)
        | inr (e, known) ↦ elim (Option-cases e.order_id) [
          | inl nameless ↦ ground (arith, signed, known, nameless)
          | inr (k, name) ↦ ground (arith, signed, known, name, event-again e k s u)
        ]
      ]
    ]

-- The row of an order whose payment has failed.
failure-order :
    (i k : ℕ) (s : Store) (q : Order)
    → lookup k s.orders ≡ some q
    → (b : Bool) × (lookup k (apply_payment_failure i k s).orders
        ≡ some (record (cancel_unpaid q) { coupon_released = b }))
unfolding apply_payment_failure
failure-order i k s q at =
    let s1 = set_order k cancel_unpaid (set_payment i failed_transaction s) in
    let row : lookup k s1.orders ≡ some (cancel_unpaid q) =
      lookup-update k k cancel_unpaid s.orders ∙ ground (arith, at) in
    elim (release-orders k s1) [
      | inl kept ↦ (q.coupon_released, ap (lookup k) kept ∙ row)
      | inr released ↦ (
        true,
        ap (lookup k) released
            ∙ (lookup-update k k (λ r. record r { coupon_released = true }) s1.orders
                ∙ ground (arith, row)),
      )
    ]

-- A notification that the payment of an order failed or was dropped, while the payment is open, cancels
-- the order, and every later notification about the order is then without effect: also that the same
-- payment has succeeded at a second attempt.
pub late_success_ignored :
    (e later : Event) (k i : ℕ) (p : Payment) (q : Order) (s : Store)
    → latest_payment k s.payments ≡ some (i, p)
    → lookup k s.orders ≡ some q
    → is_open_status p.status ≡ true
    → e.event_type ≢ payment_success
    → ((b : Bool) × (lookup k (on_event e k s).orders
          ≡ some (record (cancel_unpaid q) { coupon_released = b })))
      × (on_event later k (on_event e k s) ≡ on_event e k s)
unfolding on_event apply_event
late_success_ignored e later k i p q s at there is_open fails =
    let named_for = latest-IsOf k s.payments i p at in
    let does : on_event e k s ≡ apply_payment_failure i k s =
      ground (arith, at, there, is_open, named_for) in
    let again : on_event later k (apply_payment_failure i k s) ≡ apply_payment_failure i k s =
      subst (λ j. on_event later k (apply_payment_failure i j s) ≡ apply_payment_failure i j s)
        named_for (after_failure later k i p s at) in
    (
      subst
          (λ t.
            (b : Bool) × (lookup k t.orders
              ≡ some (record (cancel_unpaid q) { coupon_released = b })))
          (sym does) (failure-order i k s q there),
      subst (λ t. on_event later k t ≡ t) (sym does) again,
    )
