-- ===== src/Cashfree/Tests.antt =====
use meatvo_app.Base.{
  Bool, Option, Text, [], codes, false, lookup, none, refl, some, to_upper, trim, true, ◌∷◌, ◌≡◌,
}
use meatvo_app.Cashfree.Changes.{cancel_unpaid, payment_failed_status}
use meatvo_app.Cashfree.Api.{Gateway, create_order}
use meatvo_app.Cashfree.Handlers.{
  abandon_payment, apply_event, failed_and_cancelled, give_up, handle_webhook, initiate_payment,
  initiation_failed, is_definitive_failure, new_payment, on_event, open_session, session_of,
}
use meatvo_app.Cashfree.Sessions.{initiate_again, retry_refused}
use meatvo_app.Store.{Order, PaymentStatus, Store, TransactionStatus}
use meatvo_app.Samples.{order_in, paid_up, payment_in, unpaid}
use meatvo_app.Status.Names.{payment_pending}
use meatvo_app.Payment.Success.{apply_payment_success, confirm_order_after_payment}
use meatvo_app.Payment.Stock.{reserve_stock_for_paid_order}
use meatvo_app.Cashfree.Webhook.{
  Event, Hmac, Payload, WebhookRequest, paise, parse_cashfree_webhook_event, payment_failed,
  payment_success, verify_cashfree_webhook,
}
use meatvo_app.Cashfree.Reconcile.{reconcile_all, reconcile_payment, reconcile_stale_payments}
use meatvo_app.Cashfree.Again.{late_success_ignored, webhook_again}

-- The handlers of backend/src/modules/payments/cashfree.controller.js on concrete inputs.

-- A hash that repeats the text, and a body that is always the same success.
abbrev echo : Hmac
echo secret t = t

abbrev success_payload : Payload
success_payload = record {
  type_name = codes "PAYMENT_SUCCESS_WEBHOOK";
  event_name = [];
  order_id = some 1;
  payment_amount = some (paise 43000);
  order_amount = none;
  payment_status = codes "SUCCESS";
}

abbrev read_success : Text → Option Payload
read_success t = some success_payload

abbrev signed_request : WebhookRequest
signed_request = record { signature = codes "7{}"; timestamp = codes "7"; raw_body = codes "{}" }

-- The notification of a success confirms the order.
success_confirms :
    handle_webhook echo read_success (codes "k") signed_request unpaid ≡ (paid_up, true)
unfolding handle_webhook verify_cashfree_webhook parse_cashfree_webhook_event on_event apply_event
    to_upper apply_payment_success confirm_order_after_payment reserve_stock_for_paid_order
success_confirms = refl

-- A signature of another body is refused.
forged_refused :
    handle_webhook echo read_success
      (codes "k")
      (record signed_request { raw_body = codes "{ }" })
      unpaid
    ≡ (unpaid, false)
unfolding handle_webhook verify_cashfree_webhook
forged_refused = refl

webhook_again_example :
    handle_webhook echo read_success
      (codes "k")
      signed_request
      (handle_webhook echo read_success (codes "k") signed_request unpaid).0
    ≡ handle_webhook echo read_success (codes "k") signed_request unpaid
webhook_again_example = webhook_again echo read_success (codes "k") signed_request unpaid (refl, tt)

abbrev success_event : Event
success_event = record {
  event_type = payment_success;
  order_id = some 1;
  status = codes "SUCCESS";
  amount = some 43000;
}

abbrev failure_event : Event
failure_event = record {
  event_type = payment_failed;
  order_id = some 1;
  status = codes "FAILED";
  amount = some 43000;
}

abbrev waiting_order : Order
waiting_order = order_in payment_pending PaymentStatus.pending

late_success_ignored_example :
    ((b : Bool) × (lookup 1 (on_event failure_event 1 unpaid).orders
        ≡ some (record (cancel_unpaid waiting_order) { coupon_released = b })))
    × (on_event success_event 1 (on_event failure_event 1 unpaid) ≡ on_event failure_event 1 unpaid)
late_success_ignored_example =
    late_success_ignored failure_event success_event 1 3 (payment_in TransactionStatus.initiated)
      waiting_order unpaid refl refl refl (λ e. cc)

-- A gateway that opens a session and has no payments.
abbrev ready : Gateway
ready = record {
  post_order = λ k n. some (codes "s9");
  fetch_order = λ k. some (codes "ACTIVE");
  fetch_payments = λ k. some [];
}

abbrev fresh_order : Store
fresh_order = record unpaid { payments = [] }

first_session : initiate_payment ready (codes "r") 9 5 1 fresh_order ≡ (
  record fresh_order { payments = (9, new_payment 1 waiting_order (codes "s9")) ∷ [] },
  session_of (codes "s9"),
)
unfolding initiate_payment open_session create_order
first_session = refl

initiate_again_example :
    initiate_payment ready
      (codes "q")
      10
      5
      1
      (record fresh_order { payments = (9, new_payment 1 waiting_order (codes "s9")) ∷ [] })
    ≡ (
      record fresh_order { payments = (9, new_payment 1 waiting_order (codes "s9")) ∷ [] },
      session_of (codes "s9"),
    )
initiate_again_example =
    initiate_again ready ready (codes "r") (codes "q") 9 10 5 1 fresh_order
      (record fresh_order { payments = (9, new_payment 1 waiting_order (codes "s9")) ∷ [] })
      (codes "s9") first_session

changed_mind : is_definitive_failure (codes " user_abandoned") ≡ false
unfolding trim
changed_mind = refl

-- The gateway knows the order.
abbrev duplicate : Gateway
duplicate = record ready { post_order = λ k n. none }

abbrev opened_once : Store
opened_once = record fresh_order { payments = (9, new_payment 1 waiting_order (codes "s9")) ∷ [] }

abbrev left_alone : Store
left_alone = (abandon_payment 5 1 (codes " user_abandoned") opened_once).0

retry_refused_example :
    ((q : Order) × (lookup 1 fresh_order.orders ≡ some q)
      × (lookup 1 left_alone.orders ≡ some (record q { payment_status = payment_failed_status })))
    × (initiate_payment duplicate (codes "r") 10 5 1 left_alone ≡ (left_alone, initiation_failed))
retry_refused_example =
    retry_refused ready duplicate (codes "r") [] (codes " user_abandoned") (codes "s9") b'r' 9 10 5
      1 fresh_order opened_once refl first_session changed_mind (λ n. refl)

-- A definitive failure that the customer's device reports cancels the order, and the gateway is not asked.
device_cancels : (abandon_payment 5 1 (codes "network_error") unpaid).1 ≡ failed_and_cancelled
unfolding abandon_payment give_up trim
device_cancels = refl

-- A stale payment that has expired at the gateway is counted and closed.
expired : Gateway
expired = record ready { fetch_order = λ k. some (codes "expired") }

stale_closed : (reconcile_stale_payments expired (λ i. true) unpaid).1 ≡ (1, 1)
unfolding reconcile_stale_payments reconcile_all reconcile_payment to_upper expired
stale_closed = refl
