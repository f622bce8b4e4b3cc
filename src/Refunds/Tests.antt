-- ===== src/Refunds/Tests.antt =====
-- The modelled code of backend/src/services/cashfreeRefund.service.js on concrete inputs.
use meatvo_app.Base.{All, [], arith, codes, length, lookup, none, refl, some, true, ◌∷◌, ◌≡◌, ◌≤◌}
use meatvo_app.Refunds.Rows.{PartialRefund, RefundReason, RefundStatus, gateway_id, line_key}
use meatvo_app.Refunds.Gateway.{Post, create_refund}
use meatvo_app.Refunds.Submit.{
  Desk, failed_row, find_successful_cashfree_payment, payment_not_found, refusal, request_refund,
  sent, submit_partial_refund_to_gateway, write_refund,
}
use meatvo_app.Refunds.Effect.{Effect, submit_effect}
use meatvo_app.Refunds.Batch.{full_refund, process_pending_refunds_for_order}
use meatvo_app.Refunds.Once.{HasKey, IsOrderly, accepted_count, name_count}
use meatvo_app.Refunds.Runs.{Run, Step, refunded_once, start, step, submit}
use meatvo_app.Refunds.Stranded.{stranded_refund}
use meatvo_app.Samples.{paid_up}

-- A gateway that accepts every refund, and one that answers nothing.
abbrev accepting : Post
accepting order_id amount key =
    some (record {
      cf_refund_id = some (codes "cf1");
      refund_id = [];
      refund_status = codes "success";
    })

abbrev silent : Post
silent order_id amount key = none

abbrev weight_refund_row : PartialRefund
weight_refund_row = record {
  order_id = 1;
  item_id = some 11;
  amount = 2500;
  reason = RefundReason.weight_reconciliation;
  status = RefundStatus.pending;
  is_online = true;
  gateway_refund_id = none;
  key = some (line_key 1 11);
}

-- A refund of the weights and a refund of the failed delivery of one paid order.
abbrev two_refunds : Desk
two_refunds = record {
  store = record paid_up { refunds = (2, full_refund 1 40000) ∷ (1, weight_refund_row) ∷ [] };
  calls = [];
}

two_refunds-IsOrderly : IsOrderly two_refunds
two_refunds-IsOrderly = record {
  numbered = λ j more. ground arith;
  once = λ j. ground arith;
  keyed = tt;
}

-- The gateway fails for the first refund, and answers the second and then the first.
abbrev sample_run :
    Run two_refunds
      (process_pending_refunds_for_order accepting 1
        (submit_partial_refund_to_gateway silent 1 two_refunds).0).0
sample_run = step (step start (submit silent 1)) (Step.pending accepting 1)

abbrev sample_end : Desk
sample_end =
    (process_pending_refunds_for_order accepting 1
      (submit_partial_refund_to_gateway silent 1 two_refunds).0).0

refunded_once_example :
    (accepted_count 1 sample_end.calls ≤ 1)
    × (accepted_count 1 sample_end.calls ≡ name_count (lookup 1 sample_end.store.refunds))
    × All (HasKey sample_end.store.refunds) sample_end.calls
refunded_once_example = refunded_once 1 two_refunds sample_end sample_run two_refunds-IsOrderly

three_calls : length sample_end.calls ≡ 3
unfolding process_pending_refunds_for_order submit_partial_refund_to_gateway refusal request_refund
    find_successful_cashfree_payment create_refund
three_calls = refl

submit_effect_example :
    Effect 1 two_refunds (submit_partial_refund_to_gateway accepting 1 two_refunds).0
submit_effect_example = submit_effect accepting 1 two_refunds

accepted_whole :
    (submit_partial_refund_to_gateway accepting 2 two_refunds).1 ≡ sent (gateway_id (codes "cf1"))
unfolding submit_partial_refund_to_gateway refusal request_refund find_successful_cashfree_payment
    create_refund
accepted_whole = refl

abbrev after_whole : Desk
after_whole = (submit_partial_refund_to_gateway accepting 2 two_refunds).0

still_there : lookup 1 after_whole.store.refunds ≡ some weight_refund_row
unfolding submit_partial_refund_to_gateway refusal request_refund find_successful_cashfree_payment
    create_refund
still_there = refl

weight_refund_due : refusal weight_refund_row ≡ none
unfolding refusal
weight_refund_due = refl

stranded_refund_example :
    submit_partial_refund_to_gateway accepting 1 after_whole
    ≡ (write_refund 1 failed_row after_whole, payment_not_found)
stranded_refund_example =
    stranded_refund accepting accepting 2 1 two_refunds (full_refund 1 40000) weight_refund_row
      (gateway_id (codes "cf1")) refl refl refl accepted_whole still_there refl weight_refund_due
