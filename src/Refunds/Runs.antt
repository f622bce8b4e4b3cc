-- ===== src/Refunds/Runs.antt =====
-- Runs of the operations of backend/src/services/cashfreeRefund.service.js, the gateway answering each
-- in its own way.
use meatvo_app.Base.{All, Bool, arith, lookup, ℕ, ◌≡◌, ◌≤◌}
use meatvo_app.Refunds.Gateway.{Post}
use meatvo_app.Refunds.Submit.{Desk, submit_partial_refund_to_gateway}
use meatvo_app.Refunds.Batch.{
  due_ids, process_failed_delivery_refund, process_pending_refunds_for_order,
  retry_all_failed_refunds, retry_orders,
}
use meatvo_app.Refunds.Once.{
  HasKey, IsOrderly, accepted_count, failed_delivery-IsOrderly, name_count, retry-IsOrderly,
  submit-IsOrderly, submit_all-IsOrderly,
}
use meatvo_app.Store.{PaymentMode}

pub data Step (d : Desk) : Desk → Type 0 where
  submit : (post : Post) (id : ℕ) → Step d (submit_partial_refund_to_gateway post id d).0
  pending : (post : Post) (o : ℕ) → Step d (process_pending_refunds_for_order post o d).0
  whole :
      (post : Post) (o n : ℕ) (mode : PaymentMode)
      → Step d (process_failed_delivery_refund post o n mode d).0
  retry : (post : Post) (recent : ℕ → Bool) → Step d (retry_all_failed_refunds post recent d).0

pub data Run (d : Desk) : Desk → Type 0 where
  start : Run d d
  step : {e f : Desk} → Run d e → Step e f → Run d f

Step-IsOrderly : (d e : Desk) → Step d e → IsOrderly d → IsOrderly e
unfolding process_pending_refunds_for_order retry_all_failed_refunds
Step-IsOrderly d _ (submit post id) h = submit-IsOrderly post id d h
Step-IsOrderly d _ (Step.pending post o) h =
    submit_all-IsOrderly post (due_ids o d.store.refunds) d h
Step-IsOrderly d _ (whole post o n mode) h = failed_delivery-IsOrderly post o n mode d h
Step-IsOrderly d _ (retry post recent) h =
    retry-IsOrderly post (retry_orders recent d.store.refunds) d h

pub Run-IsOrderly : {d e : Desk} → Run d e → IsOrderly d → IsOrderly e
Run-IsOrderly start h = h
Run-IsOrderly (step {e} {f} before last) h = Step-IsOrderly e f last (Run-IsOrderly before h)

-- In every run from an orderly state (no refund is numbered above how many there are, the gateway has
-- accepted just the refunds that it has named, and the requests carry the keys of their rows), the
-- gateway accepts each refund once at most, and exactly when the refund's row has the gateway's name;
-- and all requests for a refund carry the key that its row has.
pub refunded_once :
    (j : ℕ) (d e : Desk)
    → Run d e
    → IsOrderly d
    → (accepted_count j e.calls ≤ 1)
      × (accepted_count j e.calls ≡ name_count (lookup j e.store.refunds))
      × All (HasKey e.store.refunds) e.calls
refunded_once j d e run h =
    let after = Run-IsOrderly run h in (ground (arith, after.once j), after.once j, after.keyed)
