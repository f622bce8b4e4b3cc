-- ===== src/FailedDelivery/Tests.antt =====
use meatvo_app.Status.Names.{on_the_way, refunded}
use meatvo_app.FailedDelivery.Resolved.{
  resolve_failed_delivery_iff, resolve_failed_delivery_stock, resolve_failed_delivery_throws,
  resolved,
}
use meatvo_app.Base.{Text, arith, codes, err, lookup, ok, refl, some, suc, true, ◌↔◌, ◌≡◌, ◌≢◌}
use meatvo_app.FailedDelivery.Handlers.{
  already_returned, check_resolve, confirm_return_to_store, enum_column, fail_order,
  mark_failed_delivery, resolve_failed_delivery, return_order, text_column, undefined_function,
}
-- The modelled code of backend/src/services/failedDelivery.service.js on concrete inputs.
use meatvo_app.Status.Assignment.{AssignmentStatus}
use meatvo_app.Store.{
  Order, PaymentStatus, Resolution, Store, TaskType, TransactionStatus, customer_refused,
  no_failure, refund, resellable, stock_of,
}
use meatvo_app.Samples.{order_in, store_of}
use meatvo_app.FailedDelivery.Words.{
  condition_of, is_order_blocked_from_assignment, reason_of, resolution_of,
}
use meatvo_app.FailedDelivery.Tasks.{create_admin_task, open_count}
use meatvo_app.FailedDelivery.Marked.{
  confirm_return_to_store_iff, mark_failed_delivery_iff, marked, returned,
}
use meatvo_app.FailedDelivery.Cycle.{IsTracked, Reach-IsTracked, confirm, mark, start, step}
use meatvo_app.FailedDelivery.Run.{failed_delivery_runs, stale_return}

-- An order that its rider, user 8, has on the way.
abbrev out_order : Order
out_order = record (order_in on_the_way PaymentStatus.paid) {
  assignment = some (record { partner_user_id = 8; status = AssignmentStatus.picked });
}

abbrev out_store : Store
out_store = store_of out_order TransactionStatus.success 8

refused : Text
refused = codes " customer_refused "

refused_lem : reason_of refused ≡ some customer_refused
unfolding reason_of refused
refused_lem = refl

abbrev marked_store : Store
marked_store = marked 1 8 customer_refused out_store

abbrev returned_store : Store
returned_store = returned 1 8 resellable marked_store

abbrev failed_order : Order
failed_order = fail_order 8 customer_refused out_order

marks : mark_failed_delivery 1 8 refused out_store ≡ ok marked_store
marks =
    (mark_failed_delivery_iff 1 8 refused out_store marked_store).1
      (customer_refused, out_order, refused_lem, refl, refl, refl, refl, refl)

resellable_lem : condition_of (codes "RESELLABLE") ≡ some resellable
unfolding condition_of
resellable_lem = refl

refund_lem : resolution_of (codes "refund") ≡ some refund
unfolding resolution_of
refund_lem = refl

returns : confirm_return_to_store 1 8 (codes "RESELLABLE") marked_store ≡ ok returned_store
unfolding create_admin_task is_order_blocked_from_assignment
returns =
    (confirm_return_to_store_iff 1 8 (codes "RESELLABLE") marked_store returned_store).1
      (resellable, failed_order, resellable_lem, refl, refl, refl, refl, refl, refl)

abbrev returned_order : Order
returned_order = return_order 8 resellable failed_order

resolves :
    resolve_failed_delivery text_column 1 2 (codes "refund") returned_store
    ≡ ok (resolved 1 2 refund returned_store)
unfolding create_admin_task is_order_blocked_from_assignment
resolves =
    (resolve_failed_delivery_iff 1 2 (codes "refund") returned_store
        (resolved 1 2 refund returned_store)).1
      (refund, returned_order, refund_lem, refl, refl, refl, refl)

resolve_failed_delivery_throws_example :
    ((s' : Store) → resolve_failed_delivery enum_column 1 2 (codes "refund") returned_store ≢ ok s')
    × ((resolve_failed_delivery enum_column 1 2 (codes "refund") returned_store
          ≡ err undefined_function)
        ↔ ((r : Resolution) × (o : Order) × (resolution_of (codes "refund") ≡ some r)
            × (lookup 1 returned_store.orders ≡ some o)
            × (is_order_blocked_from_assignment o ≡ true)
            × (o.failure.is_returned ≡ true)))
resolve_failed_delivery_throws_example =
    resolve_failed_delivery_throws 1 2 (codes "refund") returned_store

gives_back : stock_of 7 (resolved 1 2 refund returned_store) ≡ some 10
unfolding create_admin_task
gives_back =
    resolve_failed_delivery_stock 1 2 7 (codes "refund") refund returned_store
      (resolved 1 2 refund returned_store) refund_lem (refl, tt) resolves

out_store-IsTracked : IsTracked out_store
unfolding is_order_blocked_from_assignment
out_store-IsTracked j = ground arith

Reach-IsTracked_example : IsTracked returned_store
Reach-IsTracked_example =
    Reach-IsTracked
      (step (step start (mark 1 8 refused marks)) (confirm 1 8 (codes "RESELLABLE") returns))
      out_store-IsTracked

failed_delivery_runs_example :
    (s1 : Store) × (s2 : Store) × (s3 : Store) × (mark_failed_delivery 1 8 refused out_store
      ≡ ok s1)
    × (confirm_return_to_store 1 8 (codes "RESELLABLE") s1 ≡ ok s2)
    × (lookup 1 s2.orders ≡ some returned_order)
    × (open_count TaskType.failed_delivery 1 s2.tasks
        ≡ suc (open_count TaskType.failed_delivery 1 out_store.tasks))
    × (resolve_failed_delivery enum_column 1 2 (codes "refund") s2 ≡ err undefined_function)
    × (resolve_failed_delivery text_column 1 2 (codes "refund") s2 ≡ ok s3)
    × ((p : Order) × (lookup 1 s3.orders ≡ some p) × (p.status ≡ refunded))
    × (open_count TaskType.failed_delivery 1 s3.tasks ≡ 0)
failed_delivery_runs_example =
    failed_delivery_runs 1 8 2 refused (codes "RESELLABLE") (codes "refund") customer_refused
      resellable refund out_store out_order refused_lem resellable_lem refund_lem refl refl refl
      refl refl

-- The order came back once before.
abbrev again_order : Order
again_order = record out_order { failure = record no_failure { is_returned = true } }

abbrev again_store : Store
again_store = store_of again_order TransactionStatus.success 8

abbrev again_marked : Store
again_marked = marked 1 8 customer_refused again_store

again_marks : mark_failed_delivery 1 8 refused again_store ≡ ok again_marked
again_marks =
    (mark_failed_delivery_iff 1 8 refused again_store again_marked).1
      (customer_refused, again_order, refused_lem, refl, refl, refl, refl, refl)

stale_return_example :
    (confirm_return_to_store 1 8 (codes "RESELLABLE") again_marked ≡ err already_returned)
    × ((p : Order) × (lookup 1 again_marked.orders ≡ some p) × (check_resolve p ≡ ok tt))
unfolding create_admin_task
stale_return_example =
    stale_return 1 8 8 refused (codes "RESELLABLE") resellable again_store again_marked again_order
      refl refl again_marks resellable_lem refl
