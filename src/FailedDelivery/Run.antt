-- ===== src/FailedDelivery/Run.antt =====
use meatvo_app.Status.Names.{Status, cancelled, failed_delivery, includes, packed, refunded}
use meatvo_app.Store.{
  Assignment, FailedDeliveryReason, Order, Resolution, ReturnCondition, Store, TaskType, redeliver,
  refund,
}
use meatvo_app.FailedDelivery.Resolved.{
  orders-resolved, resolution_settles, resolve_failed_delivery_iff, resolve_failed_delivery_throws,
  resolved, resolved_row, tasks-resolved,
}
use meatvo_app.Base.{
  Option, Text, ap, arith, err, false, lookup, lookup-update, none, ok, refl, some, suc, sym, true,
  ℕ, ◌∙◌, ◌≡◌,
}
use meatvo_app.FailedDelivery.Tasks.{
  closed_count, create_admin_task, noted_count, open_count, resolve_admin_task,
}
use meatvo_app.FailedDelivery.Handlers.{
  already_returned, check_resolve, check_return, confirm_return_to_store, enum_column, fail_order,
  has_profile, is_rider, mark_failed_delivery, resolve_failed_delivery, return_order,
  set_assignment, text_column, undefined_function,
}
-- A whole failed delivery, and a second one of the same order: `markFailedDelivery`,
-- `confirmReturnToStore` and `resolveFailedDelivery` of backend/src/services/failedDelivery.service.js.
use mathlib.Core.Option
use meatvo_app.Status.Assignment.{AssignmentStatus}
use meatvo_app.FailedDelivery.Words.{
  condition_of, is_order_blocked_from_assignment, reason_of, resolution_of,
  rider_failable_order_statuses,
}
use meatvo_app.FailedDelivery.Marked.{
  confirm_return_to_store_iff, mark_failed_delivery_iff, marked, returned,
}

pub orders-marked :
    (i u : ℕ) (r : FailedDeliveryReason) (s : Store) (o : Order)
    → lookup i s.orders ≡ some o
    → lookup i (marked i u r s).orders ≡ some (fail_order u r o)
unfolding create_admin_task
orders-marked i u r s o at = ground (arith, lookup-update i i (fail_order u r) s.orders)

still_rider :
    (u : ℕ) (t : AssignmentStatus) (a : Option Assignment)
    → is_rider u (Option.map (set_assignment t) a) ≡ is_rider u a
still_rider u t none = refl
still_rider u t (some a) = refl

-- The status that an order has once its failure is resolved.
abbrev pub final_status : Resolution → Status
final_status redeliver = packed
final_status refund = refunded
final_status Resolution.discard = cancelled
final_status Resolution.pending = failed_delivery

resolved-final_status :
    (a : ℕ) (w : Text) (r : Resolution) (o : Order)
    → resolution_of w ≡ some r
    → (resolved_row a r o).status ≡ final_status r
resolved-final_status a w redeliver o word = refl
resolved-final_status a w refund o word = refl
resolved-final_status a w Resolution.discard o word = refl
resolved-final_status a w Resolution.pending o word = absurd (resolution_settles w word)

-- From an order that is out with a rider who has a profile and whose failures were never returned, the
-- report and the return succeed in turn, with any of their words, and open one task for the order; every
-- resolution then throws undefined_function on the schema's enum column `payment_mode`. On a text column
-- it would succeed: the order would be PACKED, REFUNDED or CANCELLED as the resolution says, and no
-- failed-delivery task of it open.
pub failed_delivery_runs :
    (i u a : ℕ) (why how end : Text) (x : FailedDeliveryReason) (c : ReturnCondition)
    (r : Resolution) (s : Store) (o : Order)
    → reason_of why ≡ some x
    → condition_of how ≡ some c
    → resolution_of end ≡ some r
    → has_profile u s ≡ true
    → lookup i s.orders ≡ some o
    → includes rider_failable_order_statuses o.status ≡ true
    → is_rider u o.assignment ≡ true
    → o.failure.is_returned ≡ false
    → (s1 : Store) × (s2 : Store) × (s3 : Store) × (mark_failed_delivery i u why s ≡ ok s1)
      × (confirm_return_to_store i u how s1 ≡ ok s2)
      × (lookup i s2.orders ≡ some (return_order u c (fail_order u x o)))
      × (open_count TaskType.failed_delivery i s2.tasks
          ≡ suc (open_count TaskType.failed_delivery i s.tasks))
      × (resolve_failed_delivery enum_column i a end s2 ≡ err undefined_function)
      × (resolve_failed_delivery text_column i a end s2 ≡ ok s3)
      × ((p : Order) × (lookup i s3.orders ≡ some p) × (p.status ≡ final_status r))
      × (open_count TaskType.failed_delivery i s3.tasks ≡ 0)
unfolding is_order_blocked_from_assignment resolve_admin_task create_admin_task
failed_delivery_runs i u a why how end x c r s o e1 e2 e3 known at out mine fresh =
    let s1 = marked i u x s in
    let s2 = returned i u c s1 in
    let o1 = fail_order u x o in
    let at1 = orders-marked i u x s o at in
    let at2 : lookup i s2.orders ≡ some (return_order u c o1) =
      lookup-update i i (return_order u c) s1.orders ∙ ground arith in
    let first = (mark_failed_delivery_iff i u why s s1).1 (x, o, e1, known, at, out, mine, refl) in
    let rider = still_rider u AssignmentStatus.failed o.assignment ∙ mine in
    let second =
      (confirm_return_to_store_iff i u how s1 s2).1
        (c, o1, e2, known, at1, refl, fresh, rider, refl) in
    let third =
      (resolve_failed_delivery_iff i a end s2 (resolved i a r s2)).1
        (r, return_order u c o1, e3, at2, refl, refl, refl) in
    (
      s1,
      s2,
      resolved i a r s2,
      first,
      second,
      at2,
      noted_count TaskType.failed_delivery i i s1.tasks ∙ ground arith,
      (resolve_failed_delivery_throws i a end s2).1.1 (r, return_order u c o1, e3, at2, refl, refl),
      third,
      (
        resolved_row a r (return_order u c o1),
        orders-resolved i i a r s2 ∙ ground arith,
        resolved-final_status a end r (return_order u c o1) e3,
      ),
      ap (open_count TaskType.failed_delivery i) (tasks-resolved i a r s2)
          ∙ closed_count TaskType.failed_delivery i (some a) s2.tasks,
    )

-- After a report of a failed delivery of an order whose goods an earlier failure brought back, the
-- rider's return is always refused as already confirmed, and the checks of every resolution pass
-- without it.
pub stale_return :
    (i u v : ℕ) (why how : Text) (c : ReturnCondition) (s s1 : Store) (o : Order)
    → lookup i s.orders ≡ some o
    → o.failure.is_returned ≡ true
    → mark_failed_delivery i u why s ≡ ok s1
    → condition_of how ≡ some c
    → has_profile v s1 ≡ true
    → (confirm_return_to_store i v how s1 ≡ err already_returned)
      × ((p : Order) × (lookup i s1.orders ≡ some p) × (check_resolve p ≡ ok tt))
unfolding confirm_return_to_store check_return check_resolve is_order_blocked_from_assignment
stale_return i u v why how c s s1 o at back h e2 known =
    let (x, o', _, _, there, _, _, left) = (mark_failed_delivery_iff i u why s s1).0 h in
    let same : o' ≡ o = ground arith in
    let row : lookup i s1.orders ≡ some (fail_order u x o) =
      ap (λ t. lookup i t.orders) (sym left) ∙ orders-marked i u x s o at in
    (
      rw (e2, known, row, confirm_return_to_store, check_return, back) refl,
      (fail_order u x o, row, ground (arith, back)),
    )
