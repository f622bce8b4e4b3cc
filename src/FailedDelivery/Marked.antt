-- ===== src/FailedDelivery/Marked.antt =====
-- When `markFailedDelivery` and `confirmReturnToStore` of
-- backend/src/services/failedDelivery.service.js succeed, and what they then write.
use meatvo_app.Base.{
  Bool-cases, Option-cases, Result-cases, Text, arith, false, inl, inr, lookup, ok, some, true, ℕ,
  ◌↔◌, ◌≡◌,
}
use meatvo_app.Status.Names.{Status, failed_delivery, includes, placed, status_eq}
use meatvo_app.Status.Table.{allows}
use meatvo_app.Store.{FailedDeliveryReason, Order, ReturnCondition, Store, TaskType}
use meatvo_app.FailedDelivery.Words.{
  condition_of, is_order_blocked_from_assignment, reason_of, rider_failable_order_statuses,
}
use meatvo_app.FailedDelivery.Tasks.{create_admin_task}
use meatvo_app.FailedDelivery.Handlers.{
  check_mark, check_return, confirm_return_to_store, fail_order, has_profile, is_rider,
  mark_failed_delivery, note_return, return_order, write_order,
}

abbrev pub marked : ℕ → ℕ → FailedDeliveryReason → Store → Store
marked i u r s =
    create_admin_task TaskType.failed_delivery i true (write_order i (fail_order u r) s)

-- Every status that a rider may fail is one that the table leads to FAILED_DELIVERY from, and none is
-- FAILED_DELIVERY itself.
failable :
    (t : Status)
    → includes rider_failable_order_statuses t ≡ true
    → (allows t failed_delivery ≡ true) × (status_eq t failed_delivery ≡ false)
unfolding allows
failable placed h = ground arith
failable _ h = ground arith

check_mark_iff :
    (o : Order) (u : ℕ)
    → (check_mark o u ≡ ok tt) ↔ (
        (includes rider_failable_order_statuses o.status ≡ true) × (is_rider u o.assignment ≡ true))
unfolding check_mark is_order_blocked_from_assignment
check_mark_iff o u = ground (arith, failable o.status)

-- A rider's report of a failed delivery succeeds just when the reason is one of the three, the rider
-- has a profile, the order is out (OUT_FOR_DELIVERY, PICKED_UP, ON_THE_WAY or RIDER_NEARBY) and its
-- assignment is the rider's; it then writes the failure, pending, fails the assignment and opens a task.
pub mark_failed_delivery_iff :
    (i u : ℕ) (w : Text) (s s' : Store)
    → (mark_failed_delivery i u w s ≡ ok s') ↔ (
        (r : FailedDeliveryReason) × (o : Order) × (reason_of w ≡ some r)
        × (has_profile u s ≡ true)
        × (lookup i s.orders ≡ some o)
        × (includes rider_failable_order_statuses o.status ≡ true)
        × (is_rider u o.assignment ≡ true)
        × (marked i u r s ≡ s'))
unfolding mark_failed_delivery
mark_failed_delivery_iff i u w s s' = (
  λ h. elim (Option-cases (reason_of w)) [
    | inl none_such ↦ ground arith
    | inr (r, word) ↦ elim (Bool-cases (has_profile u s)) [
      | inr stranger ↦ ground arith
      | inl known ↦ elim (Option-cases (lookup i s.orders)) [
        | inl gone ↦ ground arith
        | inr (o, at) ↦ elim (Result-cases (check_mark o u)) [
          | inr (x, e) ↦ ground arith
          | inl (v, e) ↦
              let fine = (check_mark_iff o u).0 e in
              (r, o, word, known, at, fine.0, fine.1, ground arith)
        ]
      ]
    ]
  ],
  λ (r, o, word, known, at, out, mine, left). ground (arith, check_mark_iff o u),
)

check_return_iff :
    (o : Order) (u : ℕ)
    → (check_return o u ≡ ok tt) ↔ (
        (is_order_blocked_from_assignment o ≡ true)
        × (o.failure.is_returned ≡ false)
        × (is_rider u o.assignment ≡ true))
unfolding check_return is_order_blocked_from_assignment
check_return_iff o u = ground arith

abbrev pub returned : ℕ → ℕ → ReturnCondition → Store → Store
returned i u c s = note_return i (write_order i (return_order u c) s)

-- A rider's return of the goods succeeds just when the condition is one of the three, the rider has a
-- profile, the order's failure is pending and not returned, and its assignment is the rider's; it then
-- writes the return and notes it on the open task.
pub confirm_return_to_store_iff :
    (i u : ℕ) (w : Text) (s s' : Store)
    → (confirm_return_to_store i u w s ≡ ok s') ↔ (
        (c : ReturnCondition) × (o : Order) × (condition_of w ≡ some c)
        × (has_profile u s ≡ true)
        × (lookup i s.orders ≡ some o)
        × (is_order_blocked_from_assignment o ≡ true)
        × (o.failure.is_returned ≡ false)
        × (is_rider u o.assignment ≡ true)
        × (returned i u c s ≡ s'))
unfolding confirm_return_to_store
confirm_return_to_store_iff i u w s s' = (
  λ h. elim (Option-cases (condition_of w)) [
    | inl none_such ↦ ground arith
    | inr (c, word) ↦ elim (Bool-cases (has_profile u s)) [
      | inr stranger ↦ ground arith
      | inl known ↦ elim (Option-cases (lookup i s.orders)) [
        | inl gone ↦ ground arith
        | inr (o, at) ↦ elim (Result-cases (check_return o u)) [
          | inr (x, e) ↦ ground arith
          | inl (v, e) ↦
              let (waiting, kept, mine) = (check_return_iff o u).0 e in
              (c, o, word, known, at, waiting, kept, mine, ground arith)
        ]
      ]
    ]
  ],
  λ (c, o, word, known, at, waiting, kept, mine, left). ground (arith, check_return_iff o u),
)
