-- ===== src/FailedDelivery/Handlers.antt =====
-- `markFailedDelivery`, `confirmReturnToStore` and `resolveFailedDelivery` of
-- backend/src/services/failedDelivery.service.js, each with the guards in the order of the code; a
-- guard that throws rolls the transaction back. Notifications, socket events and logs change no row
-- and are left out, and so are the gateway refund and the assignment behind the response.
use mathlib.Core.Option
use meatvo_app.Base.{
  Bool, Option, Text, codes, err, false, if◌then◌else◌, lookup, none, not, ok, some, true, update,
  ℕ, ◌==◌, ◌>>=◌, ◌>>◌,
}
use meatvo_app.Base.Result.{Result}
use meatvo_app.Status.Names.{
  Status, cancelled, failed_delivery, includes, packed, refunded, status_eq,
}
use meatvo_app.Status.Table.{allows}
use meatvo_app.Status.Assignment.{AssignmentStatus}
use meatvo_app.Store.{
  Assignment, FailedDeliveryReason, Order, PaymentStatus, Resolution, ReturnCondition, Store,
  TaskType, redeliver, refund,
}
use meatvo_app.Payment.Stock.{restore_stock_for_order}
use meatvo_app.Lifecycle.Transition.{is_online}
use meatvo_app.FailedDelivery.Words.{
  condition_of, is_order_blocked_from_assignment, is_unresolved, reason_of, resolution_of,
  rider_failable_order_statuses,
}
use meatvo_app.FailedDelivery.Tasks.{create_admin_task, resolve_admin_task, update_open}

pub data FailedDeliveryError : Type 0 where
  invalid_reason invalid_condition invalid_resolution : FailedDeliveryError
  no_partner_profile no_such_order not_assigned_to_you : FailedDeliveryError
  already_marked already_resolved already_returned not_returned not_failed : FailedDeliveryError
  cannot_mark bad_transition : Status → FailedDeliveryError
  undefined_function : FailedDeliveryError

-- `getDeliveryPartnerIdForUser` finds a row.
abbrev pub has_profile : ℕ → Store → Bool
has_profile user_id s = elim (lookup user_id s.partners) [ none ↦ false | some _ ↦ true ]

-- The order's row of `order_assignments` is of the rider.
abbrev pub is_rider : ℕ → Option Assignment → Bool
is_rider user_id none = false
is_rider user_id (some a) = a.partner_user_id == user_id

abbrev pub guard : Bool → FailedDeliveryError → Result FailedDeliveryError (Unit {0})
guard b e = if b then ok tt else err e

unfoldable pub check_mark : Order → ℕ → Result FailedDeliveryError (Unit {0})
check_mark o rider_user_id =
    guard (not (is_order_blocked_from_assignment o)) already_marked
    >> guard (includes rider_failable_order_statuses o.status) (cannot_mark o.status)
    >> guard (is_rider rider_user_id o.assignment) not_assigned_to_you
    >> guard (allows o.status failed_delivery) (bad_transition o.status)

abbrev pub set_assignment : AssignmentStatus → Assignment → Assignment
set_assignment status a = record a { status = status }

-- The two updates of the order's rows.
abbrev pub fail_order : ℕ → FailedDeliveryReason → Order → Order
fail_order rider_user_id reason o = record o {
  status = failed_delivery;
  assignment = Option.map (set_assignment AssignmentStatus.failed) o.assignment;
  failure = record o.failure {
    reason = some reason;
    failed_by = some rider_user_id;
    resolution = some Resolution.pending;
  };
}

abbrev pub write_order : ℕ → (Order → Order) → Store → Store
write_order order_id f s = record s { orders = update order_id f s.orders }

-- `markFailedDelivery`
unfoldable pub mark_failed_delivery : ℕ → ℕ → Text → Store → Result FailedDeliveryError Store
mark_failed_delivery order_id rider_user_id reason s = elim (reason_of reason) [
  | none ↦ err invalid_reason
  | some r ↦
      if not (has_profile rider_user_id s)
      then err no_partner_profile
      else elim (lookup order_id s.orders) [
        | none ↦ err no_such_order
        | some o ↦
            check_mark o rider_user_id
            >> ok (
                create_admin_task TaskType.failed_delivery order_id true
                  (write_order order_id (fail_order rider_user_id r) s))
      ]
]

unfoldable pub check_return : Order → ℕ → Result FailedDeliveryError (Unit {0})
check_return o rider_user_id =
    guard (status_eq o.status failed_delivery) not_failed
    >> guard (is_unresolved o.failure.resolution) already_resolved
    >> guard (not o.failure.is_returned) already_returned
    >> guard (is_rider rider_user_id o.assignment) not_assigned_to_you

abbrev pub return_order : ℕ → ReturnCondition → Order → Order
return_order rider_user_id condition o = record o {
  failure = record o.failure {
    is_returned = true;
    returned_by = some rider_user_id;
    return_reason = o.failure.reason;
    condition = some condition;
  };
}

-- The update of the payload of the open task.
abbrev pub note_return : ℕ → Store → Store
note_return order_id s = record s {
  tasks =
      update_open TaskType.failed_delivery order_id (λ t. record t { awaiting_return = false })
        s.tasks;
}

-- `confirmReturnToStore`
unfoldable pub confirm_return_to_store : ℕ → ℕ → Text → Store → Result FailedDeliveryError Store
confirm_return_to_store order_id rider_user_id return_condition s =
    elim (condition_of return_condition) [
      | none ↦ err invalid_condition
      | some c ↦
          if not (has_profile rider_user_id s)
          then err no_partner_profile
          else elim (lookup order_id s.orders) [
            | none ↦ err no_such_order
            | some o ↦
                check_return o rider_user_id
                >> ok (note_return order_id (write_order order_id (return_order rider_user_id c) s))
          ]
    ]

unfoldable pub check_resolve : Order → Result FailedDeliveryError (Unit {0})
check_resolve o =
    guard (status_eq o.status failed_delivery) not_failed
    >> guard (is_unresolved o.failure.resolution) already_resolved
    >> guard o.failure.is_returned not_returned

-- `newStatus`
abbrev pub status_after : Resolution → Status
status_after redeliver = packed
status_after refund = refunded
status_after _ = cancelled

-- The CASE of `updateOrderAfterFailedDeliveryResolution`.
abbrev pub payment_after : Resolution → Order → PaymentStatus
payment_after refund o = PaymentStatus.other (codes "REFUNDED")
payment_after Resolution.discard o =
    if is_online o.payment_mode then PaymentStatus.other (codes "REFUNDED") else o.payment_status
payment_after _ o = o.payment_status

-- The columns that the UPDATE writes.
abbrev pub resolve_order : ℕ → Resolution → Order → Order
resolve_order admin_user_id r o = record o {
  status = status_after r;
  payment_status = payment_after r o;
  failure = record o.failure { resolution = some r; resolved_by = some admin_user_id };
}

-- The type that the schema gives the column `orders.payment_mode`: backend/src/db/schema.sql and
-- schema_complete.sql make it an enum.
pub data ColumnType : Type 0 where
  text_column enum_column : ColumnType

-- `updateOrderAfterFailedDeliveryResolution`. The UPDATE applies UPPER to `payment_mode`, and PostgreSQL
-- has no UPPER of an enum: it raises 42883 (undefined_function) when it reads the statement, whatever
-- the row, and the catch lets 42703 alone pass to the second form.
unfoldable pub update_order_after_failed_delivery_resolution :
    ColumnType → ℕ → ℕ → Resolution → Store → Result FailedDeliveryError Store
update_order_after_failed_delivery_resolution text_column order_id admin_user_id r s =
    ok (write_order order_id (resolve_order admin_user_id r) s)
update_order_after_failed_delivery_resolution enum_column order_id admin_user_id r s =
    err undefined_function

-- `cancelAssignmentsForRedelivery`
abbrev pub cancel_assignment : Order → Order
cancel_assignment o = record o {
  assignment = Option.map (set_assignment AssignmentStatus.cancelled) o.assignment;
}

-- The writes of a resolution after the order's own.
unfoldable pub settle : ℕ → Resolution → Store → Store
settle order_id refund s = restore_stock_for_order order_id s
settle order_id redeliver s = write_order order_id cancel_assignment s
settle order_id _ s = s

-- `resolveFailedDelivery`
unfoldable pub resolve_failed_delivery :
    ColumnType → ℕ → ℕ → Text → Store → Result FailedDeliveryError Store
resolve_failed_delivery column order_id admin_user_id resolution s =
    elim (resolution_of resolution) [
      | none ↦ err invalid_resolution
      | some r ↦ elim (lookup order_id s.orders) [
        | none ↦ err no_such_order
        | some o ↦
            check_resolve o
            >> (update_order_after_failed_delivery_resolution column order_id admin_user_id r s
                >>= λ s1. ok (
                    resolve_admin_task TaskType.failed_delivery order_id (some admin_user_id)
                      (settle order_id r s1)))
      ]
    ]
