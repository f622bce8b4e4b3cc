-- ===== src/Status/Assignment.antt =====
-- backend/src/utils/orderStatus.js, lines 87 to 104: the status of the rider assignment that goes with
-- an order status.
use meatvo_app.Base.{Text, none, some}
use meatvo_app.Status.Names.{
  Status, failed_delivery, on_the_way, out_for_delivery, picked_up, rider_accepted, rider_assigned,
  rider_nearby, rider_rejected,
}
use meatvo_app.Status.Table.{normalize_status}

pub data AssignmentStatus : Type 0 where
  assigned accepted picked delivered cancelled failed : AssignmentStatus

-- ORDER_TO_ASSIGNMENT_STATUS with the default of `getAssignmentStatus`.
abbrev pub assignment_of : Status → AssignmentStatus
assignment_of rider_assigned = AssignmentStatus.assigned
assignment_of rider_accepted = AssignmentStatus.accepted
assignment_of out_for_delivery = AssignmentStatus.accepted
assignment_of picked_up = AssignmentStatus.picked
assignment_of on_the_way = AssignmentStatus.picked
assignment_of rider_nearby = AssignmentStatus.picked
assignment_of Status.delivered = AssignmentStatus.delivered
assignment_of failed_delivery = AssignmentStatus.failed
assignment_of Status.cancelled = AssignmentStatus.cancelled
assignment_of rider_rejected = AssignmentStatus.cancelled
assignment_of _ = AssignmentStatus.assigned

-- `getAssignmentStatus`
unfoldable pub get_assignment_status : Text → AssignmentStatus
unfolding normalize_status
get_assignment_status t = elim (normalize_status t) [
  | none ↦ AssignmentStatus.assigned
  | some s ↦ assignment_of s
]
