-- ===== src/Dispatch/Timeout.antt =====
use meatvo_app.Dispatch.World.{
  World, count_rider_active_orders, is_rider_at_load_cap, point_or_zero, write_orders,
}
-- backend/src/services/assignment.service.js, `autoAcceptNearestStoreRider` and the timer of
-- `scheduleAssignmentTimeout`.
use meatvo_app.Base.{
  Bool, Map, Option, [], erase, false, if◌then◌else◌, lookup, ltb, none, not, some, true, update, ℕ,
  ◌&&◌, ◌==◌, ◌∷◌,
}
use meatvo_app.Status.Names.{out_for_delivery, packed, status_eq}
use meatvo_app.Status.Assignment.{AssignmentStatus}
use meatvo_app.Store.{Order, Partner, Point}
use meatvo_app.Lifecycle.Transition.{is_weight_reconciliation_complete_for_dispatch}
use meatvo_app.Dispatch.Batch.{Distance}
use meatvo_app.Dispatch.Eligible.{Score, has_location, is_available}
use meatvo_app.Dispatch.Assign.{assign_order_to_partner}

-- The `reason` of a refusal, or the rider.
pub data AutoAccept : Type 0 where
  no_order not_packed unweighed not_pending_acceptance no_store_location : AutoAccept
  no_online_riders at_load_cap : AutoAccept
  accepted_by : ℕ → AutoAccept

-- `km < nearestKm`
abbrev pub is_closer : ℕ → Option (ℕ × ℕ) → Bool
is_closer km none = true
is_closer km (some (_, least)) = ltb km least

-- The loop over the riders, with the nearest one so far and its distance; `none` is Infinity. A position
-- that is NULL is the number 0, so that the fallback to the store's is never taken.
abbrev pub nearest_rider : Distance → Point → Option (ℕ × ℕ) → Map Partner → Option (ℕ × ℕ)
nearest_rider distance store best [] = best
nearest_rider distance store best ((rider, p) ∷ m) =
    let km = distance (point_or_zero p.position) store in
    nearest_rider distance store
      (if is_available p && is_closer km best then some (rider, km) else best) m

-- The order's assignment is ASSIGNED.
abbrev pub is_pending_acceptance : Order → Bool
is_pending_acceptance o = elim o.assignment [
  | none ↦ false
  | some a ↦ elim a.status [ AssignmentStatus.assigned ↦ true | _ ↦ false ]
]

-- The guards of `autoAcceptNearestStoreRider` on the order's row.
unfoldable pub auto_reason : Order → Option AutoAccept
auto_reason o =
    if not (status_eq o.status packed)
    then some not_packed
    else if not (is_weight_reconciliation_complete_for_dispatch o.recon_status)
    then some unweighed
    else if not (is_pending_acceptance o)
    then some not_pending_acceptance
    else none

abbrev pub accept_order : ℕ → Order → Order
accept_order rider o = record o {
  status = out_for_delivery;
  assignment = some (record { partner_user_id = rider; status = AssignmentStatus.accepted });
}

-- `clearAssignmentTimeout`
abbrev pub clear_assignment_timeout : ℕ → World → World
clear_assignment_timeout order_id w = record w { timers = erase order_id w.timers }

-- `autoAcceptNearestStoreRider`
unfoldable pub auto_accept_nearest_store_rider : Distance → ℕ → World → World × AutoAccept
auto_accept_nearest_store_rider distance order_id w = elim (lookup order_id w.store.orders) [
  | none ↦ (w, no_order)
  | some o ↦ elim (auto_reason o) [
    | some r ↦ (w, r)
    | none ↦
        let store = point_or_zero w.center in
        if not (has_location store)
        then (w, no_store_location)
        else elim (nearest_rider distance store none w.store.partners) [
          | none ↦ (w, no_online_riders)
          | some (rider, km) ↦
              if is_rider_at_load_cap (count_rider_active_orders rider w)
              then (w, at_load_cap)
              else (
                clear_assignment_timeout order_id
                    (write_orders (update order_id (accept_order rider)) w),
                accepted_by rider,
              )
        ]
  ]
]

-- The order still waits for the rider's answer.
abbrev pub awaits : ℕ → ℕ → World → Bool
awaits order_id rider w = elim (lookup order_id w.store.orders) [
  | none ↦ false
  | some o ↦
      is_pending_acceptance o
      && elim o.assignment [ none ↦ false | some a ↦ a.partner_user_id == rider ]
]

abbrev pub cancel_row : Order → Order
cancel_row o = record o {
  assignment = elim o.assignment [
    | none ↦ none
    | some a ↦ some (record a { status = AssignmentStatus.cancelled })
  ];
}

-- The second half of the timer, after no rider was found near the store.
unfoldable pub reassign : Distance → Score → ℕ → ℕ → World → World
reassign distance score order_id rider w =
    if awaits order_id rider w
    then (assign_order_to_partner distance score order_id (some rider)
        (write_orders (update order_id cancel_row) w)).0
    else w

-- The timer of an order, when it fires.
unfoldable pub fire : Distance → Score → ℕ → World → World
fire distance score order_id w = elim (lookup order_id w.timers) [
  | none ↦ w
  | some rider ↦
      let w1 = clear_assignment_timeout order_id w in
      if not (awaits order_id rider w1)
      then w1
      else let (w2, r) = auto_accept_nearest_store_rider distance order_id w1 in
        elim r [ accepted_by _ ↦ w2 | _ ↦ reassign distance score order_id rider w2 ]
]
