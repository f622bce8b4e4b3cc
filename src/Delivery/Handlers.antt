-- ===== src/Delivery/Handlers.antt =====
-- `acceptOrder`, `rejectOrder` and `updateDeliveryOrderStatus` of
-- backend/src/modules/delivery/delivery.controller.js, with the claims of
-- backend/src/services/assignment.service.js. The row of the order is locked while a handler runs. A
-- rider stands under the id of its user. The check of a proof's address
-- (backend/src/utils/uploadSigning.js) is a parameter.
use mathlib.Core.Option
use meatvo_app.Base.{
  Bool, List, Option, Text, [], codes, erase, err, false, if◌then◌else◌, insert, lookup, none, not,
  ok, some, true, update, ℕ, ◌&&◌, ◌==◌, ◌∷◌,
}
use meatvo_app.Base.Result.{Result}
use meatvo_app.Status.Names.{
  Status, confirmed, delivered, includes, on_the_way, out_for_delivery, packed, packing_started,
  payment_pending, payment_verified, picked_up, placed, rider_accepted, rider_nearby, status_eq,
}
use meatvo_app.Status.Table.{allows}
use meatvo_app.Status.Assignment.{AssignmentStatus}
use meatvo_app.Store.{Assignment, Order, PaymentStatus, cod}
use meatvo_app.Lifecycle.Transition.{is_weight_reconciliation_complete_for_dispatch}
use meatvo_app.FailedDelivery.Handlers.{has_profile, is_rider, set_assignment}
use meatvo_app.Dispatch.World.{World, claimed, unclaimed, write_orders}
use meatvo_app.Dispatch.Batch.{Distance}
use meatvo_app.Dispatch.Eligible.{Score}
use meatvo_app.Dispatch.Assign.{Outcome, assign_order_to_partner, in_store}
use meatvo_app.Dispatch.Timeout.{accept_order, clear_assignment_timeout}
use meatvo_app.Delivery.Otp.{
  Hash, Site, ensure_delivery_otp, expired, invalid, valid, verify_delivery_otp,
}

pub data DeliveryError : Type 0 where
  no_partner_profile order_missing order_already_assigned still_preparing : DeliveryError
  only_packed not_weighed claimed_by_other : DeliveryError
  not_assigned_to_you assigned_to_other : DeliveryError
  otp_expired otp_invalid bad_proof : DeliveryError
  bad_transition : Status → DeliveryError

-- `tryClaimBroadcastOrder`; where there is no key, everyone may claim.
unfoldable pub try_claim_broadcast_order : ℕ → ℕ → World → World × Bool
try_claim_broadcast_order order_id rider w = elim (lookup order_id w.claims) [
  | none ↦ (w, true)
  | some c ↦ elim c [
    | unclaimed ↦ (record w { claims = insert order_id (claimed rider) w.claims }, true)
    | claimed winner ↦ (w, winner == rider)
  ]
]

-- `releaseBroadcastClaim`
abbrev pub release_broadcast_claim : ℕ → World → World
release_broadcast_claim order_id w = record w { claims = erase order_id w.claims }

-- IN_FLIGHT_ORDER_STATUSES
abbrev pub in_flight_order_statuses : List Status
in_flight_order_statuses =
    out_for_delivery ∷ picked_up ∷ on_the_way ∷ rider_nearby ∷ rider_accepted ∷ []

-- PREPARING_ORDER_STATUSES
abbrev pub preparing_order_statuses : List Status
preparing_order_statuses =
    placed ∷ payment_pending ∷ payment_verified ∷ confirmed ∷ packing_started ∷ []

abbrev pub is_taken : Option Assignment → Bool
is_taken none = false
is_taken (some a) = elim a.status [
  | AssignmentStatus.accepted ↦ true
  | AssignmentStatus.picked ↦ true
  | _ ↦ false
]

abbrev pub is_of_other : ℕ → Option Assignment → Bool
is_of_other rider none = false
is_of_other rider (some a) = not (a.partner_user_id == rider)

pub data Acceptance : Type 0 where
  already_accepted to_accept to_claim : Acceptance

-- The guards of `acceptOrder` on the order's rows, and what is left to do.
unfoldable pub check_accept : Order → ℕ → Result DeliveryError Acceptance
check_accept o rider =
    if is_of_other rider o.assignment
    then err order_already_assigned
    else if not (status_eq o.status packed)
    then if is_taken o.assignment && includes in_flight_order_statuses o.status
      then ok already_accepted
      else if includes preparing_order_statuses o.status
      then err still_preparing
      else err only_packed
    else if not (is_weight_reconciliation_complete_for_dispatch o.recon_status)
    then err not_weighed
    else elim o.assignment [ none ↦ ok to_claim | some _ ↦ ok to_accept ]

-- What `acceptOrder` writes once the order is the rider's, in the transaction and behind it.
unfoldable pub hand_over : Hash → Text → ℕ → ℕ → Site → Site
hand_over hash fresh order_id rider s =
    let w1 = write_orders (update order_id (accept_order rider)) s.world in
    ensure_delivery_otp hash order_id fresh
      (record s { world = release_broadcast_claim order_id (clear_assignment_timeout order_id w1) })

-- `acceptOrder`
unfoldable pub accept_request : Hash → Text → ℕ → ℕ → Site → Result DeliveryError Site
accept_request hash fresh rider order_id s =
    if not (has_profile rider s.world.store)
    then err no_partner_profile
    else elim (lookup order_id s.world.store.orders) [
      | none ↦ err order_missing
      | some o ↦ elim (check_accept o rider) [
        | err e ↦ err e
        | ok a ↦ elim a [
          | already_accepted ↦ ok s
          | to_accept ↦ ok (hand_over hash fresh order_id rider s)
          | to_claim ↦
              let (w1, won) = try_claim_broadcast_order order_id rider s.world in
              if won
              then ok (hand_over hash fresh order_id rider (record s { world = w1 }))
              else err claimed_by_other
        ]
      ]
    ]

-- The two updates of `rejectOrder`; an order without an assignment is given one first.
abbrev pub reject_order : ℕ → Order → Order
reject_order rider o = record o {
  status = if status_eq o.status out_for_delivery then packed else o.status;
  assignment = some (record { partner_user_id = rider; status = AssignmentStatus.cancelled });
}

-- `rejectOrder`, with the outcome of the assignment that follows.
unfoldable pub reject_request :
    Distance → Score → ℕ → ℕ → World → Result DeliveryError (World × Outcome)
reject_request distance score rider order_id w =
    if not (has_profile rider w.store)
    then err no_partner_profile
    else elim (lookup order_id w.store.orders) [
      | none ↦ err order_missing
      | some o ↦
          if is_of_other rider o.assignment
          then err assigned_to_other
          else ok (
              assign_order_to_partner distance score order_id (some rider) (
                clear_assignment_timeout order_id
                  (write_orders (update order_id (reject_order rider)) w)))
    ]

-- The statuses that the validation of the request lets through
-- (backend/src/modules/delivery/delivery.validation.js).
pub data Target : Type 0 where
  to_out_for_delivery to_picked_up to_on_the_way : Target
  to_delivered : Text → Option Text → Target  -- the code and the address of a proof

abbrev pub status_of : Target → Status
status_of to_out_for_delivery = out_for_delivery
status_of to_picked_up = picked_up
status_of to_on_the_way = on_the_way
status_of (to_delivered _ _) = delivered

-- `assignmentStatusByOrderStatus`
abbrev pub assignment_status_of : Target → AssignmentStatus
assignment_status_of to_out_for_delivery = AssignmentStatus.accepted
assignment_status_of to_picked_up = AssignmentStatus.picked
assignment_status_of to_on_the_way = AssignmentStatus.picked
assignment_status_of (to_delivered _ _) = AssignmentStatus.delivered

-- The guards of the transaction of `updateDeliveryOrderStatus`.
unfoldable pub check_move : Order → ℕ → Target → Result DeliveryError (Unit {0})
check_move o rider t =
    if not (is_rider rider o.assignment)
    then err not_assigned_to_you
    else if not (allows o.status (status_of t))
    then err (bad_transition o.status)
    else if status_eq (status_of t) out_for_delivery
        && not (is_weight_reconciliation_complete_for_dispatch o.recon_status)
    then err not_weighed
    else ok tt

-- `payment_status = 'COLLECTED'` for a cash order that is delivered unpaid.
abbrev pub collected : Target → Order → PaymentStatus
collected (to_delivered _ _) o = elim o.payment_mode [
  | cod ↦ elim o.payment_status [
    | PaymentStatus.pending ↦ PaymentStatus.other (codes "COLLECTED")
    | _ ↦ o.payment_status
  ]
  | _ ↦ o.payment_status
]
collected _ o = o.payment_status

abbrev pub move_order : Target → Order → Order
move_order t o = record o {
  status = status_of t;
  payment_status = collected t o;
  assignment = Option.map (set_assignment (assignment_status_of t)) o.assignment;
}

-- The earnings that follow a delivery, for the rider of the assignment.
abbrev pub earn : ℕ → ℕ → Target → World → World
earn order_id rider (to_delivered _ _) w =
    in_store (λ s. record s { earnings = (order_id, rider) ∷ s.earnings }) w
earn order_id rider _ w = w

abbrev pub move_site : ℕ → ℕ → Target → Site → Site
move_site rider order_id t s = record s {
  world = earn order_id rider t (write_orders (update order_id (move_order t)) s.world);
}

-- The code and the proof are checked before the transaction: a right code is used up by then.
unfoldable pub check_code :
    Hash → (ℕ → Text → Bool) → ℕ → ℕ → Target → Site → Site × Option DeliveryError
check_code hash valid_proof rider order_id (to_delivered otp proof) s =
    let (s1, r) = verify_delivery_otp hash order_id otp s in
    (
      s1,
      elim r [
        | expired ↦ some otp_expired
        | invalid ↦ some otp_invalid
        | valid ↦ elim proof [
          | none ↦ none
          | some url ↦ if valid_proof rider url then none else some bad_proof
        ]
      ],
    )
check_code hash valid_proof rider order_id _ s = (s, none)

-- `updateDeliveryOrderStatus`: the site that it leaves, and the error. The dispatch queue, which runs
-- behind the response, is left out, and so are the amounts of the earnings.
unfoldable pub update_delivery_order_status :
    Hash → (ℕ → Text → Bool) → ℕ → ℕ → Target → Site → Site × Option DeliveryError
update_delivery_order_status hash valid_proof rider order_id t s =
    if not (has_profile rider s.world.store)
    then (s, some no_partner_profile)
    else let (s1, problem) = check_code hash valid_proof rider order_id t s in
      elim problem [
        | some e ↦ (s1, some e)
        | none ↦ elim (lookup order_id s1.world.store.orders) [
          | none ↦ (s1, some not_assigned_to_you)
          | some o ↦ elim (check_move o rider t) [
            | err e ↦ (s1, some e)
            | ok _ ↦ (move_site rider order_id t s1, none)
          ]
        ]
      ]
