-- ===== src/Delivery/Rejected.antt =====
-- Who may have an order: `acceptOrder` and `rejectOrder` of
-- backend/src/modules/delivery/delivery.controller.js.
use meatvo_app.Base.{
  Bool-cases, Option, Option-cases, Result-cases, Text, [], ap, arith, err, false, inl, inr, lookup,
  lookup-update, ltb, ok, some, sym, true, update, ℕ, ◌==◌, ◌∙◌, ◌∷◌, ◌≡◌, ◌⊎◌,
}
use meatvo_app.Status.Names.{
  includes, on_the_way, out_for_delivery, picked_up, rider_nearby, status_eq,
}
use meatvo_app.Status.Assignment.{AssignmentStatus}
use meatvo_app.Store.{Assignment, Order}
use meatvo_app.FailedDelivery.Words.{is_order_blocked_from_assignment}
use meatvo_app.FailedDelivery.Tasks.{create_open_admin_task}
use meatvo_app.FailedDelivery.Handlers.{has_profile, is_rider}
use meatvo_app.Dispatch.World.{World, max_assignment_attempts, write_orders}
use meatvo_app.Dispatch.Batch.{Distance}
use meatvo_app.Dispatch.Eligible.{Score}
use meatvo_app.Dispatch.Assign.{
  Outcome, assign_order_to_partner, attempts_of, blocked_reason, count_attempt,
  max_attempts_exceeded, order_not_assignable,
}
use meatvo_app.Dispatch.Timeout.{accept_order, clear_assignment_timeout}
use meatvo_app.Delivery.Otp.{Hash, Site, create_delivery_otp, ensure_delivery_otp}
use meatvo_app.Delivery.Handlers.{
  Acceptance, accept_request, already_accepted, check_accept, hand_over, is_of_other,
  order_already_assigned, reject_order, reject_request, to_accept, to_claim,
  try_claim_broadcast_order,
}

orders-hand_over :
    (hash : Hash) (fresh : Text) (k rider : ℕ) (s : Site)
    → (hand_over hash fresh k rider s).world.store
      ≡ (write_orders (update k (accept_order rider)) s.world).store
unfolding hand_over ensure_delivery_otp create_delivery_otp
orders-hand_over hash fresh k rider s = ground arith

taken_row :
    (hash : Hash) (fresh : Text) (k rider : ℕ) (s : Site) (o : Order)
    → lookup k s.world.store.orders ≡ some o
    → lookup k (hand_over hash fresh k rider s).world.store.orders ≡ some (accept_order rider o)
taken_row hash fresh k rider s o at =
    ap (λ x. lookup k x.orders) (orders-hand_over hash fresh k rider s)
    ∙ lookup-update k k (accept_order rider) s.world.store.orders
    ∙ ground arith

claim-store : (k rider : ℕ) (w : World) → (try_claim_broadcast_order k rider w).0.store ≡ w.store
unfolding try_claim_broadcast_order
claim-store k rider w = ground arith

already_own :
    (o : Order) (rider : ℕ)
    → check_accept o rider ≡ ok already_accepted
    → is_rider rider o.assignment ≡ true
unfolding check_accept
already_own o rider h = elim (Option-cases o.assignment) [
  | inl unassigned ↦ ground arith
  | inr (a, there) ↦ ground arith
]

-- An acceptance that succeeds leaves the order with the rider.
accepted_row :
    (hash : Hash) (fresh : Text) (rider k : ℕ) (s s' : Site)
    → accept_request hash fresh rider k s ≡ ok s'
    → (o : Order) × (lookup k s'.world.store.orders ≡ some o) × (is_rider rider o.assignment ≡ true)
unfolding accept_request
accepted_row hash fresh rider k s s' h = elim (Bool-cases (has_profile rider s.world.store)) [
  | inr stranger ↦ ground arith
  | inl known ↦ elim (Option-cases (lookup k s.world.store.orders)) [
    | inl gone ↦ ground arith
    | inr (o, at) ↦ elim (Result-cases (check_accept o rider)) [
      | inr (e, refused) ↦ ground arith
      | inl (a, e) ↦ by_acceptance o at a e
    ]
  ]
]
  where
    row :
        (d : Site) (o : Order)
        → lookup k d.world.store.orders ≡ some o
        → hand_over hash fresh k rider d ≡ s'
        → (p : Order) × (lookup k s'.world.store.orders ≡ some p)
          × (is_rider rider p.assignment ≡ true)
    row d o at left = (
      accept_order rider o,
      ap (λ x. lookup k x.world.store.orders) (sym left) ∙ taken_row hash fresh k rider d o at,
      ground arith,
    )

    by_acceptance :
        (o : Order)
        → lookup k s.world.store.orders ≡ some o
        → (a : Acceptance) → check_accept o rider ≡ ok a
        → (p : Order) × (lookup k s'.world.store.orders ≡ some p)
          × (is_rider rider p.assignment ≡ true)
    by_acceptance o at already_accepted e =
        let same : s ≡ s' = ground arith in
        (o, ap (λ x. lookup k x.world.store.orders) (sym same) ∙ at, already_own o rider e)
    by_acceptance o at to_accept e = row s o at (ground arith)
    by_acceptance o at to_claim e =
        let claim = try_claim_broadcast_order k rider s.world in
        let d : Site = record s { world = claim.0 } in
        let still : lookup k d.world.store.orders ≡ some o =
          ap (λ x. lookup k x.orders) (claim-store k rider s.world) ∙ at in
        elim (Bool-cases claim.1) [
          | inr lost ↦ ground arith
          | inl won ↦ row d o still (ground arith)
        ]

refused :
    (hash : Hash) (fresh : Text) (rider k : ℕ) (s : Site) (o : Order)
    → has_profile rider s.world.store ≡ true
    → lookup k s.world.store.orders ≡ some o
    → is_of_other rider o.assignment ≡ true
    → accept_request hash fresh rider k s ≡ err order_already_assigned
unfolding accept_request check_accept
refused hash fresh rider k s o known at theirs = ground arith

-- Once a rider's acceptance of an order has succeeded, every other rider's is refused as already assigned,
-- whether the order was assigned to the rider or broadcast to all.
pub accept_exclusive :
    (hash : Hash) (fresh again : Text) (rider loser k : ℕ) (s s' : Site)
    → accept_request hash fresh rider k s ≡ ok s'
    → (rider == loser) ≡ false
    → has_profile loser s'.world.store ≡ true
    → accept_request hash again loser k s' ≡ err order_already_assigned
accept_exclusive hash fresh again rider loser k s s' h apart known =
    let (o, at, mine) = accepted_row hash fresh rider k s s' h in
    refused hash again loser k s' o known at (ground arith)

unassignable :
    (distance : Distance) (score : Score) (k : ℕ) (x : Option ℕ) (w : World) (o : Order)
    → lookup k w.store.orders ≡ some o
    → blocked_reason o ≡ some order_not_assignable
    → let (w', r) = assign_order_to_partner distance score k x w in
      (w'.store.orders ≡ w.store.orders)
      × ((r ≡ order_not_assignable) ⊎ (r ≡ max_attempts_exceeded))
unfolding assign_order_to_partner create_open_admin_task
unassignable distance score k x w o at blocked =
    let w1 = count_attempt k w in
    elim (Bool-cases (ltb max_assignment_attempts (attempts_of k w1))) [
      | inl spent ↦ (ground arith, inr (ground arith))
      | inr more ↦ (ground arith, inl (ground arith))
    ]

away_blocked :
    (o : Order) (a : Option Assignment)
    → includes (picked_up ∷ on_the_way ∷ rider_nearby ∷ []) o.status ≡ true
    → (status_eq o.status out_for_delivery ≡ false)
      × (blocked_reason (record o { assignment = a }) ≡ some order_not_assignable)
unfolding blocked_reason is_order_blocked_from_assignment
away_blocked o a h = (ground arith, ground arith)

-- A rider who rejects an order that is already on its way leaves it where no rider is found for it: the
-- order keeps its status, its assignment is cancelled, and the reassignment is refused because the order
-- is not PACKED (or because its attempts are used up).
pub reject_strands :
    (distance : Distance) (score : Score) (rider k : ℕ) (w w' : World) (o : Order) (r : Outcome)
    → lookup k w.store.orders ≡ some o
    → includes (picked_up ∷ on_the_way ∷ rider_nearby ∷ []) o.status ≡ true
    → reject_request distance score rider k w ≡ ok (w', r)
    → (lookup k w'.store.orders
        ≡ some (record o {
          assignment =
              some (record { partner_user_id = rider; status = AssignmentStatus.cancelled });
        }))
      × ((r ≡ order_not_assignable) ⊎ (r ≡ max_attempts_exceeded))
unfolding reject_request
reject_strands distance score rider k w w' o r at away h =
    let mine : Option Assignment =
      some (record { partner_user_id = rider; status = AssignmentStatus.cancelled }) in
    let (still, blocked) = away_blocked o mine away in
    let w1 = clear_assignment_timeout k (write_orders (update k (reject_order rider)) w) in
    let row : lookup k w1.store.orders ≡ some (record o { assignment = mine }) =
      lookup-update k k (reject_order rider) w.store.orders ∙ ground arith in
    let (kept, why) =
      unassignable distance score k (some rider) w1 (record o { assignment = mine }) row blocked in
    elim (Bool-cases (has_profile rider w.store)) [
      | inr stranger ↦ ground arith
      | inl known ↦ elim (Bool-cases (is_of_other rider o.assignment)) [
        | inl theirs ↦ ground arith
        | inr free ↦
            let result : assign_order_to_partner distance score k (some rider) w1 ≡ (w', r) =
              ground arith in
            (
              ap (λ x. lookup k x.0.store.orders) (sym result) ∙ ap (lookup k) kept ∙ row,
              elim why [
                | inl closed ↦ inl (ap (λ x. x.1) (sym result) ∙ closed)
                | inr spent ↦ inr (ap (λ x. x.1) (sym result) ∙ spent)
              ],
            )
      ]
    ]
