-- ===== src/Dispatch/Assign.antt =====
-- backend/src/services/assignment.service.js, `assignWithBatching`, `assignOrderToPartner`,
-- `retryAssignOrderToPartner`, `manualAssignOrderToPartner` and `ensureOrderAssigned`. Sockets and
-- the observed return times change nothing that is read here and are left out.
use meatvo_app.Base.{
  Bool, List, Map, Option, [], erase, false, if◌then◌else◌, insert, leb, length, lookup, ltb, none,
  not, or_else, some, suc, text_eq, true, ℕ, ◌∷◌,
}
use meatvo_app.Store.{Order, Partner, ReconStatus, Store, assignment_failed}
use meatvo_app.FailedDelivery.Words.{is_order_blocked_from_assignment}
use meatvo_app.FailedDelivery.Tasks.{create_open_admin_task, resolve_admin_task_by_order}
use meatvo_app.Dispatch.World.{
  World, count_rider_active_orders, get_rider_remaining_capacity, has_live_assignment,
  is_assignable, is_rider_at_load_cap, max_assignment_attempts, small_fleet_threshold, unclaimed,
  upsert_assignment,
}
use meatvo_app.Dispatch.Batch.{Distance}
use meatvo_app.Dispatch.Windows.{
  Schedule, deferred, immediate, schedule_assignment_timeout, schedule_batch_assignment,
  try_join_batch_window,
}
use meatvo_app.Dispatch.Eligible.{
  Candidate, Score, get_eligible_partners, get_first_approved_partner, is_available,
}

-- The results: those with a reason, an assignment and an order that waits in a window.
pub data Outcome : Type 0 where
  max_attempts_exceeded order_not_found failed_delivery_pending order_not_assignable : Outcome
  weight_reconciliation_pending rider_load_cap no_eligible_partners : Outcome
  broadcasted_to_all_riders already_assigned partner_not_found partner_not_approved : Outcome
  batch_pending : ℕ → Outcome
  given_to : ℕ → Schedule → Outcome

-- `result.assigned`
abbrev pub is_assigned : Outcome → Bool
is_assigned already_assigned = true
is_assigned (batch_pending _) = true
is_assigned (given_to _ _) = true
is_assigned _ = false

-- The result for what the batching answers.
abbrev pub outcome_of : ℕ → Schedule → Outcome
outcome_of rider (immediate []) = already_assigned
outcome_of rider (immediate (k ∷ ks)) = given_to rider (immediate (k ∷ ks))
outcome_of rider (deferred anchor b) = given_to rider (deferred anchor b)

-- `assignWithBatching`
unfoldable pub assign_with_batching : Distance → ℕ → ℕ → World → World × Outcome
assign_with_batching distance order_id rider w =
    let active = count_rider_active_orders rider w in
    if is_rider_at_load_cap active
    then (w, rider_load_cap)
    else let (w1, s) =
        schedule_batch_assignment distance order_id rider (get_rider_remaining_capacity active) w in
      (w1, outcome_of rider s)

-- `redis.incr(attemptKey)`
abbrev pub attempts_of : ℕ → World → ℕ
attempts_of order_id w = or_else (lookup order_id w.attempts) 0

abbrev pub count_attempt : ℕ → World → World
count_attempt order_id w = record w {
  attempts = insert order_id (suc (attempts_of order_id w)) w.attempts;
}

abbrev pub in_store : (Store → Store) → World → World
in_store f w = record w { store = f w.store }

-- `emitAssignmentFailure`
abbrev pub emit_assignment_failure : ℕ → World → World
emit_assignment_failure order_id = in_store (create_open_admin_task assignment_failed order_id)

-- `reconStatus === 'PENDING' || reconStatus === ''`
abbrev pub is_unweighed : ReconStatus → Bool
is_unweighed ReconStatus.pending = true
is_unweighed (ReconStatus.other t) = text_eq t []
is_unweighed _ = false

-- The tiers' riders: the first tier that has one.
abbrev pub first_tier : Distance → Score → ℕ → Option ℕ → World → List ℕ → List Candidate
first_tier distance score order_id exclude w [] = []
first_tier distance score order_id exclude w (tier ∷ tiers) =
    let rest = first_tier distance score order_id exclude w tiers in
    elim (get_eligible_partners distance score order_id tier exclude w) [
      | [] ↦ rest
      | c ∷ cs ↦ c ∷ cs
    ]

-- `ASSIGNMENT.distanceTiersKm`
abbrev pub distance_tiers : List ℕ
distance_tiers = 3000 ∷ 5000 ∷ 8000 ∷ []

abbrev pub online_riders : Map Partner → List ℕ
online_riders [] = []
online_riders ((id, p) ∷ m) =
    let rest = online_riders m in if is_available p then id ∷ rest else rest

-- `markOrderBroadcastPending`, with NX.
abbrev pub mark_order_broadcast_pending : ℕ → World → World
mark_order_broadcast_pending order_id w = elim (lookup order_id w.claims) [
  | some _ ↦ w
  | none ↦ record w { claims = insert order_id unclaimed w.claims }
]

-- No rider is online: any approved one, and else nobody.
unfoldable pub assign_fallback : Distance → ℕ → Option ℕ → World → World × Outcome
assign_fallback distance order_id exclude w = elim (get_first_approved_partner exclude w) [
  | some rider ↦ assign_with_batching distance order_id rider w
  | none ↦ (
    if leb max_assignment_attempts (attempts_of order_id w)
        then emit_assignment_failure order_id w
        else w,
    no_eligible_partners,
  )
]

-- No tier has a rider: the first rider of a small fleet, a broadcast to a large one.
unfoldable pub assign_beyond_tiers : Distance → ℕ → Option ℕ → World → World × Outcome
assign_beyond_tiers distance order_id exclude w = elim (online_riders w.store.partners) [
  | [] ↦ assign_fallback distance order_id exclude w
  | rider ∷ others ↦
      if leb (length (rider ∷ others)) small_fleet_threshold
      then assign_with_batching distance order_id rider w
      else (mark_order_broadcast_pending order_id w, broadcasted_to_all_riders)
]

-- The best rider of a tier; an assignment resolves the task of the failed ones.
unfoldable pub assign_candidate : Distance → ℕ → Candidate → World → World × Outcome
assign_candidate distance order_id c w =
    let (w1, r) = assign_with_batching distance order_id c.rider w in
    (
      if is_assigned r
          then in_store (λ s. (resolve_admin_task_by_order assignment_failed order_id none s).0) w1
          else w1,
      r,
    )

-- The guards of `assignOrderToPartner` on the order's row.
unfoldable pub blocked_reason : Order → Option Outcome
blocked_reason o =
    if is_order_blocked_from_assignment o
    then some failed_delivery_pending
    else if not (is_assignable o.status)
    then some order_not_assignable
    else if is_unweighed o.recon_status
    then some weight_reconciliation_pending
    else if has_live_assignment o
    then some already_assigned
    else none

-- `assignOrderToPartner` after its guards.
unfoldable pub choose_partner : Distance → Score → ℕ → Option ℕ → World → World × Outcome
choose_partner distance score order_id exclude w =
    let (w1, found) = try_join_batch_window distance order_id w in
    elim found [
      | some (anchor, _) ↦ (w1, batch_pending anchor)
      | none ↦ elim (first_tier distance score order_id exclude w1 distance_tiers) [
        | [] ↦ assign_beyond_tiers distance order_id exclude w1
        | c ∷ _ ↦ assign_candidate distance order_id c w1
      ]
    ]

-- `assignOrderToPartner`
unfoldable pub assign_order_to_partner : Distance → Score → ℕ → Option ℕ → World → World × Outcome
assign_order_to_partner distance score order_id exclude w =
    let w1 = count_attempt order_id w in
    if ltb max_assignment_attempts (attempts_of order_id w1)
    then (emit_assignment_failure order_id w1, max_attempts_exceeded)
    else elim (lookup order_id w1.store.orders) [
      | none ↦ (w1, order_not_found)
      | some o ↦ elim (blocked_reason o) [
        | some r ↦ (w1, r)
        | none ↦ choose_partner distance score order_id exclude w1
      ]
    ]

-- `retryAssignOrderToPartner`
unfoldable pub retry_assign_order_to_partner :
    Distance → Score → ℕ → Option ℕ → Bool → World → World × Outcome
retry_assign_order_to_partner distance score order_id exclude reset_attempts w =
    assign_order_to_partner distance score order_id exclude
      (if reset_attempts then record w { attempts = erase order_id w.attempts } else w)

-- The guards of `manualAssignOrderToPartner` on the order's row.
unfoldable pub manual_reason : Order → Option Outcome
manual_reason o =
    if is_order_blocked_from_assignment o
    then some failed_delivery_pending
    else if not (is_assignable o.status)
    then some order_not_assignable
    else none

-- The rows that `manualAssignOrderToPartner` writes for the rider chosen.
abbrev pub manual_write : ℕ → ℕ → World → World
manual_write order_id rider w =
    let w1 = upsert_assignment order_id rider w in
    let w2 : World = record w1 { attempts = erase order_id w1.attempts } in
    in_store (λ s. (resolve_admin_task_by_order assignment_failed order_id none s).0)
      (schedule_assignment_timeout order_id rider w2)

-- `manualAssignOrderToPartner`
unfoldable pub manual_assign_order_to_partner : ℕ → ℕ → World → World × Outcome
manual_assign_order_to_partner order_id rider w = elim (lookup order_id w.store.orders) [
  | none ↦ (w, order_not_found)
  | some o ↦ elim (manual_reason o) [
    | some r ↦ (w, r)
    | none ↦ elim (lookup rider w.store.partners) [
      | none ↦ (w, partner_not_found)
      | some p ↦
          if not p.approved
          then (w, partner_not_approved)
          else if is_rider_at_load_cap (count_rider_active_orders rider w)
          then (w, rider_load_cap)
          else (manual_write order_id rider w, given_to rider (immediate (order_id ∷ [])))
    ]
  ]
]

-- `ensureOrderAssigned`
unfoldable pub ensure_order_assigned : Distance → Score → ℕ → World → World × Outcome
ensure_order_assigned distance score order_id w =
    let go : World × Outcome =
      retry_assign_order_to_partner distance score order_id none
        (leb max_assignment_attempts (attempts_of order_id w)) w in
    elim (lookup order_id w.store.orders) [
      | none ↦ go
      | some o ↦ if has_live_assignment o then (w, already_assigned) else go
    ]
