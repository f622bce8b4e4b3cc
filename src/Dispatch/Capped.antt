-- ===== src/Dispatch/Capped.antt =====
-- The cap on a rider's orders through the calls of backend/src/services/assignment.service.js.
use meatvo_app.Base.{
  Bool-cases, List, Option, Option-cases, [], arith, inl, inr, leb, length, none, refl, suc, ℕ, ◌+◌,
  ◌==◌, ◌∷◌, ◌≡◌, ◌≤◌,
}
use meatvo_app.Store.{Point, assignment_failed}
use meatvo_app.FailedDelivery.Tasks.{create_open_admin_task, resolve_admin_task_by_order}
use meatvo_app.Dispatch.World.{
  World, count_rider_active_orders, get_rider_remaining_capacity, is_rider_at_load_cap,
  max_active_orders, max_assignment_attempts, small_fleet_threshold,
}
use meatvo_app.Dispatch.Batch.{
  Distance, effective_max, get_batch_for_rider, get_order_coords, resolve_effective_batch_wait_ms,
}
use meatvo_app.Dispatch.Windows.{defer, schedule_batch_assignment, try_join_batch_window}
use meatvo_app.Dispatch.Eligible.{Candidate, get_first_approved_partner}
use meatvo_app.Dispatch.Assign.{
  assign_beyond_tiers, assign_candidate, assign_fallback, assign_with_batching, attempts_of,
  emit_assignment_failure, in_store, is_assigned, mark_order_broadcast_pending, online_riders,
}
use meatvo_app.Dispatch.Load.{IsCapped, same-IsCapped, watch-IsCapped}

defer-orders :
    (distance : Distance) (p : Point) (k rider size : ℕ) (w : World)
    → (defer distance p k rider size w).0.store.orders ≡ w.store.orders
unfolding defer
defer-orders distance p k rider size w = ground arith

schedule-IsCapped :
    (distance : Distance) (k rider size : ℕ) (w : World)
    → IsCapped w
    → effective_max (effective_max size) + count_rider_active_orders rider w ≤ max_active_orders
    → IsCapped (schedule_batch_assignment distance k rider size w).0
unfolding schedule_batch_assignment
schedule-IsCapped distance k rider size w h room =
    let now =
      watch-IsCapped rider (get_batch_for_rider distance k (effective_max size) w)
        (effective_max size) w h room in
    elim (Option-cases (get_order_coords k w)) [
      | inl nowhere ↦ rw (nowhere, schedule_batch_assignment) now
      | inr (p, at) ↦ elim (Bool-cases (resolve_effective_batch_wait_ms distance k w == 0)) [
        | inl hurry ↦ rw (at, hurry, schedule_batch_assignment) now
        | inr wait ↦
            rw (at, wait, schedule_batch_assignment)
              (same-IsCapped w (defer distance p k rider (effective_max size) w).0
                (defer-orders distance p k rider (effective_max size) w) h)
      ]
    ]

pub batching-IsCapped :
    (distance : Distance) (k rider : ℕ) (w : World)
    → IsCapped w
    → IsCapped (assign_with_batching distance k rider w).0
unfolding assign_with_batching
batching-IsCapped distance k rider w h =
    let n = count_rider_active_orders rider w in
    elim (Bool-cases (is_rider_at_load_cap n)) [
      | inl full ↦ rw (full, assign_with_batching) h
      | inr free ↦
          rw (free, assign_with_batching)
            (schedule-IsCapped distance k rider (get_rider_remaining_capacity n) w h (ground arith))
    ]

pub failure-IsCapped : (k : ℕ) (w : World) → IsCapped w → IsCapped (emit_assignment_failure k w)
unfolding create_open_admin_task
failure-IsCapped k w h = same-IsCapped w (emit_assignment_failure k w) (ground arith) h

abbrev pub resolve_tasks : ℕ → World → World
resolve_tasks k = in_store (λ s. (resolve_admin_task_by_order assignment_failed k none s).0)

pub resolve_tasks-IsCapped : (k : ℕ) (w : World) → IsCapped w → IsCapped (resolve_tasks k w)
unfolding resolve_admin_task_by_order
resolve_tasks-IsCapped k w h = same-IsCapped w (resolve_tasks k w) refl h

fallback-IsCapped :
    (distance : Distance) (k : ℕ) (x : Option ℕ) (w : World)
    → IsCapped w
    → IsCapped (assign_fallback distance k x w).0
unfolding assign_fallback
fallback-IsCapped distance k x w h = elim (Option-cases (get_first_approved_partner x w)) [
  | inr (rider, found) ↦ rw (found, assign_fallback) (batching-IsCapped distance k rider w h)
  | inl nobody ↦ elim (Bool-cases (leb max_assignment_attempts (attempts_of k w))) [
    | inl spent ↦ rw (nobody, spent, assign_fallback) (failure-IsCapped k w h)
    | inr more ↦ rw (nobody, more, assign_fallback) h
  ]
]

mark-IsCapped : (k : ℕ) (w : World) → IsCapped w → IsCapped (mark_order_broadcast_pending k w)
mark-IsCapped k w h = same-IsCapped w (mark_order_broadcast_pending k w) (ground arith) h

pub beyond-IsCapped :
    (distance : Distance) (k : ℕ) (x : Option ℕ) (w : World) (riders : List ℕ)
    → online_riders w.store.partners ≡ riders
    → IsCapped w
    → IsCapped (assign_beyond_tiers distance k x w).0
unfolding assign_beyond_tiers
beyond-IsCapped distance k x w [] e h =
    rw (e, assign_beyond_tiers) (fallback-IsCapped distance k x w h)
beyond-IsCapped distance k x w (rider ∷ others) e h =
    elim (Bool-cases (leb (suc (length others)) small_fleet_threshold)) [
      | inl small ↦ rw (e, small, assign_beyond_tiers) (batching-IsCapped distance k rider w h)
      | inr large ↦ rw (e, large, assign_beyond_tiers) (mark-IsCapped k w h)
    ]

pub candidate-IsCapped :
    (distance : Distance) (k : ℕ) (c : Candidate) (w : World)
    → IsCapped w
    → IsCapped (assign_candidate distance k c w).0
unfolding assign_candidate
candidate-IsCapped distance k c w h =
    let after = batching-IsCapped distance k c.rider w h in
    elim (Bool-cases (is_assigned (assign_with_batching distance k c.rider w).1)) [
      | inl given ↦
          rw (given, assign_candidate)
            (resolve_tasks-IsCapped k (assign_with_batching distance k c.rider w).0 after)
      | inr refused ↦ rw (refused, assign_candidate) after
    ]

pub join-orders :
    (distance : Distance) (k : ℕ) (w : World)
    → (try_join_batch_window distance k w).0.store.orders ≡ w.store.orders
unfolding try_join_batch_window
join-orders distance k w = ground arith
