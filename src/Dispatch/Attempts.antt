-- ===== src/Dispatch/Attempts.antt =====
-- The counter of the assignment attempts in backend/src/services/assignment.service.js, and how often the
-- timer of an order can fire.
use meatvo_app.Base.{
  Bool-cases, List, Option, Option-cases, [], ap, arith, inl, inr, lookup, lookup-insert, ltb,
  or_else, refl, suc, take, ℕ, ◌==◌, ◌∙◌, ◌∷◌, ◌≡◌, ◌≤◌,
}
use meatvo_app.Store.{Point}
use meatvo_app.Dispatch.World.{
  World, count_rider_active_orders, get_rider_remaining_capacity, is_rider_at_load_cap,
  max_assignment_attempts, upsert_assignment,
}
use meatvo_app.Dispatch.Batch.{
  Distance, assign_batch_to_rider, distinct, effective_max, get_batch_for_rider, get_order_coords,
  resolve_effective_batch_wait_ms, upsert_all,
}
use meatvo_app.Dispatch.Windows.{
  assign_and_watch, defer, on_assigned, schedule_assignment_timeout, schedule_batch_assignment,
  try_join_batch_window,
}
use meatvo_app.Dispatch.Eligible.{Candidate, Score, get_first_approved_partner}
use meatvo_app.Dispatch.Assign.{
  assign_beyond_tiers, assign_candidate, assign_fallback, assign_order_to_partner,
  assign_with_batching, attempts_of, blocked_reason, choose_partner, count_attempt, distance_tiers,
  first_tier, online_riders,
}
use meatvo_app.Dispatch.Calls.{List-cases}

on_assigned-attempts :
    (ks : List ℕ) (rider : ℕ) (w : World) → (on_assigned ks rider w).attempts ≡ w.attempts
on_assigned-attempts [] rider w = refl
on_assigned-attempts (k ∷ ks) rider w =
    on_assigned-attempts ks rider (schedule_assignment_timeout k rider w)

upsert_all-attempts :
    (ks : List ℕ) (rider : ℕ) (w : World) → (upsert_all ks rider w).attempts ≡ w.attempts
upsert_all-attempts [] rider w = refl
upsert_all-attempts (k ∷ ks) rider w = upsert_all-attempts ks rider (upsert_assignment k rider w)

watch-attempts :
    (rider : ℕ) (ids : List ℕ) (size : ℕ) (w : World)
    → (assign_and_watch rider ids size w).0.attempts ≡ w.attempts
unfolding assign_batch_to_rider
watch-attempts rider ids size w =
    let ks = take (effective_max size) (distinct ids) in
    on_assigned-attempts ks rider (upsert_all ks rider w) ∙ upsert_all-attempts ks rider w

defer-attempts :
    (distance : Distance) (p : Point) (k rider size : ℕ) (w : World)
    → (defer distance p k rider size w).0.attempts ≡ w.attempts
unfolding defer
defer-attempts distance p k rider size w = ground arith

batching-attempts :
    (distance : Distance) (k rider : ℕ) (w : World)
    → (assign_with_batching distance k rider w).0.attempts ≡ w.attempts
unfolding assign_with_batching schedule_batch_assignment
batching-attempts distance k rider w =
    let size = effective_max (get_rider_remaining_capacity (count_rider_active_orders rider w)) in
    let now = watch-attempts rider (get_batch_for_rider distance k size w) size w in
    elim (Bool-cases (is_rider_at_load_cap (count_rider_active_orders rider w))) [
      | inl full ↦ rw (full, assign_with_batching) refl
      | inr free ↦ elim (Option-cases (get_order_coords k w)) [
        | inl nowhere ↦ rw (free, nowhere, assign_with_batching, schedule_batch_assignment) now
        | inr (p, at) ↦ elim (Bool-cases (resolve_effective_batch_wait_ms distance k w == 0)) [
          | inl hurry ↦ rw (free, at, hurry, assign_with_batching, schedule_batch_assignment) now
          | inr wait ↦
              rw (free, at, wait, assign_with_batching, schedule_batch_assignment)
                (defer-attempts distance p k rider size w)
        ]
      ]
    ]

fallback-attempts :
    (distance : Distance) (k : ℕ) (x : Option ℕ) (w : World)
    → (assign_fallback distance k x w).0.attempts ≡ w.attempts
unfolding assign_fallback
fallback-attempts distance k x w = elim (Option-cases (get_first_approved_partner x w)) [
  | inr (rider, found) ↦ rw (found, assign_fallback) (batching-attempts distance k rider w)
  | inl nobody ↦ ground arith
]

beyond-attempts :
    (distance : Distance) (k : ℕ) (x : Option ℕ) (w : World)
    → (assign_beyond_tiers distance k x w).0.attempts ≡ w.attempts
unfolding assign_beyond_tiers
beyond-attempts distance k x w = elim (List-cases (online_riders w.store.partners)) [
  | inl nobody ↦ rw (nobody, assign_beyond_tiers) (fallback-attempts distance k x w)
  | inr (rider, others, e) ↦ ground (arith, batching-attempts distance k rider w)
]

candidate-attempts :
    (distance : Distance) (k : ℕ) (c : Candidate) (w : World)
    → (assign_candidate distance k c w).0.attempts ≡ w.attempts
unfolding assign_candidate
candidate-attempts distance k c w = ground (arith, batching-attempts distance k c.rider w)

join-attempts :
    (distance : Distance) (k : ℕ) (w : World)
    → (try_join_batch_window distance k w).0.attempts ≡ w.attempts
unfolding try_join_batch_window
join-attempts distance k w = ground arith

choose-attempts :
    (distance : Distance) (score : Score) (k : ℕ) (x : Option ℕ) (w : World)
    → (choose_partner distance score k x w).0.attempts ≡ w.attempts
unfolding choose_partner
choose-attempts distance score k x w =
    let w1 = (try_join_batch_window distance k w).0 in
    let before = join-attempts distance k w in
    elim (Option-cases (try_join_batch_window distance k w).1) [
      | inr (found, waits) ↦ rw (waits, choose_partner) before
      | inl alone ↦ elim (List-cases (first_tier distance score k x w1 distance_tiers)) [
        | inl nobody ↦ rw (alone, nobody, choose_partner) (beyond-attempts distance k x w1 ∙ before)
        | inr (c, cs, best) ↦
            rw (alone, best, choose_partner) (candidate-attempts distance k c w1 ∙ before)
      ]
    ]

-- Every call counts one attempt.
pub assign-attempts :
    (distance : Distance) (score : Score) (k : ℕ) (x : Option ℕ) (w : World)
    → attempts_of k (assign_order_to_partner distance score k x w).0 ≡ suc (attempts_of k w)
unfolding assign_order_to_partner
assign-attempts distance score k x w =
    let w1 = count_attempt k w in
    let counted : attempts_of k w1 ≡ suc (attempts_of k w) =
      ground (arith, lookup-insert k k (suc (attempts_of k w)) w.attempts) in
    elim (Bool-cases (ltb max_assignment_attempts (attempts_of k w1))) [
      | inl spent ↦ rw (spent, assign_order_to_partner) counted
      | inr more ↦ elim (Option-cases (lookup k w.store.orders)) [
        | inl gone ↦ rw (more, gone, assign_order_to_partner) counted
        | inr (o, at) ↦ elim (Option-cases (blocked_reason o)) [
          | inr (r, blocked) ↦ rw (more, at, blocked, assign_order_to_partner) counted
          | inl free ↦
              rw (more, at, free, assign_order_to_partner)
                (ap (λ m. or_else (lookup k m) 0) (choose-attempts distance score k x w1) ∙ counted)
        ]
      ]
    ]

-- A call past the last attempt sets no timer.
pub assign-timers :
    (distance : Distance) (score : Score) (k : ℕ) (x : Option ℕ) (w : World)
    → max_assignment_attempts ≤ attempts_of k w
    → (assign_order_to_partner distance score k x w).0.timers ≡ w.timers
unfolding assign_order_to_partner
assign-timers distance score k x w spent =
    ground (arith, lookup-insert k k (suc (attempts_of k w)) w.attempts)
