-- ===== src/Dispatch/Calls.antt =====
use meatvo_app.Dispatch.World.{
  World, assigned_to, count_rider_active_orders, is_rider_at_load_cap, max_assignment_attempts,
  point_or_zero, write_orders,
}
-- The calls of backend/src/services/assignment.service.js, in any order, and the cap on the orders of a
-- rider.
use meatvo_app.Base.{
  Bool, Bool-cases, List, Option, Option-cases, [], arith, erase, false, inl, inr, lookup, ltb,
  none, refl, true, update, ℕ, ◌==◌, ◌∷◌, ◌≡◌, ◌⊎◌,
}
use meatvo_app.Store.{Order}
use meatvo_app.FailedDelivery.Tasks.{resolve_admin_task_by_order}
use meatvo_app.Dispatch.Batch.{Distance}
use meatvo_app.Dispatch.Windows.{try_join_batch_window}
use meatvo_app.Dispatch.Eligible.{Score, has_location}
use meatvo_app.Dispatch.Assign.{
  assign_order_to_partner, attempts_of, blocked_reason, choose_partner, count_attempt,
  distance_tiers, first_tier, manual_assign_order_to_partner, manual_reason, manual_write,
  online_riders, retry_assign_order_to_partner,
}
use meatvo_app.Dispatch.Timeout.{
  accept_order, auto_accept_nearest_store_rider, auto_reason, clear_assignment_timeout,
  nearest_rider,
}
use meatvo_app.Dispatch.Load.{
  IsCapped, IsFor, assigned-IsFor, count_active-update, same-IsCapped, update-IsUnique,
}
use meatvo_app.Dispatch.Capped.{beyond-IsCapped, candidate-IsCapped, failure-IsCapped, join-orders}

pub List-cases : {A : Type 0} (l : List A) → (l ≡ []) ⊎ ((x : A) × (xs : List A) × (l ≡ x ∷ xs))
List-cases [] = inl refl
List-cases (x ∷ xs) = inr (x, xs, refl)

choose-IsCapped :
    (distance : Distance) (score : Score) (k : ℕ) (x : Option ℕ) (w : World)
    → IsCapped w
    → IsCapped (choose_partner distance score k x w).0
unfolding choose_partner
choose-IsCapped distance score k x w h =
    let w1 = (try_join_batch_window distance k w).0 in
    let h1 = same-IsCapped w w1 (join-orders distance k w) h in
    elim (Option-cases (try_join_batch_window distance k w).1) [
      | inr (found, waits) ↦ rw (waits, choose_partner) h1
      | inl alone ↦ elim (List-cases (first_tier distance score k x w1 distance_tiers)) [
        | inl nobody ↦
            rw (alone, nobody, choose_partner)
              (beyond-IsCapped distance k x w1 (online_riders w1.store.partners) refl h1)
        | inr (c, cs, best) ↦
            rw (alone, best, choose_partner) (candidate-IsCapped distance k c w1 h1)
      ]
    ]

pub assign-IsCapped :
    (distance : Distance) (score : Score) (k : ℕ) (x : Option ℕ) (w : World)
    → IsCapped w
    → IsCapped (assign_order_to_partner distance score k x w).0
unfolding assign_order_to_partner
assign-IsCapped distance score k x w h =
    let w1 = count_attempt k w in
    let h1 = same-IsCapped w w1 refl h in
    elim (Bool-cases (ltb max_assignment_attempts (attempts_of k w1))) [
      | inl spent ↦ rw (spent, assign_order_to_partner) (failure-IsCapped k w1 h1)
      | inr more ↦ elim (Option-cases (lookup k w.store.orders)) [
        | inl gone ↦ rw (more, gone, assign_order_to_partner) h1
        | inr (o, at) ↦ elim (Option-cases (blocked_reason o)) [
          | inr (r, blocked) ↦ rw (more, at, blocked, assign_order_to_partner) h1
          | inl free ↦
              rw (more, at, free, assign_order_to_partner)
                (choose-IsCapped distance score k x w1 h1)
        ]
      ]
    ]

pub retry-IsCapped :
    (distance : Distance) (score : Score) (k : ℕ) (x : Option ℕ) (b : Bool) (w : World)
    → IsCapped w
    → IsCapped (retry_assign_order_to_partner distance score k x b w).0
unfolding retry_assign_order_to_partner
retry-IsCapped distance score k x true w h =
    let cleared : World = record w { attempts = erase k w.attempts } in
    assign-IsCapped distance score k x cleared (same-IsCapped w cleared refl h)
retry-IsCapped distance score k x false w h = assign-IsCapped distance score k x w h

-- Writing an order's assignment for a rider with room keeps the cap.
given-IsCapped :
    (k rider : ℕ) (f : Order → Order) (w w' : World)
    → IsFor rider f
    → w'.store.orders ≡ update k f w.store.orders
    → is_rider_at_load_cap (count_rider_active_orders rider w) ≡ false
    → IsCapped w
    → IsCapped w'
given-IsCapped k rider f w w' its e free h =
    let given = write_orders (update k f) w in
    same-IsCapped given w' e (record {
      unique = update-IsUnique k f w.store.orders h.unique;
      capped = λ r. elim (Bool-cases (r == rider)) [
        | inl same ↦
            let e : r ≡ rider = ground arith in
            ground (arith, count_active-update k r rider f w.store.orders its h.unique)
        | inr apart ↦
            ground (arith, count_active-update k r rider f w.store.orders its h.unique, h.capped r)
      ];
    })

pub manual-IsCapped :
    (k rider : ℕ) (w : World) → IsCapped w → IsCapped (manual_assign_order_to_partner k rider w).0
unfolding manual_assign_order_to_partner resolve_admin_task_by_order
manual-IsCapped k rider w h = elim (Option-cases (lookup k w.store.orders)) [
  | inl gone ↦ rw (gone, manual_assign_order_to_partner) h
  | inr (o, at) ↦ elim (Option-cases (manual_reason o)) [
    | inr (r, blocked) ↦ rw (at, blocked, manual_assign_order_to_partner) h
    | inl open_order ↦ elim (Option-cases (lookup rider w.store.partners)) [
      | inl unknown ↦ rw (at, open_order, unknown, manual_assign_order_to_partner) h
      | inr (p, known) ↦ elim (Bool-cases p.approved) [
        | inr barred ↦ rw (at, open_order, known, barred, manual_assign_order_to_partner) h
        | inl fine ↦ elim (Bool-cases (is_rider_at_load_cap (count_rider_active_orders rider w))) [
          | inl full ↦ rw (at, open_order, known, fine, full, manual_assign_order_to_partner) h
          | inr free ↦
              rw (at, open_order, known, fine, free, manual_assign_order_to_partner)
                (given-IsCapped k rider (assigned_to rider) w (manual_write k rider w)
                  (assigned-IsFor rider) refl free h)
        ]
      ]
    ]
  ]
]

accepted-IsFor : (rider : ℕ) → IsFor rider (accept_order rider)
accepted-IsFor rider r o = ground arith

pub auto-IsCapped :
    (distance : Distance) (k : ℕ) (w : World)
    → IsCapped w
    → IsCapped (auto_accept_nearest_store_rider distance k w).0
unfolding auto_accept_nearest_store_rider
auto-IsCapped distance k w h = elim (Option-cases (lookup k w.store.orders)) [
  | inl gone ↦ rw (gone, auto_accept_nearest_store_rider) h
  | inr (o, at) ↦ elim (Option-cases (auto_reason o)) [
    | inr (r, blocked) ↦ rw (at, blocked, auto_accept_nearest_store_rider) h
    | inl fine ↦ elim (Bool-cases (has_location (point_or_zero w.center))) [
      | inr nowhere ↦ rw (at, fine, nowhere, auto_accept_nearest_store_rider) h
      | inl here ↦
          elim (Option-cases
            (nearest_rider distance (point_or_zero w.center) none w.store.partners)) [
              | inl nobody ↦ rw (at, fine, here, nobody, auto_accept_nearest_store_rider) h
              | inr ((rider, km), best) ↦
                  elim (Bool-cases (is_rider_at_load_cap (count_rider_active_orders rider w))) [
                    | inl full ↦ rw (at, fine, here, best, full, auto_accept_nearest_store_rider) h
                    | inr free ↦
                        rw (at, fine, here, best, free, auto_accept_nearest_store_rider)
                          (given-IsCapped k rider (accept_order rider) w
                            (clear_assignment_timeout k
                              (write_orders (update k (accept_order rider)) w))
                            (accepted-IsFor rider) refl free h)
                  ]
            ]
    ]
  ]
]
