-- ===== src/Dispatch/Windows.antt =====
-- backend/src/services/order-batcher.js, lines 93 to 129 and 336 to 436: the windows in which orders wait
-- for others that are near.
use meatvo_app.Base.{
  Bool, List, Map, Option, [], erase, false, if◌then◌else◌, insert, leb, length, lookup, ltb, none,
  not, some, true, update, ℕ, ◌&&◌, ◌++◌, ◌==◌, ◌∷◌,
}
use meatvo_app.Store.{Point}
use meatvo_app.Dispatch.World.{Window, World, batch_radius, max_batch_size}
use meatvo_app.Dispatch.Batch.{
  Distance, assign_batch_to_rider, effective_max, get_batch_for_rider, get_order_coords,
  get_store_to_customer_distance, has, is_edge, resolve_effective_batch_wait_ms,
}

pub data JoinStatus : Type 0 where
  already_scheduled already_in_window joined : JoinStatus

abbrev pub add_order : ℕ → Window → Window
add_order order_id v = record v { order_ids = v.order_ids ++ (order_id ∷ []) }

-- The loop of `tryJoinBatchWindow`: the window that takes the order, and how.
unfoldable pub find_window : Distance → Point → ℕ → Map Window → Option (ℕ × JoinStatus)
find_window distance p order_id [] = none
find_window distance p order_id ((anchor, v) ∷ windows) =
    let rest = find_window distance p order_id windows in
    if anchor == order_id
    then some (anchor, already_scheduled)
    else if has v.order_ids order_id
    then some (anchor, already_in_window)
    else if leb max_batch_size (length v.order_ids)
    then rest
    else if leb (distance p v.center) batch_radius
    then some (anchor, joined)
    else rest

abbrev pub join : ℕ → Option (ℕ × JoinStatus) → World → World
join order_id found w = elim found [
  | none ↦ w
  | some (anchor, s) ↦ elim s [
    | joined ↦ record w { windows = update anchor (add_order order_id) w.windows }
    | _ ↦ w
  ]
]

-- `tryJoinBatchWindow`
unfoldable pub try_join_batch_window : Distance → ℕ → World → World × Option (ℕ × JoinStatus)
try_join_batch_window distance order_id w =
    if is_edge (get_store_to_customer_distance distance order_id w)
    then (w, none)
    else elim (get_order_coords order_id w) [
      | none ↦ (w, none)
      | some p ↦
          let found = find_window distance p order_id w.windows in (join order_id found w, found)
    ]

-- `scheduleAssignmentTimeout`: the timer of the order is cleared and set anew.
abbrev pub schedule_assignment_timeout : ℕ → ℕ → World → World
schedule_assignment_timeout order_id rider w = record w { timers = insert order_id rider w.timers }

-- `onAssigned`
abbrev pub on_assigned : List ℕ → ℕ → World → World
on_assigned [] rider w = w
on_assigned (k ∷ ks) rider w = on_assigned ks rider (schedule_assignment_timeout k rider w)

abbrev pub assign_and_watch : ℕ → List ℕ → ℕ → World → World × List ℕ
assign_and_watch rider order_ids max_size w =
    let (w1, assigned) = assign_batch_to_rider rider order_ids max_size w in
    (on_assigned assigned rider w1, assigned)

pub data Schedule : Type 0 where
  immediate : List ℕ → Schedule
  deferred : ℕ → Bool → Schedule  -- the anchor, and whether its window was joined

-- The loop of `scheduleBatchAssignment` over the windows of the rider.
unfoldable pub find_own_window : Distance → Point → ℕ → Map Window → Option ℕ
find_own_window distance p rider [] = none
find_own_window distance p rider ((anchor, v) ∷ windows) =
    let rest = find_own_window distance p rider windows in
    if not (v.rider == rider)
    then rest
    else if leb max_batch_size (length v.order_ids)
    then rest
    else if leb (distance p v.center) batch_radius
    then some anchor
    else rest

-- The branches of `scheduleBatchAssignment` for an order with an address and a wait.
unfoldable pub defer : Distance → Point → ℕ → ℕ → ℕ → World → World × Schedule
defer distance p order_id rider size w = elim (lookup order_id w.windows) [
  | some _ ↦ (w, deferred order_id false)
  | none ↦ elim (find_own_window distance p rider w.windows) [
    | some anchor ↦
        (record w { windows = update anchor (add_order order_id) w.windows }, deferred anchor true)
    | none ↦ (
      record w {
        windows =
            insert order_id
              (record { rider = rider; center = p; order_ids = order_id ∷ []; max_size = size })
              w.windows;
      },
      deferred order_id false,
    )
  ]
]

-- `scheduleBatchAssignment`
unfoldable pub schedule_batch_assignment : Distance → ℕ → ℕ → ℕ → World → World × Schedule
schedule_batch_assignment distance order_id rider max_size w =
    let size = effective_max max_size in
    let now : World × Schedule =
      let (w1, ids) =
        assign_and_watch rider (get_batch_for_rider distance order_id size w) size w in
      (w1, immediate ids) in
    elim (get_order_coords order_id w) [
      | none ↦ now
      | some p ↦
          if resolve_effective_batch_wait_ms distance order_id w == 0
          then now
          else defer distance p order_id rider size w
    ]

-- The loop of `finalizeBatchWindow` over the orders scanned.
abbrev pub merge : ℕ → List ℕ → List ℕ → List ℕ
merge size merged [] = merged
merge size merged (k ∷ scanned) =
    merge size
      (if not (has merged k) && ltb (length merged) size then merged ++ (k ∷ []) else merged)
      scanned

-- `finalizeBatchWindow`, which the timer of the window calls.
unfoldable pub finalize_batch_window : Distance → ℕ → World → World × List ℕ
finalize_batch_window distance anchor w = elim (lookup anchor w.windows) [
  | none ↦ (w, [])
  | some v ↦
      let w1 : World = record w { windows = erase anchor w.windows } in
      let scanned = get_batch_for_rider distance anchor v.max_size w1 in
      assign_and_watch v.rider (merge v.max_size v.order_ids scanned) v.max_size w1
]
