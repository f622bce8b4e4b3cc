-- ===== src/Dispatch/Queue.antt =====
use meatvo_app.Base.{
  Bool, List, Map, Option, [], false, if◌then◌else◌, leb, ltb, none, not, some, take, true, ℕ, ◌&&◌,
  ◌+◌, ◌==◌, ◌∷◌,
}
use meatvo_app.Store.{Order, Resolution}
use meatvo_app.Dispatch.World.{World, has_live_assignment, is_assignable}
use meatvo_app.Dispatch.Batch.{Distance}
use meatvo_app.Dispatch.Eligible.{Score}
use meatvo_app.Dispatch.Assign.{
  Outcome, assign_order_to_partner, is_assigned, no_eligible_partners, rider_load_cap,
}

-- backend/src/services/dispatch.service.js, `getDispatchQueueOrders` and `processDispatchQueue`. The
-- times of the orders, in minutes, stand beside the rows; the database leaves the order of equal keys
-- open, and here the one that comes first in the table stays first. Nothing that is called throws.

-- `packed_at` and `created_at` of a row of `orders`.
pub record Times : Type 0 where
  pub packed_at : Option ℕ
  pub created_at : ℕ

-- PACK_AGE.dispatchPriorityMinutes of backend/src/config/businessRules.js
abbrev pub dispatch_priority_minutes : ℕ
dispatch_priority_minutes = 12

-- The CASE of the ORDER BY: 0 for an order that has been packed long enough.
abbrev pub rank : ℕ → Times → ℕ
rank now t = elim t.packed_at [
  | none ↦ 1
  | some p ↦ if leb (p + dispatch_priority_minutes) now then 0 else 1
]

-- `packed_at ASC NULLS LAST`
abbrev pub is_packed_before : Option ℕ → Option ℕ → Bool
is_packed_before (some a) (some b) = ltb a b
is_packed_before (some a) none = true
is_packed_before none _ = false

-- The ORDER BY.
unfoldable pub is_ahead : ℕ → Times → Times → Bool
is_ahead now a b =
    if ltb (rank now a) (rank now b)
    then true
    else if ltb (rank now b) (rank now a)
    then false
    else if is_packed_before a.packed_at b.packed_at
    then true
    else if is_packed_before b.packed_at a.packed_at
    then false
    else leb a.created_at b.created_at

abbrev pub waits_for_resolution : Option Resolution → Bool
waits_for_resolution (some Resolution.pending) = true
waits_for_resolution _ = false

-- The WHERE clause.
unfoldable pub is_queued : Order → Bool
is_queued o =
    is_assignable o.status
    && (not (has_live_assignment o) && not (waits_for_resolution o.failure.resolution))

abbrev pub queued_ids : Map Order → List ℕ
queued_ids [] = []
queued_ids ((k, o) ∷ m) = let rest = queued_ids m in if is_queued o then k ∷ rest else rest

module _ (now : ℕ) (times : ℕ → Times) where
  abbrev pub put : ℕ → List ℕ → List ℕ
  put k [] = k ∷ []
  put k (j ∷ js) =
      let rest = put k js in if is_ahead now (times k) (times j) then k ∷ j ∷ js else j ∷ rest

  abbrev pub in_order : List ℕ → List ℕ
  in_order [] = []
  in_order (k ∷ ks) = put k (in_order ks)

  -- `getDispatchQueueOrders`
  unfoldable pub get_dispatch_queue_orders : ℕ → World → List ℕ
  get_dispatch_queue_orders limit w = take limit (in_order (queued_ids w.store.orders))

abbrev pub is_trigger : Option ℕ → ℕ → Bool
is_trigger none k = false
is_trigger (some t) k = not (t == 0) && k == t

-- The results at which the queue stops.
abbrev pub ends_queue : Outcome → Bool
ends_queue rider_load_cap = true
ends_queue no_eligible_partners = true
ends_queue _ = false

-- One round of the loop of `processDispatchQueue`: nothing, or the result of an assignment.
abbrev pub queue_round : Distance → Score → Option ℕ → ℕ → World → World × Option Outcome
queue_round distance score trigger k w =
    if is_trigger trigger k
    then (w, none)
    else let (w1, r) = assign_order_to_partner distance score k none w in (w1, some r)

-- The loop, with the orders that were assigned.
unfoldable pub process_orders : Distance → Score → Option ℕ → List ℕ → World → World × List ℕ
process_orders distance score trigger [] w = (w, [])
process_orders distance score trigger (k ∷ ks) w =
    let (w1, done) = queue_round distance score trigger k w in
    let (w2, more) = process_orders distance score trigger ks w1 in
    elim done [
      | none ↦ (w2, more)
      | some r ↦ if ends_queue r then (w1, []) else (w2, if is_assigned r then k ∷ more else more)
    ]

-- `processDispatchQueue`
unfoldable pub process_dispatch_queue :
    Distance → Score → ℕ → (ℕ → Times) → Option ℕ → World → World × List ℕ
process_dispatch_queue distance score now times trigger w =
    process_orders distance score trigger (get_dispatch_queue_orders now times 10 w) w
