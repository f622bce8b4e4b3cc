-- ===== src/Dispatch/World.antt =====
-- What the assignment of riders reads and writes besides the database: the windows and the timers that
-- backend/src/services/order-batcher.js and assignment.service.js keep in memory, and the counters and
-- claims in Redis. The constants are those of backend/src/config/businessRules.js, with the defaults
-- of the environment's; distances are in metres.
use meatvo_app.Base.{
  Bool, List, Map, Option, [], false, if◌then◌else◌, leb, none, not, some, update, ℕ, ◌&&◌, ◌+◌,
  ◌-◌, ◌==◌, ◌∷◌,
}
use meatvo_app.Status.Names.{Status, cancelled, delivered, includes, packed, status_eq}
use meatvo_app.Status.Assignment.{AssignmentStatus}
use meatvo_app.Store.{Order, Point, Store}
use meatvo_app.Lifecycle.Transition.{is_live}

-- ASSIGNMENT and BATCHING
abbrev pub max_active_orders : ℕ
max_active_orders = 2

abbrev pub max_assignment_attempts : ℕ
max_assignment_attempts = 3

abbrev pub small_fleet_threshold : ℕ
small_fleet_threshold = 3

abbrev pub max_batch_size : ℕ
max_batch_size = 4

abbrev pub batch_radius : ℕ
batch_radius = 2000

abbrev pub edge_zone_batch_skip : ℕ
edge_zone_batch_skip = 4000

-- An entry of `pendingBatchWindows`; a Set keeps its members in the order of their insertion. The size
-- is what the window's timer will call `finalizeBatchWindow` with.
pub record Window : Type 0 where
  pub max_size : ℕ
  pub rider : ℕ
  pub center : Point
  pub order_ids : List ℕ

-- `order:broadcast_claim:<order>`: 'pending', or the rider who claimed the order.
pub data Claim : Type 0 where
  unclaimed : Claim
  claimed : ℕ → Claim

-- `Number(null)` is 0.
abbrev pub point_or_zero : Option Point → Point
point_or_zero none = record { lat = 0; lng = 0 }
point_or_zero (some p) = p

pub record World : Type 0 where
  pub store : Store
  pub addresses : Map Point  -- `lat` and `lng` of an order's address, which has both or neither
  pub center : Option Point  -- `store_settings`, where there is a row; a NULL coordinate is a 0
  pub recent : List ℕ  -- the orders created in the last ten minutes
  pub wait_ms : ℕ  -- `resolveBatchWaitMs`
  pub windows : Map Window
  pub timers : Map ℕ  -- `pendingAssignmentTimeouts`: the rider of each
  pub attempts : Map ℕ  -- `assign:attempts:<order>`; the day after which Redis drops them is left out
  pub claims : Map Claim

-- `activeAssignmentStatuses`
abbrev pub has_live_assignment : Order → Bool
has_live_assignment o = elim o.assignment [ none ↦ false | some a ↦ is_live a.status ]

-- The order is the rider's, the assignment is live, and the order is not over.
abbrev pub is_active_for : ℕ → Order → Bool
is_active_for rider o = elim o.assignment [
  | none ↦ false
  | some a ↦
      a.partner_user_id == rider
      && (is_live a.status && not (includes (delivered ∷ cancelled ∷ []) o.status))
]

abbrev pub count_active : ℕ → Map Order → ℕ
count_active rider [] = 0
count_active rider ((_, o) ∷ m) = (if is_active_for rider o then 1 else 0) + count_active rider m

-- `countRiderActiveOrders`
abbrev pub count_rider_active_orders : ℕ → World → ℕ
count_rider_active_orders rider w = count_active rider w.store.orders

-- `getRiderRemainingCapacity`: `Math.max(0, MAX_ACTIVE_ORDERS - activeCount)`
abbrev pub get_rider_remaining_capacity : ℕ → ℕ
get_rider_remaining_capacity active_count = max_active_orders - active_count

-- `isRiderAtLoadCap`
abbrev pub is_rider_at_load_cap : ℕ → Bool
is_rider_at_load_cap active_count = leb max_active_orders active_count

-- `assignableOrderStatuses`
abbrev pub is_assignable : Status → Bool
is_assignable t = status_eq t packed

abbrev pub write_orders : (Map Order → Map Order) → World → World
write_orders f w = record w { store = record w.store { orders = f w.store.orders } }

abbrev pub assigned_to : ℕ → Order → Order
assigned_to rider o = record o {
  assignment = some (record { partner_user_id = rider; status = AssignmentStatus.assigned });
}

-- `INSERT INTO order_assignments ... ON CONFLICT (order_id) DO UPDATE` with the status ASSIGNED. The
-- order exists where this is called.
abbrev pub upsert_assignment : ℕ → ℕ → World → World
upsert_assignment order_id rider = write_orders (update order_id (assigned_to rider))
