-- ===== src/Dispatch/Batch.antt =====
use meatvo_app.Dispatch.World.{
  World, batch_radius, edge_zone_batch_skip, has_live_assignment, is_assignable, max_batch_size,
  point_or_zero, upsert_assignment,
}
-- backend/src/services/order-batcher.js, lines 28 to 334: the orders that go with an order, and their
-- assignment. `distance` is the great-circle distance (backend/src/modules/delivery/route-optimizer.js,
-- `haversineKm`), which is floating-point trigonometry and stays a parameter.
use mathlib.Core.Option
use meatvo_app.Base.{
  Bool, List, Map, Option, [], any, false, filter, if◌then◌else◌, leb, lookup, ltb, none, not, some,
  suc, take, true, zero, ℕ, ◌&&◌, ◌-◌, ◌==◌, ◌∷◌,
}
use meatvo_app.Store.{Order, Point}

abbrev pub Distance : Type 0
Distance = Point → Point → ℕ

abbrev pub min : ℕ → ℕ → ℕ
min a b = if leb a b then a else b

-- `Math.max(1, Math.min(maxBatchSize, MAX_BATCH_SIZE))`
abbrev pub effective_max : ℕ → ℕ
effective_max n = let m = min n max_batch_size in if m == 0 then 1 else m

abbrev pub has : List ℕ → ℕ → Bool
has l n = any (λ k. k == n) l

-- `getOrderCoords`: none without a row of the order, and (0, 0) for an address without coordinates.
abbrev pub get_order_coords : ℕ → World → Option Point
get_order_coords order_id w =
    Option.map (λ _. point_or_zero (lookup order_id w.addresses)) (lookup order_id w.store.orders)

-- `getStoreToCustomerDistanceKm`
abbrev pub get_store_to_customer_distance : Distance → ℕ → World → Option ℕ
get_store_to_customer_distance distance order_id w = elim (get_order_coords order_id w) [
  | none ↦ none
  | some p ↦ elim w.center [ none ↦ none | some c ↦ some (distance c p) ]
]

abbrev pub is_edge : Option ℕ → Bool
is_edge none = false
is_edge (some d) = ltb edge_zone_batch_skip d

-- `resolveEffectiveBatchWaitMs`
abbrev pub resolve_effective_batch_wait_ms : Distance → ℕ → World → ℕ
resolve_effective_batch_wait_ms distance order_id w =
    if is_edge (get_store_to_customer_distance distance order_id w) then 0 else w.wait_ms

-- A row of the query of `getBatchForRider`.
abbrev pub is_candidate : ℕ → World → ℕ → Order → Bool
is_candidate new_order_id w id o =
    is_assignable o.status
    && (not (has_live_assignment o)
        && (not (id == new_order_id)
            && (has w.recent id && elim (lookup id w.addresses) [ none ↦ false | some _ ↦ true ])))

abbrev pub is_near : Distance → Point → ℕ → World → Bool
is_near distance p id w = elim (get_order_coords id w) [
  | none ↦ false
  | some q ↦ leb (distance p q) batch_radius
]

-- The loop of `getBatchForRider` over the rows, with the room that is left.
abbrev pub scan : Distance → Point → ℕ → World → ℕ → Map Order → List ℕ
scan distance p new_order_id w room [] = []
scan distance p new_order_id w zero ((id, o) ∷ m) = []
scan distance p new_order_id w (suc room) ((id, o) ∷ m) =
    let with_it = scan distance p new_order_id w room m in
    let without = scan distance p new_order_id w (suc room) m in
    if is_candidate new_order_id w id o && is_near distance p id w then id ∷ with_it else without

-- `getBatchForRider`
unfoldable pub get_batch_for_rider : Distance → ℕ → ℕ → World → List ℕ
get_batch_for_rider distance new_order_id max_size w = elim (get_order_coords new_order_id w) [
  | none ↦ new_order_id ∷ []
  | some p ↦
      new_order_id ∷ scan distance p new_order_id w (effective_max max_size - 1) w.store.orders
]

-- `[...new Set(orderIds)]`
abbrev pub distinct : List ℕ → List ℕ
distinct [] = []
distinct (k ∷ ks) = k ∷ filter (λ j. not (j == k)) (distinct ks)

abbrev pub upsert_all : List ℕ → ℕ → World → World
upsert_all [] rider w = w
upsert_all (k ∷ ks) rider w = upsert_all ks rider (upsert_assignment k rider w)

-- `assignBatchToRider`, with the orders assigned.
unfoldable pub assign_batch_to_rider : ℕ → List ℕ → ℕ → World → World × List ℕ
assign_batch_to_rider rider order_ids max_size w =
    let normalized_ids = take (effective_max max_size) (distinct order_ids) in
    (upsert_all normalized_ids rider w, normalized_ids)
