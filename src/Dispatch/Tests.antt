-- ===== src/Dispatch/Tests.antt =====
use meatvo_app.Base.{
  List, [], if◌then◌else◌, length, lookup, none, refl, some, true, update, ℕ, ◌++◌, ◌+◌, ◌-◌, ◌==◌,
  ◌∷◌, ◌≡◌,
}
use meatvo_app.Dispatch.Queued.{IsServed, count, count_waiting, get_dispatch_queue_orders_lem}
use meatvo_app.Dispatch.Queue.{Times, get_dispatch_queue_orders, is_ahead, is_queued}
-- The modelled code of backend/src/services/assignment.service.js and order-batcher.js on concrete inputs.
use meatvo_app.Status.Names.{cancelled, packed, status_eq}
use meatvo_app.Store.{Order, Partner, PaymentStatus, Point, ReconStatus}
use meatvo_app.Samples.{finished, order_in}
use meatvo_app.Lifecycle.Transition.{is_weight_reconciliation_complete_for_dispatch}
use meatvo_app.FailedDelivery.Words.{is_order_blocked_from_assignment}
use meatvo_app.Dispatch.World.{Window, World, assigned_to, upsert_assignment, write_orders}
use meatvo_app.Dispatch.Batch.{Distance, assign_batch_to_rider, get_batch_for_rider, min}
use meatvo_app.Dispatch.Windows.{
  finalize_batch_window, find_window, immediate, schedule_batch_assignment, try_join_batch_window,
}
use meatvo_app.Dispatch.Eligible.{Score, get_eligible_partners, is_eligible}
use meatvo_app.Dispatch.Assign.{
  assign_candidate, assign_order_to_partner, assign_with_batching, blocked_reason, choose_partner,
  given_to,
}
use meatvo_app.Dispatch.Timeout.{
  accept_order, accepted_by, auto_accept_nearest_store_rider, auto_reason, clear_assignment_timeout,
}
use meatvo_app.Dispatch.Closed.{finalize_assigns_waiting}
use meatvo_app.Dispatch.Nearest.{IsAt, IsLeast, auto_accept_nearest}

-- The distance along the two axes.
abbrev grid : Distance
grid p q = (p.lat - q.lat) + (q.lat - p.lat) + ((p.lng - q.lng) + (q.lng - p.lng))

-- The nearer rider has the higher score.
abbrev nearness : Score
nearness w rider km active = 10000 - km

abbrev packed_order : Order
packed_order = record (order_in packed PaymentStatus.paid) { recon_status = ReconStatus.completed }

abbrev at : ℕ → ℕ → Point
at x y = record { lat = x; lng = y }

abbrev rider_at : Point → Partner
rider_at p = record { is_online = true; approved = true; position = some p }

-- Three packed orders close to one another, and two riders.
abbrev town : World
town = record {
  store = record finished {
    orders = (1, packed_order) ∷ (2, packed_order) ∷ (3, packed_order) ∷ [];
    partners = (8, rider_at (at 9000 5000)) ∷ (9, rider_at (at 5500 5000)) ∷ [];
  };
  addresses = (1, at 6000 5000) ∷ (2, at 6100 5000) ∷ (3, at 6200 5000) ∷ [];
  center = some (at 5000 5000);
  recent = 1 ∷ 2 ∷ 3 ∷ [];
  wait_ms = 0;
  windows = [];
  timers = [];
  attempts = [];
  claims = [];
}

-- The nearer rider is given the order and one of its neighbours, and then has the most orders allowed.
batch_of_two :
    (assign_order_to_partner grid nearness 1 none town).1 ≡ given_to 9 (immediate (1 ∷ 2 ∷ []))
unfolding assign_order_to_partner choose_partner blocked_reason try_join_batch_window find_window
    get_eligible_partners is_eligible assign_candidate assign_with_batching
    schedule_batch_assignment get_batch_for_rider assign_batch_to_rider
    is_order_blocked_from_assignment
batch_of_two = refl

-- A window of one order for a rider with one order left to take, which another order has joined.
abbrev waiting : Window
waiting = record { max_size = 1; rider = 9; center = at 6000 5000; order_ids = 1 ∷ 2 ∷ [] }

-- The first of the two was cancelled meanwhile.
abbrev evening : World
evening = record town {
  store = record town.store {
    orders = (1, order_in cancelled PaymentStatus.paid) ∷ (2, packed_order) ∷ [];
  };
  windows = (1, waiting) ∷ [];
}

finalize_assigns_waiting_example :
    lookup 1 (finalize_batch_window grid 1 evening).0.store.orders
    ≡ some (assigned_to 9 (order_in cancelled PaymentStatus.paid))
finalize_assigns_waiting_example =
    finalize_assigns_waiting grid 1 1 evening waiting (order_in cancelled PaymentStatus.paid) refl
      refl refl

-- The order waits for the answer of the rider further away.
abbrev asked : World
asked = upsert_assignment 1 8 town

accepted_nearby :
    auto_accept_nearest_store_rider grid 1 asked
    ≡ (clear_assignment_timeout 1 (write_orders (update 1 (accept_order 9)) asked), accepted_by 9)
unfolding auto_accept_nearest_store_rider auto_reason is_weight_reconciliation_complete_for_dispatch
accepted_nearby = refl

auto_accept_nearest_example :
    (o : Order) × (km : ℕ) × (lookup 1 asked.store.orders ≡ some o)
    × (status_eq o.status packed ≡ true)
    × IsAt grid (at 5000 5000) 9 km asked.store.partners
    × IsLeast grid (at 5000 5000) km asked.store.partners
    × (lookup 1 (write_orders (update 1 (accept_order 9)) asked).store.orders
        ≡ some (accept_order 9 o))
    × (lookup 1 asked.timers ≡ none)
auto_accept_nearest_example =
    auto_accept_nearest grid 1 9 asked
      (clear_assignment_timeout 1 (write_orders (update 1 (accept_order 9)) asked)) accepted_nearby

-- The second order was packed first, and the third is not packed long enough.
abbrev packing_times : ℕ → Times
packing_times k =
    if k == 1
    then record { packed_at = some 5; created_at = 1 }
    else if k == 2
    then record { packed_at = some 3; created_at = 2 }
    else record { packed_at = some 15; created_at = k }

queue_order : get_dispatch_queue_orders 20 packing_times 10 town ≡ 2 ∷ 1 ∷ 3 ∷ []
unfolding get_dispatch_queue_orders is_ahead is_queued
queue_order = refl

get_dispatch_queue_orders_lem_example :
    (rest : List ℕ) × ((k : ℕ)
      → count k (get_dispatch_queue_orders 20 packing_times 2 town ++ rest)
        ≡ count_waiting k town.store.orders)
    × IsServed packing_times (get_dispatch_queue_orders 20 packing_times 2 town ++ rest)
    × (length (get_dispatch_queue_orders 20 packing_times 2 town)
        ≡ min 2 (length (get_dispatch_queue_orders 20 packing_times 2 town ++ rest)))
get_dispatch_queue_orders_lem_example = get_dispatch_queue_orders_lem 20 packing_times 2 town
