-- ===== src/Delivery/Tests.antt =====
-- The modelled code of backend/src/modules/delivery/delivery.controller.js on concrete inputs.
use meatvo_app.Base.{
  Bool, Text, [], codes, err, false, lookup, none, ok, refl, some, true, update, ℕ, ◌∷◌, ◌≡◌,
}
use meatvo_app.Status.Names.{delivered, on_the_way, packed}
use meatvo_app.Status.Assignment.{AssignmentStatus}
use meatvo_app.Store.{Order, PaymentStatus, ReconStatus, TransactionStatus, cod}
use meatvo_app.Samples.{order_in, store_of}
use meatvo_app.FailedDelivery.Words.{is_order_blocked_from_assignment}
use meatvo_app.FailedDelivery.Handlers.{has_profile}
use meatvo_app.Lifecycle.Transition.{is_weight_reconciliation_complete_for_dispatch}
use meatvo_app.Dispatch.World.{World, claimed, unclaimed, write_orders}
use meatvo_app.Dispatch.Batch.{Distance}
use meatvo_app.Dispatch.Eligible.{Score}
use meatvo_app.Dispatch.Assign.{assign_order_to_partner, blocked_reason, order_not_assignable}
use meatvo_app.Dispatch.Timeout.{clear_assignment_timeout}
use meatvo_app.Delivery.Otp.{Hash, Otp, Site, create_delivery_otp, ensure_delivery_otp}
use meatvo_app.Delivery.Handlers.{
  accept_request, check_accept, hand_over, order_already_assigned, reject_order, reject_request,
  try_claim_broadcast_order,
}
use meatvo_app.Delivery.Handed.{delivered_site}
use meatvo_app.Delivery.Rejected.{accept_exclusive}

-- A hash for the tests: the order before the code.
abbrev sample_hash : Hash
sample_hash order_id otp = order_id ∷ otp

abbrev no_proof_valid : ℕ → Text → Bool
no_proof_valid rider url = false

-- A cash order on its way with user 8.
abbrev cash_order : Order
cash_order = record (order_in on_the_way PaymentStatus.pending) {
  payment_mode = cod;
  assignment = some (record { partner_user_id = 8; status = AssignmentStatus.picked });
}

abbrev world_of : Order → World
world_of o = record {
  store = store_of o TransactionStatus.success 8;
  addresses = [];
  center = none;
  recent = [];
  wait_ms = 0;
  windows = [];
  timers = [];
  attempts = [];
  claims = [];
}

abbrev code : Text
code = codes "123456"

abbrev on_the_road : Site
on_the_road = record {
  world = world_of cash_order;
  otps = (1, record { hash = 1 ∷ code; display = code }) ∷ [];
}

abbrev at_the_door : Site
at_the_door = delivered_site 8 1 code none on_the_road

cash_collected :
    lookup 1 at_the_door.world.store.orders
    ≡ some (record cash_order {
      status = delivered;
      payment_status = PaymentStatus.other (codes "COLLECTED");
      assignment = some (record { partner_user_id = 8; status = AssignmentStatus.delivered });
    })
cash_collected = refl

abbrev codeless_road : Site
codeless_road = record on_the_road { otps = [] }

-- An order that was broadcast: packed, without an assignment.
abbrev broadcast_order : Order
broadcast_order = record (order_in packed PaymentStatus.paid) {
  recon_status = ReconStatus.completed;
}

abbrev broadcast_site : Site
broadcast_site = record {
  world = record (world_of broadcast_order) {
    store = record (store_of broadcast_order TransactionStatus.success 8) {
      partners =
          (8, record { is_online = true; approved = true; position = none })
          ∷ (9, record { is_online = true; approved = true; position = none })
          ∷ [];
    };
    claims = (1, unclaimed) ∷ [];
  };
  otps = [];
}

abbrev claimed_site : Site
claimed_site = record broadcast_site {
  world = record broadcast_site.world { claims = (1, claimed 8) ∷ [] };
}

claims_first :
    accept_request sample_hash code 8 1 broadcast_site
    ≡ ok (hand_over sample_hash code 1 8 claimed_site)
unfolding accept_request check_accept try_claim_broadcast_order
    is_weight_reconciliation_complete_for_dispatch
claims_first = refl

known_after : has_profile 9 (hand_over sample_hash code 1 8 claimed_site).world.store ≡ true
unfolding hand_over ensure_delivery_otp create_delivery_otp
known_after = refl

accept_exclusive_example :
    accept_request sample_hash code 9 1 (hand_over sample_hash code 1 8 claimed_site)
    ≡ err order_already_assigned
accept_exclusive_example =
    accept_exclusive sample_hash code code 8 9 1 broadcast_site
      (hand_over sample_hash code 1 8 claimed_site) claims_first refl known_after

-- Any distance and any score.
abbrev flat_distance : Distance
flat_distance p q = 0

abbrev flat_score : Score
flat_score w rider km active = 0

abbrev rejected_world : World
rejected_world =
    (assign_order_to_partner flat_distance flat_score 1 (some 8) (
      clear_assignment_timeout 1
        (write_orders (update 1 (reject_order 8)) (world_of cash_order)))).0

rejects :
    reject_request flat_distance flat_score 8 1 (world_of cash_order)
    ≡ ok (rejected_world, order_not_assignable)
unfolding reject_request assign_order_to_partner blocked_reason is_order_blocked_from_assignment
rejects = refl
