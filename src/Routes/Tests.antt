-- ===== src/Routes/Tests.antt =====
use meatvo_app.Base.{[], err, false, if◌then◌else◌, lookup, ok, refl, some, true, ◌∷◌, ◌≡◌}
use meatvo_app.Store.{Order, PaymentStatus, Store}
use meatvo_app.Routes.Moved.{moved}
use meatvo_app.Routes.Orders.{
  User, check_update, moved_from, not_for_customers, not_packed, status_code, update_order_status,
}
use meatvo_app.Routes.Statuses.{status_cancel_keeps_stock}
use meatvo_app.Lifecycle.Guards.{enter_row}
use meatvo_app.Packing.Flow.{not_reconciled}
use meatvo_app.Packing.Rows.{already_completed}
use meatvo_app.Lifecycle.Transition.{
  enter_state, payment_blocks, payment_required, transition_order_state, weight_blocks,
  weight_reconciliation_pending,
}
use meatvo_app.Status.Names.{cancelled, confirmed, delivered, packing_started, placed}
-- The guards of the routes at concrete inputs.
use meatvo_app.Machine.Roles.{admin, customer}
use meatvo_app.Machine.Rules.{can_actor_trigger_state, can_transition}
use meatvo_app.Samples.{order_in, paid_up}
use meatvo_app.Routes.Guard.{
  no_access, require_order_state, validate_actor_permission, validate_order_ownership,
  validate_state_transition,
}
use meatvo_app.Routes.Agree.{guarded_transition}

may_pack : validate_state_transition 1 packing_started paid_up ≡ ok confirmed
unfolding validate_state_transition can_transition
may_pack = refl

admin_packs : validate_actor_permission (some admin) packing_started ≡ ok admin
unfolding validate_actor_permission can_actor_trigger_state
admin_packs = refl

guarded_transition_example :
    (o : Order) × (lookup 1 paid_up.orders ≡ some o)
    × (transition_order_state 1 packing_started admin false paid_up ≡ (
        if payment_blocks o packing_started admin false
        then err payment_required
        else if weight_blocks o packing_started
        then err weight_reconciliation_pending
        else ok (enter_state 1 packing_started paid_up, confirmed)))
guarded_transition_example =
    guarded_transition 1 packing_started confirmed (some admin) admin false paid_up may_pack
      admin_packs

-- Another customer's order is refused.
stranger : validate_order_ownership 1 6 (some customer) paid_up ≡ err no_access
unfolding validate_order_ownership
stranger = refl

-- A customer may cancel in these states alone.
still_open : require_order_state (placed ∷ confirmed ∷ []) 1 paid_up ≡ ok confirmed
unfolding require_order_state
still_open = refl

abbrev owner_of_store : User
owner_of_store = record { id = 1; role = admin }

abbrev confirmed_order : Order
confirmed_order = order_in confirmed PaymentStatus.paid

abbrev shopper : User
shopper = record { id = 5; role = customer }

edge : can_transition confirmed cancelled ≡ true
unfolding can_transition
edge = refl

-- The order is cancelled, and nothing but its row is written.
abbrev cancelled_up : Store
cancelled_up = moved shopper 1 cancelled confirmed_order paid_up

-- An order that is paid and confirmed is cancelled without a word of its stock.
status_cancel_keeps_stock_example :
    ((update_order_status owner_of_store 1 cancelled [] paid_up).1 ≡ moved_from confirmed)
    × ((update_order_status owner_of_store 1 cancelled [] paid_up).0.products ≡ paid_up.products)
    × ((update_order_status owner_of_store 1 cancelled [] paid_up).0.coupons ≡ paid_up.coupons)
    × (lookup 1 (update_order_status owner_of_store 1 cancelled [] paid_up).0.orders
        ≡ some (enter_row cancelled confirmed_order))
status_cancel_keeps_stock_example =
    status_cancel_keeps_stock owner_of_store 1 [] paid_up confirmed_order refl refl refl edge

-- A customer can not declare an order delivered.
no_customer_delivers : (update_order_status shopper 1 delivered [] paid_up).1 ≡ not_for_customers
unfolding update_order_status check_update
no_customer_delivers = refl

-- A failed reconciliation is answered with 500.
packing_answer : status_code (not_packed (not_reconciled already_completed)) ≡ 500
unfolding status_code
packing_answer = refl
