-- ===== src/Machine/Notifications.antt =====
-- backend/src/utils/enhancedOrderStateMachine.js: STATE_NOTIFICATIONS and `getStateNotifications`.
use mathlib.Core.List.{map}
use meatvo_app.Base.{List, Option, Text, [], arith, codes, if◌then◌else◌, map, none, some, ◌∷◌, ◌≡◌}
use meatvo_app.Machine.Roles.{Role, admin, customer, rider, role_eq, staff}
use meatvo_app.Machine.Interpolate.{interpolate}
use meatvo_app.Status.Names.{
  Status, cancelled, confirmed, delivered, out_for_delivery, packed, packing_started,
  payment_pending, payment_verified, placed, rider_accepted, rider_assigned, rider_nearby,
  rider_rejected,
}
use meatvo_app.Status.Customer.{CustomerStatus, view}

pub data Priority : Type 0 where
  normal high urgent : Priority

pub record Notification : Type 0 where
  pub title : Text
  pub body : Text
  pub priority : Priority

abbrev note : Text → Text → Priority → Notification
note title body priority = record { title = title; body = body; priority = priority }

-- STATE_NOTIFICATIONS: the notification of each role at a state.
abbrev pub state_notifications : Status → Option (List (Role × Notification))
state_notifications placed = some (
    (
      customer,
      note (codes "Order Placed Successfully")
          (codes "Your order #{orderId} has been placed successfully") normal,
    )
    ∷ (
      admin,
      note (codes "New Order Received") (codes "New order #{orderId} from {customerPhone}") high,
    )
    ∷ [])
state_notifications payment_pending = some (
    (customer, note (codes "Payment Verification") (codes "Your payment is being verified") normal)
    ∷ (admin, note (codes "Verify Payment") (codes "Verify payment for order #{orderId}") high)
    ∷ [])
state_notifications payment_verified = some (
    (customer, note (codes "Payment Confirmed") (codes "Your payment has been verified") normal)
    ∷ (
      admin,
      note (codes "Payment Verified") (codes "Payment verified for order #{orderId}") normal,
    )
    ∷ [])
state_notifications confirmed = some (
    (
      customer,
      note (codes "Order Confirmed")
          (codes "Your order has been confirmed and will be prepared soon") high,
    )
    ∷ (
      admin,
      note (codes "Order Confirmed") (codes "Order #{orderId} confirmed, ready for packing") normal,
    )
    ∷ (staff, note (codes "New Kitchen Order") (codes "Order #{orderId} is ready to prepare") high)
    ∷ [])
state_notifications packing_started = some (
    (customer, note (codes "Preparing Your Order") (codes "Your order is being prepared") normal)
    ∷ [])
state_notifications packed = some (
    (customer, note (codes "Preparing Your Order") (codes "Your order is being prepared") normal)
    ∷ (admin, note (codes "Order Packed") (codes "Order #{orderId} packed, assign rider") normal)
    ∷ [])
state_notifications rider_assigned = some (
    (customer, note (codes "Preparing Your Order") (codes "Your order is being prepared") high)
    ∷ (
      rider,
      note (codes "New Order Assigned") (codes "New order for delivery to {customerAddress}") high,
    )
    ∷ (
      admin,
      note (codes "Rider Assigned") (codes "{riderName} assigned to order #{orderId}") normal,
    )
    ∷ [])
state_notifications rider_accepted = some (
    (customer, note (codes "Preparing Your Order") (codes "Your order is being prepared") high)
    ∷ (admin, note (codes "Rider Accepted") (codes "{riderName} accepted order #{orderId}") normal)
    ∷ [])
state_notifications rider_rejected = some (
    (admin, note (codes "Rider Rejected") (codes "{riderName} rejected order #{orderId}") high)
    ∷ [])
state_notifications out_for_delivery = some (
    (customer, note (codes "Out for Delivery") (codes "Your order is on the way") high)
    ∷ (admin, note (codes "Order In Transit") (codes "Order #{orderId} out for delivery") normal)
    ∷ [])
state_notifications rider_nearby =
    some
      ((customer, note (codes "Out for Delivery") (codes "Your order is almost there") urgent) ∷ [])
state_notifications delivered = some (
    (
      customer,
      note (codes "Order Delivered")
          (codes "Your order has been delivered successfully. Rate your experience!") high,
    )
    ∷ (
      rider,
      note (codes "Delivery Completed")
          (codes "Order #{orderId} delivered successfully. Earnings updated.") normal,
    )
    ∷ (
      admin,
      note (codes "Order Completed") (codes "Order #{orderId} delivered by {riderName}") normal,
    )
    ∷ [])
state_notifications cancelled = some (
    (customer, note (codes "Order Cancelled") (codes "Your order has been cancelled") normal)
    ∷ (rider, note (codes "Order Cancelled") (codes "Order #{orderId} has been cancelled") normal)
    ∷ (admin, note (codes "Order Cancelled") (codes "Order #{orderId} cancelled") normal)
    ∷ [])
state_notifications _ = none

-- The spread with the two texts interpolated.
fill : (Text → Option Text) → Role × Notification → Role × Notification
unfolding interpolate
fill context (role, n) =
    (role, record n { title = interpolate n.title context; body = interpolate n.body context })

-- `getStateNotifications`
unfoldable pub get_state_notifications : Status → (Text → Option Text) → List (Role × Notification)
unfolding fill
get_state_notifications state context = elim (state_notifications state) [
  | none ↦ []
  | some entries ↦ map (fill context) entries
]

-- The notification of a role, where it has one.
abbrev pub of_role : Role → List (Role × Notification) → Option Notification
of_role r [] = none
of_role r ((q, n) ∷ l) = let rest = of_role r l in if role_eq q r then some n else rest

-- Whatever the context, the customer's notification at a state that the customer sees as "Preparing"
-- has the title "Preparing Your Order", at a state seen as "Out for Delivery" the title "Out for
-- Delivery", and at DELIVERED the title "Order Delivered".
pub customer_title_matches_view :
    (s : Status) (context : Text → Option Text) (n : Notification)
    → of_role customer (get_state_notifications s context) ≡ some n
    → (view s ≡ CustomerStatus.preparing → n.title ≡ codes "Preparing Your Order")
      × (view s ≡ CustomerStatus.out_for_delivery → n.title ≡ codes "Out for Delivery")
      × (view s ≡ CustomerStatus.delivered → n.title ≡ codes "Order Delivered")
unfolding get_state_notifications
customer_title_matches_view placed context n e = (λ h. cc, λ h. cc, λ h. cc)
customer_title_matches_view (Status.other t) context n e = cc
customer_title_matches_view _ context n e = ground arith
