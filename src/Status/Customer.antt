-- ===== src/Status/Customer.antt =====
-- backend/src/utils/customerOrderStatus.util.js: the few statuses that a customer sees.
use meatvo_app.Base.{
  List, Text, [], any, arith, codes, false, if◌then◌else◌, refl, text_eq, to_upper, trim, true, ℕ,
  ◌||◌, ◌∷◌, ◌≡◌, ◌≢◌, ◌≤◌,
}
use meatvo_app.Status.Names.{
  Status, failed_delivery, includes, named, on_the_way, other, packed, packing_started, picked_up,
  placed, refunded, rider_accepted, rider_assigned, rider_nearby, rider_rejected, status_eq_iff,
  to_text,
}
use meatvo_app.Status.Table.{allows}
use meatvo_app.Status.Runs.{is_run, last, named_run, run_parts}

pub data CustomerStatus : Type 0 where
  confirmed preparing out_for_delivery delivered delivery_attempted cancelled : CustomerStatus

-- CUSTOMER_STATUS_LABELS
abbrev pub label : CustomerStatus → Text
label CustomerStatus.confirmed = codes "Confirmed"
label CustomerStatus.preparing = codes "Preparing"
label CustomerStatus.out_for_delivery = codes "Out for Delivery"
label CustomerStatus.delivered = codes "Delivered"
label CustomerStatus.delivery_attempted = codes "Delivery Attempted"
label CustomerStatus.cancelled = codes "Cancelled"

-- PREPARING_INTERNAL_STATUSES
abbrev preparing_internal : List Text
preparing_internal =
    codes "PACKING_STARTED"
    ∷ codes "PACKED"
    ∷ codes "QC"
    ∷ codes "READY"
    ∷ codes "DISPATCH_QUEUE"
    ∷ codes "BATCH_READY"
    ∷ codes "RIDER_ASSIGNED"
    ∷ codes "RIDER_ACCEPTED"
    ∷ codes "RIDER_REJECTED"
    ∷ []

-- OUT_FOR_DELIVERY_INTERNAL_STATUSES
abbrev out_for_delivery_internal : List Text
out_for_delivery_internal =
    codes "OUT_FOR_DELIVERY"
    ∷ codes "PICKED_UP"
    ∷ codes "ON_THE_WAY"
    ∷ codes "ON_WAY"
    ∷ codes "RIDER_NEARBY"
    ∷ []

-- `toCustomerOrderStatus`; the empty text stands for every falsy value.
unfoldable pub to_customer_order_status : Text → CustomerStatus
unfolding trim to_upper
to_customer_order_status internal_status =
    let raw = to_upper (trim internal_status) in
    if text_eq raw []
    then CustomerStatus.confirmed
    else if text_eq raw (codes "DELIVERED")
    then CustomerStatus.delivered
    else if text_eq raw (codes "FAILED_DELIVERY")
    then CustomerStatus.delivery_attempted
    else if text_eq raw (codes "CANCELLED") || text_eq raw (codes "REFUNDED")
    then CustomerStatus.cancelled
    else if any (text_eq raw) preparing_internal
    then CustomerStatus.preparing
    else if any (text_eq raw) out_for_delivery_internal
    then CustomerStatus.out_for_delivery
    else CustomerStatus.confirmed

-- `getCustomerStatusLabel`
unfoldable pub get_customer_status_label : Text → Text
unfolding to_customer_order_status
get_customer_status_label t = label (to_customer_order_status t)

-- How far along the four visible steps a status stands; the ends of an order come last.
abbrev pub progress : CustomerStatus → ℕ
progress CustomerStatus.confirmed = 0
progress CustomerStatus.preparing = 1
progress CustomerStatus.out_for_delivery = 2
progress CustomerStatus.delivered = 3
progress CustomerStatus.delivery_attempted = 3
progress CustomerStatus.cancelled = 4

-- What the customer sees of each named status.
abbrev pub view : Status → CustomerStatus
view packing_started = CustomerStatus.preparing
view packed = CustomerStatus.preparing
view rider_assigned = CustomerStatus.preparing
view rider_accepted = CustomerStatus.preparing
view rider_rejected = CustomerStatus.preparing
view Status.out_for_delivery = CustomerStatus.out_for_delivery
view picked_up = CustomerStatus.out_for_delivery
view on_the_way = CustomerStatus.out_for_delivery
view rider_nearby = CustomerStatus.out_for_delivery
view Status.delivered = CustomerStatus.delivered
view failed_delivery = CustomerStatus.delivery_attempted
view Status.cancelled = CustomerStatus.cancelled
view refunded = CustomerStatus.cancelled
view _ = CustomerStatus.confirmed

pub to_customer_order_status-to_text :
    (s : Status) → includes named s ≡ true → to_customer_order_status (to_text s) ≡ view s
unfolding to_customer_order_status
to_customer_order_status-to_text (other t) h = cc
to_customer_order_status-to_text placed h = refl
to_customer_order_status-to_text _ h = refl

view_monotone :
    (s t : Status) → allows s t ≡ true → s ≢ failed_delivery → progress (view s) ≤ progress (view t)
unfolding allows
view_monotone failed_delivery t e ne = absurd (ne refl)
view_monotone placed t e ne = ground arith
view_monotone _ t e ne = ground arith

view_run :
    (s : Status) (l : List Status)
    → is_run s l ≡ true
    → includes (s ∷ l) failed_delivery ≡ false
    → progress (view s) ≤ progress (view (last s l))
view_run s [] r h = omega arith
view_run s (t ∷ l) r h =
    let (edge, rest) = run_parts s t l r in
    ground (arith, view_monotone s t edge, status_eq_iff failed_delivery s, view_run t l rest)

-- Along a run of the unified table from a named status that never passes FAILED_DELIVERY, the status
-- that the customer sees does not go back: confirmed, preparing, out for delivery, delivered (or
-- attempted), cancelled.
pub customer_status_monotone :
    (s : Status) (l : List Status)
    → includes named s ≡ true
    → is_run s l ≡ true
    → includes (s ∷ l) failed_delivery ≡ false
    → progress (to_customer_order_status (to_text s))
      ≤ progress (to_customer_order_status (to_text (last s l)))
customer_status_monotone s l n r h =
    rw
      (
        to_customer_order_status-to_text s n,
        to_customer_order_status-to_text (last s l) (named_run s l n r),
      )
      (view_run s l r h)
