-- ===== src/FailedDelivery/Counted.antt =====
use meatvo_app.FailedDelivery.Handlers.{
  confirm_return_to_store, fail_order, is_rider, mark_failed_delivery, resolve_failed_delivery,
  return_order, text_column,
}
-- The two counts of a rider's orders: `countRiderActiveOrders` of
-- backend/src/utils/deliveryPartner.util.js, and the one that `getEligiblePartners` of
-- backend/src/services/assignment.service.js makes for itself.
use meatvo_app.Base.{
  Map, Option-cases, Text, [], ap, arith, false, inl, inr, lookup, lookup-update, ok, some, sym,
  true, ℕ, ◌∙◌, ◌∷◌, ◌≡◌, ◌≤◌,
}
use meatvo_app.Store.{FailedDeliveryReason, Order, ReturnCondition, Store, refund}
use meatvo_app.FailedDelivery.Words.{resolution_of}
use meatvo_app.FailedDelivery.Marked.{confirm_return_to_store_iff, mark_failed_delivery_iff}
use meatvo_app.FailedDelivery.Resolved.{orders-resolved, resolve_failed_delivery_iff, resolved_row}
use meatvo_app.FailedDelivery.Run.{orders-marked}
use meatvo_app.Dispatch.World.{count_active, is_active_for}
use meatvo_app.Dispatch.Eligible.{count_open, is_open_for}

-- The count for the eligible riders is never below the count for the cap.
pub active_le_open : (rider : ℕ) (m : Map Order) → count_active rider m ≤ count_open rider m
active_le_open rider [] = omega arith
active_le_open rider ((k, o) ∷ m) = ground (arith, active_le_open rider m)

refunded_row :
    (u v a : ℕ) (x : FailedDeliveryReason) (c : ReturnCondition) (o : Order)
    → is_rider u o.assignment ≡ true
    → let p = resolved_row a refund (return_order v c (fail_order u x o)) in
      (is_active_for u p ≡ false) × (is_open_for u p ≡ true)
refunded_row u v a x c o mine = elim (Option-cases o.assignment) [
  | inl unassigned ↦ ground arith
  | inr (r, there) ↦ (ground arith, ground arith)
]

-- Where `payment_mode` is a text: after a rider's failed delivery was returned and refunded, the order is none of the rider's active
-- orders, and yet the choice of eligible riders goes on counting it as one.
pub refunded_still_counted :
    (i u v a : ℕ) (why how end : Text) (s s1 s2 s3 : Store)
    → mark_failed_delivery i u why s ≡ ok s1
    → confirm_return_to_store i v how s1 ≡ ok s2
    → resolve_failed_delivery text_column i a end s2 ≡ ok s3
    → resolution_of end ≡ some refund
    → (p : Order) × (lookup i s3.orders ≡ some p)
      × (is_active_for u p ≡ false)
      × (is_open_for u p ≡ true)
refunded_still_counted i u v a why how end s s1 s2 s3 h1 h2 h3 word =
    let (x, o, _, _, at, _, mine, e1) = (mark_failed_delivery_iff i u why s s1).0 h1 in
    let (c, _, _, _, _, _, _, _, e2) = (confirm_return_to_store_iff i v how s1 s2).0 h2 in
    let (r, _, word', _, _, _, e3) = (resolve_failed_delivery_iff i a end s2 s3).0 h3 in
    let row1 : lookup i s1.orders ≡ some (fail_order u x o) =
      ap (λ t. lookup i t.orders) (sym e1) ∙ orders-marked i u x s o at in
    let row2 : lookup i s2.orders ≡ some (return_order v c (fail_order u x o)) =
      ap (λ t. lookup i t.orders) (sym e2)
      ∙ lookup-update i i (return_order v c) s1.orders
      ∙ ground arith in
    let same : r ≡ refund = ground arith in
    let row3 : lookup i s3.orders
        ≡ some (resolved_row a refund (return_order v c (fail_order u x o))) =
      ap (λ t. lookup i t.orders) (sym e3) ∙ orders-resolved i i a r s2 ∙ rw same (ground arith) in
    let (inactive, open_still) = refunded_row u v a x c o mine in
    (resolved_row a refund (return_order v c (fail_order u x o)), row3, inactive, open_still)
