-- ===== src/FailedDelivery/Words.antt =====
-- backend/src/constants/failedDelivery.constants.js: the words that a request may use, and the test
-- that keeps an order from a rider. A request's word is trimmed and upper-cased before it is looked up
-- (backend/src/services/failedDelivery.service.js, lines 26 to 32).
use meatvo_app.Base.{
  Bool, List, Option, Text, [], codes, false, if◌then◌else◌, none, some, text_eq, to_upper, trim,
  true, ◌&&◌, ◌∷◌,
}
use meatvo_app.Status.Names.{
  Status, failed_delivery, on_the_way, out_for_delivery, picked_up, rider_nearby, status_eq,
}
use meatvo_app.Store.{
  FailedDeliveryReason, Order, Resolution, ReturnCondition, customer_refused, customer_unreachable,
  partial_spoilage, redeliver, refund, resellable, wrong_address,
}

-- `String(word || '').trim().toUpperCase()`
abbrev pub normal_word : Text → Text
normal_word word = to_upper (trim word)

-- FAILED_REASON_SET
unfoldable pub reason_of : Text → Option FailedDeliveryReason
unfolding trim to_upper
reason_of word =
    let w = normal_word word in
    if text_eq w (codes "CUSTOMER_UNREACHABLE")
    then some customer_unreachable
    else if text_eq w (codes "WRONG_ADDRESS")
    then some wrong_address
    else if text_eq w (codes "CUSTOMER_REFUSED")
    then some customer_refused
    else none

-- RETURN_CONDITION_SET
unfoldable pub condition_of : Text → Option ReturnCondition
unfolding trim to_upper
condition_of word =
    let w = normal_word word in
    if text_eq w (codes "RESELLABLE")
    then some resellable
    else if text_eq w (codes "PARTIAL_SPOILAGE")
    then some partial_spoilage
    else if text_eq w (codes "DISCARD")
    then some ReturnCondition.discard
    else none

-- RESOLUTION_SET
unfoldable pub resolution_of : Text → Option Resolution
unfolding trim to_upper
resolution_of word =
    let w = normal_word word in
    if text_eq w (codes "REDELIVER")
    then some redeliver
    else if text_eq w (codes "REFUND")
    then some refund
    else if text_eq w (codes "DISCARD")
    then some Resolution.discard
    else none

-- RIDER_FAILABLE_ORDER_STATUSES
abbrev pub rider_failable_order_statuses : List Status
rider_failable_order_statuses = out_for_delivery ∷ picked_up ∷ on_the_way ∷ rider_nearby ∷ []

-- `resolution === 'PENDING'`
abbrev pub is_unresolved : Option Resolution → Bool
is_unresolved (some Resolution.pending) = true
is_unresolved _ = false

-- `isOrderBlockedFromAssignment`
unfoldable pub is_order_blocked_from_assignment : Order → Bool
is_order_blocked_from_assignment o =
    status_eq o.status failed_delivery && is_unresolved o.failure.resolution
