-- ===== src/Cashfree/Api.antt =====
use meatvo_app.Base.{
  Bool, List, Option, Text, [], any, codes, false, if◌then◌else◌, none, not, some, text_eq,
  to_upper, ℕ, ◌==◌, ◌||◌, ◌∷◌,
}
use meatvo_app.Store.{TransactionStatus, initiated}
use meatvo_app.Cashfree.Webhook.{Amount, nan, paise}

-- `createOrder`, `getOrderStatus` and `getPayments` of backend/src/modules/payments/cashfree.service.js and
-- what cashfree.controller.js makes of their answers. The HTTP requests are a parameter, `Gateway`, with
-- `none` for a request that fails, such as one for an order id that the gateway has an order for; the
-- customer of an order always has a phone number.

-- An entry of the list of payments; the empty text stands for every falsy value.
pub record GatewayPayment : Type 0 where
  pub payment_status : Text
  pub payment_amount : Option Amount
  pub order_amount : Amount
  pub cf_payment_id : Text
  pub payment_id : Text

pub record Gateway : Type 0 where
  pub post_order : ℕ → ℕ → Option Text  -- the order and its paise to the session's id
  pub fetch_order : ℕ → Option Text  -- to the `order_status`
  pub fetch_payments : ℕ → Option (List GatewayPayment)

abbrev named : Option Text → Option Text
named (some (c ∷ t)) = some (c ∷ t)
named _ = none

-- `createOrder`, to the id of the session.
unfoldable pub create_order : Gateway → ℕ → ℕ → Option Text
create_order g order_id amount = if amount == 0 then none else named (g.post_order order_id amount)

-- `getOrderStatus`
abbrev pub get_order_status : Gateway → ℕ → Option Text
get_order_status g order_id = named (g.fetch_order order_id)

abbrev text_status : Text → TransactionStatus
text_status t =
    if text_eq t (codes "SUCCESS")
    then TransactionStatus.success
    else if text_eq t (codes "PENDING")
    then TransactionStatus.pending
    else if text_eq t (codes "INITIATED")
    then initiated
    else TransactionStatus.other t

-- `mapCashfreeOrderStatus`
unfoldable pub map_cashfree_order_status : Text → TransactionStatus
map_cashfree_order_status order_status =
    let normalized = to_upper order_status in
    if text_eq normalized (codes "PAID")
    then TransactionStatus.success
    else if text_eq normalized (codes "ACTIVE") || text_eq normalized []
    then TransactionStatus.pending
    else if text_eq normalized (codes "EXPIRED")
    then TransactionStatus.other (codes "FAILED")
    else text_status normalized

-- `resolveLiveCashfreeOrderStatus`
abbrev pub resolve_live_cashfree_order_status : Gateway → ℕ → Option TransactionStatus
resolve_live_cashfree_order_status g order_id = elim (get_order_status g order_id) [
  | none ↦ none
  | some t ↦ some (map_cashfree_order_status t)
]

-- CASHFREE_FAILURE_STATUSES
abbrev pub is_failure_status : TransactionStatus → Bool
is_failure_status (TransactionStatus.other t) =
    any (text_eq t) (codes "FAILED" ∷ codes "CANCELLED" ∷ codes "EXPIRED" ∷ [])
is_failure_status _ = false

-- `isAmountMismatch`; an amount that is no number is no mismatch.
abbrev pub is_amount_mismatch : ℕ → Amount → Bool
is_amount_mismatch stored nan = false
is_amount_mismatch stored (paise n) = not (n == stored)

abbrev pub find_successful : List GatewayPayment → Option GatewayPayment
find_successful [] = none
find_successful (e ∷ es) =
    let rest = find_successful es in
    if text_eq (to_upper e.payment_status) (codes "SUCCESS") then some e else rest

abbrev pub received_amount : GatewayPayment → Amount
received_amount e = elim e.payment_amount [ none ↦ e.order_amount | some a ↦ a ]

abbrev pub gateway_payment_id : GatewayPayment → Text
gateway_payment_id e = elim e.cf_payment_id [ [] ↦ e.payment_id | c ∷ t ↦ c ∷ t ]

-- `resolveSuccessfulCashfreePayment`: the payment's id, empty where there is none; or `none` where a
-- request fails.
unfoldable pub resolve_successful_cashfree_payment : Gateway → ℕ → ℕ → Option Text
resolve_successful_cashfree_payment g order_id stored_amount = elim (g.fetch_payments order_id) [
  | none ↦ none
  | some payments ↦ elim (find_successful payments) [
    | none ↦ some []
    | some e ↦
        if is_amount_mismatch stored_amount (received_amount e)
        then some []
        else some (gateway_payment_id e)
  ]
]
