-- ===== src/Refunds/Gateway.antt =====
-- `createRefund` of backend/src/modules/payments/cashfree.service.js. The HTTP request to the gateway is
-- a parameter, `Post`: from the order, the amount and the refund's key to the answer, or `none` where
-- the request fails.
use meatvo_app.Base.{Option, Text, [], if◌then◌else◌, none, some, ℕ, ◌==◌, ◌∷◌}
use meatvo_app.Refunds.Rows.{GatewayId, RefundKey, gateway_id, sent_key}

-- `response.data`; the empty text stands for every falsy value.
pub record Answer : Type 0 where
  pub cf_refund_id : Option Text
  pub refund_id : Text
  pub refund_status : Text

abbrev pub Post : Type 0
Post = ℕ → ℕ → RefundKey → Option Answer

-- What `createRefund` returns.
pub record GatewayRefund : Type 0 where
  pub cf_id : Option Text
  pub id : GatewayId
  pub status : Text

-- `refund_id || String(refundId)`
abbrev pub named_or_key : Text → RefundKey → GatewayId
named_or_key [] key = sent_key key
named_or_key (c ∷ t) key = gateway_id (c ∷ t)

-- `createRefund`; the order and the key are never falsy.
unfoldable pub create_refund : Post → ℕ → ℕ → RefundKey → Option GatewayRefund
create_refund post order_id amount key =
    if amount == 0 then none else elim (post order_id amount key) [
      | none ↦ none
      | some a ↦ some (record {
        cf_id = a.cf_refund_id;
        id = named_or_key a.refund_id key;
        status = a.refund_status;
      })
    ]

-- `gatewayResult.cf_refund_id || gatewayResult.refund_id`
abbrev pub refund_name : GatewayRefund → GatewayId
refund_name g = elim g.cf_id [
  | none ↦ g.id
  | some t ↦ elim t [ [] ↦ g.id | c ∷ rest ↦ gateway_id (c ∷ rest) ]
]
