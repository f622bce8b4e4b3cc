-- ===== src/Refunds/Rows.antt =====
-- The rows of `order_partial_refunds` (backend/src/db/ensureSchema.js, lines 797 to 827, and
-- backend/src/constants/weightReconciliation.constants.js).
use meatvo_app.Base.{Bool, Option, Text, ℕ}

-- PARTIAL_REFUND_REASON and FAILED_DELIVERY_REFUND_REASON.
pub data RefundReason : Type 0 where
  weight_reconciliation failed_delivery : RefundReason

-- PARTIAL_REFUND_STATUS
pub data RefundStatus : Type 0 where
  pending recorded submitted success failed : RefundStatus

-- The idempotency keys, which in the source are the texts `wr<order>i<item>`, `fd<order>rfd<order>` and
-- `wr<order>r<refund>` or `fd<order>r<refund>`.
pub data RefundKey : Type 0 where
  line_key : ℕ → ℕ → RefundKey
  order_key : ℕ → RefundKey
  row_key : RefundReason → ℕ → ℕ → RefundKey

-- The gateway's name of a refund: its own, or the key that it was sent.
pub data GatewayId : Type 0 where
  gateway_id : Text → GatewayId
  sent_key : RefundKey → GatewayId

-- A row of `order_partial_refunds`.
pub record PartialRefund : Type 0 where
  pub order_id : ℕ
  pub item_id : Option ℕ
  pub amount : ℕ  -- paise
  pub reason : RefundReason
  pub status : RefundStatus
  pub is_online : Bool  -- `payment_mode` is ONLINE
  pub gateway_refund_id : Option GatewayId
  pub key : Option RefundKey
