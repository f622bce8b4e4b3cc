-- ===== src/Store.antt =====
-- The database rows that the order services read and write (backend/src/db/schema.sql): one record for
-- a row, one map from ids for a table. The columns that no modelled code reads are left out.
use mathlib.Core.Option
use meatvo_app.Packing.Reconcile.{Reconciliation, WeightAction}
use meatvo_app.Base.{Bool, List, Map, Option, Text, false, lookup, none, update, ℕ}
use meatvo_app.Refunds.Rows.{PartialRefund}
use meatvo_app.Status.Assignment.{AssignmentStatus}
use meatvo_app.Status.Names.{Status}
use meatvo_app.Pricing.Product.{Product}

-- `orders.payment_mode`; NULL is `unset`.
pub data PaymentMode : Type 0 where
  cod online unset : PaymentMode

-- `orders.payment_status`, in upper case; NULL counts as PENDING.
pub data PaymentStatus : Type 0 where
  pending paid payment_verified : PaymentStatus
  other : Text → PaymentStatus

-- `orders.weight_reconciliation_status`, in upper case; a new row's is PENDING.
pub data ReconStatus : Type 0 where
  pending completed not_required : ReconStatus
  other : Text → ReconStatus

-- A row of `order_items`; `weighed` holds the columns of the weight reconciliation.
pub record OrderItem : Type 0 where
  pub id : ℕ
  pub product_id : ℕ
  pub quantity : ℕ
  pub price : ℕ  -- paise
  pub ordered_weight_g : Option ℕ
  pub action : Option WeightAction
  pub weighed : Option Reconciliation

-- A row of `order_assignments`, which has one row at most for an order, with the user of its rider.
pub record Assignment : Type 0 where
  pub partner_user_id : ℕ
  pub status : AssignmentStatus

-- FAILED_DELIVERY_REASONS, RETURN_CONDITIONS and FAILED_DELIVERY_RESOLUTIONS of
-- backend/src/constants/failedDelivery.constants.js.
pub data FailedDeliveryReason : Type 0 where
  customer_unreachable wrong_address customer_refused : FailedDeliveryReason

pub data ReturnCondition : Type 0 where
  resellable partial_spoilage discard : ReturnCondition

pub data Resolution : Type 0 where
  pending redeliver refund discard : Resolution

-- The columns `failed_delivery_*` and `return*` of `orders`; a NULL is `none`.
pub record Failure : Type 0 where
  pub reason : Option FailedDeliveryReason
  pub failed_by : Option ℕ
  pub resolution : Option Resolution
  pub resolved_by : Option ℕ
  pub returned_by : Option ℕ
  pub is_returned : Bool  -- `returned_at` is set
  pub return_reason : Option FailedDeliveryReason
  pub condition : Option ReturnCondition

abbrev pub no_failure : Failure
no_failure = record {
  reason = none;
  failed_by = none;
  resolution = none;
  resolved_by = none;
  returned_by = none;
  is_returned = false;
  return_reason = none;
  condition = none;
}

-- A row of `orders` with its rows of `order_items` and its row of `order_assignments`.
pub record Order : Type 0 where
  pub customer_id : ℕ
  pub status : Status
  pub payment_mode : PaymentMode
  pub payment_status : PaymentStatus
  pub recon_status : ReconStatus
  pub total_amount : ℕ  -- units
  pub weight_refund : ℕ  -- paise
  pub coupon_id : Option ℕ
  pub coupon_released : Bool
  pub items : List OrderItem
  pub assignment : Option Assignment
  pub failure : Failure

pub data DiscountType : Type 0 where
  flat percent : DiscountType

pub record Coupon : Type 0 where
  pub id : ℕ
  pub code : Text
  pub discount_type : DiscountType
  pub discount_value : ℕ  -- paise, or hundredths of a percent
  pub min_order_value : ℕ  -- paise
  pub max_uses : Option ℕ
  pub used_count : ℕ
  pub active : Bool

-- `payment_transactions.status`
pub data TransactionStatus : Type 0 where
  initiated pending success : TransactionStatus
  other : Text → TransactionStatus

-- A row of `payment_transactions`; the latest row stands first.
pub record Payment : Type 0 where
  pub order_id : ℕ
  pub status : TransactionStatus
  pub is_cashfree : Bool  -- `gateway = 'CASHFREE'`
  pub session : Text  -- `payment_session_id` of the `gateway_response`
  pub amount : ℕ  -- paise

pub data MovementType : Type 0 where
  pack_consumption supplement_deduction : MovementType

-- A row of `inventory_movements`.
pub record Movement : Type 0 where
  pub product_id : ℕ
  pub order_id : ℕ
  pub item_id : ℕ
  pub kind : MovementType
  pub grams : ℕ

-- ADMIN_TASK_TYPES
pub data TaskType : Type 0 where
  failed_delivery assignment_failed : TaskType

-- A row of `admin_tasks`: OPEN or RESOLVED; of the payload, whether the goods' return is awaited.
pub record AdminTask : Type 0 where
  pub task_type : TaskType
  pub order_id : ℕ
  pub is_open : Bool
  pub resolved_by : Option ℕ
  pub awaiting_return : Bool

-- A latitude and a longitude, in units in which both are whole numbers.
pub record Point : Type 0 where
  pub lat : ℕ
  pub lng : ℕ

-- A row of `delivery_partners`, which has one row at most for a user; a NULL position is `none`.
pub record Partner : Type 0 where
  pub is_online : Bool
  pub approved : Bool
  pub position : Option Point

-- The rows of `order_weight_reconciliations` hold the order, the item and its reconciliation.
pub record Store : Type 0 where
  pub orders : Map Order
  pub products : Map Product
  pub coupons : Map Coupon
  pub payments : Map Payment
  pub refunds : Map PartialRefund  -- the latest first, numbered from 1
  pub movements : List Movement
  pub reconciliations : List (ℕ × (ℕ × Reconciliation))
  pub earnings : List (ℕ × ℕ)  -- `rider_earnings_history`: the order and the rider's user id
  pub partners : Map Partner  -- under the ids of their users
  pub tasks : List AdminTask  -- the latest first

abbrev pub stock_of : ℕ → Store → Option ℕ
stock_of k s = Option.map (λ p. p.stock) (lookup k s.products)

-- `UPDATE products SET stock = $1 WHERE id = $2`
abbrev pub set_stock : ℕ → ℕ → Map Product → Map Product
set_stock k n = update k (λ p. record p { stock = n })
