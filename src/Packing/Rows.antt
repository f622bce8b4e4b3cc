-- ===== src/Packing/Rows.antt =====
-- The request's weights and the rows that the packing of an order writes
-- (backend/src/services/packingWeightReconciliation.service.js).
use meatvo_app.Base.{
  Bool, List, Map, Option, [], if◌then◌else◌, insert, length, lookup, ltb, map, none, or_else, some,
  suc, update, ℕ, ◌==◌, ◌∷◌,
}
use meatvo_app.Status.Names.{Status, confirmed, packing_started}
use meatvo_app.Refunds.Rows.{RefundStatus, line_key, weight_reconciliation}
use meatvo_app.Store.{MovementType, OrderItem, PaymentMode, Store}
use meatvo_app.Pricing.Product.{Product, ordered_weight_grams_for_line}
use meatvo_app.Packing.Reconcile.{Reconciliation, WeightError}
use meatvo_app.Lifecycle.Transition.{is_online}

-- An entry of the request; what is no number, or a negative weight, is `none`.
pub record LineWeight : Type 0 where
  pub order_item_id : Option ℕ
  pub actual_weight_g : Option ℕ

-- The weights by item: `none` for an entry whose weight is no number or negative.
abbrev pub Weights : Type 0
Weights = Map (Option ℕ)

abbrev add_weight : LineWeight → Weights → Weights
add_weight e m = elim e.order_item_id [
  | none ↦ m
  | some i ↦ if i == 0 then m else insert i e.actual_weight_g m
]

abbrev add_weights : List LineWeight → Weights → Weights
add_weights [] m = m
add_weights (e ∷ es) m = add_weights es (add_weight e m)

-- `normalizeLineWeights`: the last entry of an item stands.
unfoldable pub normalize_line_weights : List LineWeight → Weights
normalize_line_weights es = add_weights es []

pub data PackError : Type 0 where
  order_missing already_completed no_line_items : PackError
  not_packable : Status → PackError
  weight_required insufficient_stock_for_supplement : ℕ → PackError
  weight_error : WeightError → PackError

-- PACKABLE_STATUSES
abbrev pub packable_statuses : List Status
packable_statuses = confirmed ∷ packing_started ∷ []

-- What the loop over the lines carries: the database, the refunds so far and whether a line was
-- weight-based.
pub record Packing : Type 0 where
  pub store : Store
  pub total_refund : ℕ  -- paise
  pub has_weight_lines : Bool

-- `UPDATE order_items SET ... WHERE id = $n`
abbrev pub set_item : ℕ → ℕ → (OrderItem → OrderItem) → Store → Store
set_item order_id item_id f s =
    let on_row : OrderItem → OrderItem = λ i. if i.id == item_id then f i else i in
    record s { orders = update order_id (λ o. record o { items = map on_row o.items }) s.orders }

abbrev pub write_weights : Reconciliation → OrderItem → OrderItem
write_weights r i = record i {
  ordered_weight_g = some r.ordered_weight_g;
  action = some r.action;
  weighed = some r;
}

-- `recordInventoryMovement`
abbrev pub record_inventory_movement : ℕ → OrderItem → MovementType → ℕ → Store → Store
record_inventory_movement order_id item kind grams s = record s {
  movements =
      record {
        product_id = item.product_id;
        order_id = order_id;
        item_id = item.id;
        kind = kind;
        grams = grams;
      }
      ∷ s.movements;
}

-- `createPartialRefund`
abbrev pub create_partial_refund : ℕ → OrderItem → ℕ → PaymentMode → Store → Store
create_partial_refund order_id item amount mode s = if amount == 0 then s else record s {
  refunds =
      (
        suc (length s.refunds),
        record {
          order_id = order_id;
          item_id = some item.id;
          amount = amount;
          reason = weight_reconciliation;
          status = if is_online mode then RefundStatus.pending else RefundStatus.recorded;
          is_online = is_online mode;
          gateway_refund_id = none;
          key = if is_online mode then some (line_key order_id item.id) else none;
        },
      )
      ∷ s.refunds;
}

-- The ordered weight of a line: the row's, if it is positive.
abbrev pub ordered_weight_of : Product → OrderItem → ℕ
ordered_weight_of product item =
    let stored = or_else item.ordered_weight_g 0 in
    if ltb 0 stored then stored else ordered_weight_grams_for_line product item.quantity

-- The weight measured for a line, where the request has one.
abbrev pub measured : ℕ → Weights → Option ℕ
measured item_id weights = elim (lookup item_id weights) [ none ↦ none | some w ↦ w ]

abbrev pub unit_price_per_kg : Product → ℕ
unit_price_per_kg product =
    let base = or_else product.base_price_per_kg 0 in if ltb 0 base then base else product.price
