-- ===== src/Packing/Lines.antt =====
-- `executePackingWeightReconciliation` of
-- backend/src/services/packingWeightReconciliation.service.js, which is one transaction: an exception
-- undoes all of it. The published events, the logs and the response's list of lines are left out, and
-- so is the payment gateway, which is asked for the refunds behind the response.
use meatvo_app.Base.{
  Bool, List, Map, [], err, false, if◌then◌else◌, lookup, ltb, none, not, ok, or_else, some, true,
  update, ℕ, ◌*◌, ◌+◌, ◌-◌, ◌/◌, ◌==◌, ◌>>=◌, ◌∷◌,
}
use meatvo_app.Base.Result.{Result}
use meatvo_app.Status.Names.{includes}
use meatvo_app.Store.{
  Order, OrderItem, PaymentMode, ReconStatus, Store, completed, not_required, pack_consumption,
  set_stock, supplement_deduction,
}
use meatvo_app.Pricing.Product.{
  Product, is_weight_based_product, next_cut_available_grams, supplement_stock_deduction_units,
}
use meatvo_app.Pricing.Coupon.{units}
use meatvo_app.Packing.Reconcile.{
  Reconciliation, WeightAction, accept, auto_refund, reconcile_line_item_weight,
  supplement_from_next_cut,
}
use meatvo_app.Packing.Rows.{
  LineWeight, PackError, Packing, Weights, already_completed, create_partial_refund,
  insufficient_stock_for_supplement, measured, no_line_items, normalize_line_weights, not_packable,
  order_missing, ordered_weight_of, packable_statuses, record_inventory_movement, set_item,
  unit_price_per_kg, weight_error, weight_required, write_weights,
}

-- The stock that is left once a supplement of so many units has been taken, or the exception.
abbrev pub stock_left : WeightAction → OrderItem → ℕ → ℕ → Result PackError ℕ
stock_left accept item stock units = ok stock
stock_left supplement_from_next_cut item stock units =
    if ltb stock units then err (insufficient_stock_for_supplement item.id) else ok (stock - units)
stock_left auto_refund item stock units = ok (stock - units)

-- What a line takes from the stock of its product.
unfoldable pub take_supplement : OrderItem → Reconciliation → Product → Result PackError ℕ
take_supplement item r locked =
    stock_left r.action item locked.stock (supplement_stock_deduction_units r.supplement_g locked)

-- The rows that the loop writes for a weight-based line, in the order of the code.
abbrev pub write_line : ℕ → PaymentMode → OrderItem → Reconciliation → ℕ → Packing → Packing
write_line order_id mode item r stock p =
    let s1 = record p.store { products = set_stock item.product_id stock p.store.products } in
    let s2 = set_item order_id item.id (write_weights r) s1 in
    let consumed = r.actual_weight_g + r.supplement_g in
    let s3 = record_inventory_movement order_id item pack_consumption consumed s2 in
    let s4 =
      if r.supplement_g == 0
      then s3
      else record_inventory_movement order_id item supplement_deduction r.supplement_g s3 in
    let s5 = record s4 { reconciliations = (order_id, (item.id, r)) ∷ s4.reconciliations } in
    record {
      store = create_partial_refund order_id item r.refund_amount mode s5;
      total_refund = p.total_refund + r.refund_amount;
      has_weight_lines = true;
    }

-- A weight-based line, with the product's row as it was read again under its lock.
unfoldable pub weigh_line :
    ℕ → PaymentMode → OrderItem → ℕ → Product → Product → Packing → Result PackError Packing
weigh_line order_id mode item actual product locked p =
    elim (reconcile_line_item_weight (ordered_weight_of product item) actual
      (unit_price_per_kg product) (next_cut_available_grams locked)) [
        | err e ↦ err (weight_error e)
        | ok r ↦ elim (take_supplement item r locked) [
          | err e ↦ err e
          | ok stock ↦ ok (write_line order_id mode item r stock p)
        ]
      ]

-- The body of the loop, for a row of the join of `order_items` with `products`.
unfoldable pub pack_line :
    ℕ → PaymentMode → Weights → Bool → OrderItem × Product → Packing → Result PackError Packing
pack_line order_id mode weights skip (item, product) p =
    let accepted = record p {
      store = set_item order_id item.id (λ i. record i { action = some accept }) p.store;
    } in
    let locked = or_else (lookup item.product_id p.store.products) product in
    if not (is_weight_based_product product) then ok accepted else elim (measured item.id weights) [
      | some actual ↦ weigh_line order_id mode item actual product locked p
      | none ↦
          if skip
          then weigh_line order_id mode item (ordered_weight_of product item) product locked p
          else err (weight_required item.id)
    ]

-- The loop.
unfoldable pub pack_lines :
    ℕ
    → PaymentMode
    → Weights
    → Bool
    → List (OrderItem × Product)
    → Packing
    → Result PackError Packing
pack_lines order_id mode weights skip [] p = ok p
pack_lines order_id mode weights skip (line ∷ lines) p =
    pack_line order_id mode weights skip line p >>= pack_lines order_id mode weights skip lines

-- The join; the product of an item is a row of `products`, or the item has none.
abbrev pub item_rows : List OrderItem → Map Product → List (OrderItem × Product)
item_rows [] products = []
item_rows (i ∷ items) products =
    let rest = item_rows items products in
    elim (lookup i.product_id products) [ none ↦ rest | some p ↦ (i, p) ∷ rest ]

-- `Math.max(0, Math.round((total - refund) * 100) / 100)`, in units.
abbrev pub total_after : ℕ → ℕ → ℕ
total_after total total_refund = (total - units total_refund + 5000) / 10000 * 10000

-- The columns of the order's row.
abbrev pub write_order : Packing → Order → Order
write_order p o = record o {
  total_amount = total_after o.total_amount p.total_refund;
  recon_status = if p.has_weight_lines then completed else not_required;
  weight_refund = p.total_refund;
}

abbrev pub is_completed : ReconStatus → Bool
is_completed completed = true
is_completed _ = false

abbrev pub start : Store → Packing
start s = record { store = s; total_refund = 0; has_weight_lines = false }

abbrev pub finish : ℕ → Packing → Store
finish order_id p = record p.store { orders = update order_id (write_order p) p.store.orders }

abbrev pub is_empty : List (OrderItem × Product) → Bool
is_empty [] = true
is_empty (x ∷ xs) = false

-- `executePackingWeightReconciliation`, with the refund in all.
unfoldable pub execute_packing_weight_reconciliation :
    ℕ → List LineWeight → Bool → Store → Result PackError (Store × ℕ)
execute_packing_weight_reconciliation order_id line_weights skip s =
    let weights = normalize_line_weights line_weights in
    elim (lookup order_id s.orders) [
      | none ↦ err order_missing
      | some o ↦
          let rows = item_rows o.items s.products in
          if not (includes packable_statuses o.status)
          then err (not_packable o.status)
          else if is_completed o.recon_status
          then err already_completed
          else if is_empty rows
          then err no_line_items
          else (pack_lines order_id o.payment_mode weights skip rows (start s) >>= λ p.
              ok (finish order_id p, p.total_refund))
    ]
