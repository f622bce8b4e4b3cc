-- ===== src/Payment/Stock.antt =====
-- backend/src/modules/payments/payment-stock.js: the stock of an order's products is taken when the
-- order is paid and given back when it is cancelled. Both read all the rows first and then write each.
use meatvo_app.Base.{
  Bool, List, Map, Option, [], err, if◌then◌else◌, lookup, ltb, none, not, ok, some, ℕ, ◌&&◌, ◌+◌,
  ◌-◌, ◌∷◌,
}
use meatvo_app.Base.Result.{Result}
use meatvo_app.Status.Names.{
  Status, includes, other, payment_pending, payment_verified, placed, status_eq,
}
use meatvo_app.Store.{OrderItem, Store, set_stock}
use meatvo_app.Pricing.Product.{Product}

-- `shouldRestoreStockOnCancel`: the status is not empty and none of PRE_STOCK_DEDUCTION_STATUSES.
unfoldable pub should_restore_stock_on_cancel : Status → Bool
should_restore_stock_on_cancel current =
    not (status_eq current (other []))
    && not (includes (placed ∷ payment_pending ∷ payment_verified ∷ []) current)

-- A row of the join of `order_items` with `products`.
pub record StockRow : Type 0 where
  pub product_id : ℕ
  pub quantity : ℕ
  pub stock : ℕ

-- The rows of the join; an item whose product is gone has none.
abbrev pub stock_rows : List OrderItem → Map Product → List StockRow
stock_rows [] products = []
stock_rows (i ∷ items) products =
    let rest = stock_rows items products in
    elim (lookup i.product_id products) [
      | none ↦ rest
      | some p ↦ record { product_id = i.product_id; quantity = i.quantity; stock = p.stock } ∷ rest
    ]

-- The first loop of `reserveStockForPaidOrder`: the product that is short, if one is.
abbrev pub first_short : List StockRow → Option ℕ
first_short [] = none
first_short (r ∷ rows) =
    let rest = first_short rows in if ltb r.stock r.quantity then some r.product_id else rest

-- A loop that writes a new stock for each row, found from the stock that was read.
abbrev pub write_rows : (StockRow → ℕ) → List StockRow → Map Product → Map Product
write_rows g [] products = products
write_rows g (r ∷ rows) products = write_rows g rows (set_stock r.product_id (g r) products)

abbrev pub deduct_rows : List StockRow → Map Product → Map Product
deduct_rows = write_rows (λ r. r.stock - r.quantity)

abbrev pub restore_rows : List StockRow → Map Product → Map Product
restore_rows = write_rows (λ r. r.stock + r.quantity)

pub data StockError : Type 0 where
  insufficient_stock : ℕ → StockError

abbrev pub items_of : ℕ → Store → List OrderItem
items_of order_id s = elim (lookup order_id s.orders) [ none ↦ [] | some o ↦ o.items ]

-- `reserveStockForPaidOrder`
unfoldable pub reserve_stock_for_paid_order : ℕ → Store → Result StockError Store
reserve_stock_for_paid_order order_id s =
    let rows = stock_rows (items_of order_id s) s.products in
    elim (first_short rows) [
      | some k ↦ err (insufficient_stock k)
      | none ↦ ok (record s { products = deduct_rows rows s.products })
    ]

-- `restoreStockForOrder`
unfoldable pub restore_stock_for_order : ℕ → Store → Store
restore_stock_for_order order_id s = record s {
  products = restore_rows (stock_rows (items_of order_id s) s.products) s.products;
}
