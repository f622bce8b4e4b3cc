-- ===== src/Payment/Conservation.antt =====
-- What backend/src/modules/payments/payment-stock.js does to the stock of each product.
use mathlib.Core.Option
use meatvo_app.Base.{
  Bool, Bool-cases, List, Map, Option, Option-cases, [], any, ap, arith, err, false, if◌then◌else◌,
  inl, inr, lookup, lookup-update, ltb, none, ok, refl, some, subst, sym, ℕ, ◌+◌, ◌-◌, ◌<◌, ◌==◌,
  ◌∙◌, ◌∷◌, ◌≡◌, ◌≤◌,
}
use meatvo_app.Store.{OrderItem, Store, set_stock, stock_of}
use meatvo_app.Pricing.Product.{Product}
use meatvo_app.Payment.Stock.{
  StockRow, deduct_rows, first_short, insufficient_stock, items_of, reserve_stock_for_paid_order,
  restore_stock_for_order, stock_rows, write_rows,
}

abbrev pub stock_in : ℕ → Map Product → Option ℕ
stock_in k m = Option.map (λ p. p.stock) (lookup k m)

-- How much of a product the items order in all.
abbrev pub ordered : ℕ → List OrderItem → ℕ
ordered k [] = 0
ordered k (i ∷ items) = (if i.product_id == k then i.quantity else 0) + ordered k items

abbrev pub is_ordered : ℕ → List OrderItem → Bool
is_ordered k = any (λ j. j.product_id == k)

-- No product stands in two items.
abbrev pub IsDistinct : List OrderItem → Type 0
IsDistinct [] = Unit
IsDistinct (i ∷ items) = (is_ordered i.product_id items ≡ false) × IsDistinct items

-- The last row of a product, whose write stands.
abbrev last_row : ℕ → List StockRow → Option StockRow
last_row k [] = none
last_row k (r ∷ rows) =
    let rest = last_row k rows in
    elim rest [ some x ↦ some x | none ↦ if r.product_id == k then some r else none ]

abbrev pub written : (StockRow → ℕ) → Option StockRow → Option ℕ → Option ℕ
written g none old = old
written g (some r) none = none
written g (some r) (some n) = some (g r)

stock_in-write_rows :
    (g : StockRow → ℕ) (k : ℕ) (rows : List StockRow) (m : Map Product)
    → stock_in k (write_rows g rows m) ≡ written g (last_row k rows) (stock_in k m)
stock_in-write_rows g k [] m = refl
stock_in-write_rows g k (r ∷ rows) m = ground (
  arith,
  stock_in-write_rows g k rows (set_stock r.product_id (g r) m),
  lookup-update r.product_id k (λ p. record p { stock = g r }) m,
)

-- The last item of a product.
abbrev pub last_item : ℕ → List OrderItem → Option OrderItem
last_item k [] = none
last_item k (i ∷ items) =
    let rest = last_item k items in
    elim rest [ some x ↦ some x | none ↦ if i.product_id == k then some i else none ]

abbrev pub found : Option OrderItem → Option ℕ → Option StockRow
found none n = none
found (some i) none = none
found (some i) (some n) =
    some (record { product_id = i.product_id; quantity = i.quantity; stock = n })

last_row-stock_rows :
    (k : ℕ) (items : List OrderItem) (m : Map Product)
    → last_row k (stock_rows items m) ≡ found (last_item k items) (stock_in k m)
last_row-stock_rows k [] m = refl
last_row-stock_rows k (i ∷ items) m = elim (Option-cases (lookup i.product_id m)) [
  | inl gone ↦ ground (arith, last_row-stock_rows k items m)
  | inr (p, e) ↦ ground (arith, last_row-stock_rows k items m)
]

ordered-absent : (k : ℕ) (items : List OrderItem) → is_ordered k items ≡ false → ordered k items ≡ 0
ordered-absent k [] h = refl
ordered-absent k (i ∷ items) h = ground (arith, ordered-absent k items)

last_item-absent :
    (k : ℕ) (items : List OrderItem) → is_ordered k items ≡ false → last_item k items ≡ none
last_item-absent k [] h = refl
last_item-absent k (i ∷ items) h = ground (arith, last_item-absent k items)

abbrev pub quantity_of : Option OrderItem → ℕ
quantity_of none = 0
quantity_of (some i) = i.quantity

pub last_item-quantity :
    (k : ℕ) (items : List OrderItem)
    → IsDistinct items
    → quantity_of (last_item k items) ≡ ordered k items
last_item-quantity k [] d = refl
last_item-quantity k (i ∷ items) d =
    ground (arith, last_item-quantity k items d.1, ordered-absent k items, last_item-absent k items)

enough :
    (rows : List StockRow) (k : ℕ) {r : StockRow}
    → first_short rows ≡ none
    → last_row k rows ≡ some r
    → r.quantity ≤ r.stock
enough [] k h e = cc
enough (x ∷ rows) k {r} h e = elim (Option-cases (last_row k rows)) [
  | inl here ↦ ground arith
  | inr (y, there) ↦ ground (arith, enough rows k {r = y})
]

pub stock_after :
    (g : StockRow → ℕ) (k : ℕ) (items : List OrderItem) (m : Map Product)
    → stock_in k (write_rows g (stock_rows items m) m)
      ≡ written g (found (last_item k items) (stock_in k m)) (stock_in k m)
stock_after g k items m =
    stock_in-write_rows g k (stock_rows items m) m
    ∙ ap (λ r. written g r (stock_in k m)) (last_row-stock_rows k items m)

-- A reservation that succeeds has found no row short, and has changed the stock alone.
pub reserve_parts :
    (i : ℕ) (s s' : Store)
    → reserve_stock_for_paid_order i s ≡ ok s'
    → let rows = stock_rows (items_of i s) s.products in
      (first_short rows ≡ none) × (s' ≡ record s { products = deduct_rows rows s.products })
unfolding reserve_stock_for_paid_order
reserve_parts i s s' h = elim (Option-cases (first_short (stock_rows (items_of i s) s.products))) [
  | inl fine ↦ ground arith
  | inr (k, short) ↦ ground arith
]

pub covered :
    (k n : ℕ) (items : List OrderItem) (m : Map Product)
    → IsDistinct items
    → first_short (stock_rows items m) ≡ none
    → stock_in k m ≡ some n
    → ordered k items ≤ n
covered k n items m d fine e = elim (Option-cases (last_item k items)) [
  | inl absent ↦ ground (arith, last_item-quantity k items d)
  | inr (x, there) ↦
      let row : StockRow = record { product_id = x.product_id; quantity = x.quantity; stock = n } in
      let at : last_row k (stock_rows items m) ≡ some row =
        last_row-stock_rows k items m ∙ ground arith in
      ground (arith, last_item-quantity k items d, enough (stock_rows items m) k {r = row} fine at)
]

-- Where no product stands in two items of an order, a reservation of its stock that succeeds has
-- found the ordered quantity of every product in stock, and takes exactly that from each.
pub reserve_stock_takes :
    (i k n : ℕ) (s s' : Store)
    → IsDistinct (items_of i s)
    → reserve_stock_for_paid_order i s ≡ ok s'
    → stock_of k s ≡ some n
    → (ordered k (items_of i s) ≤ n) × (stock_of k s' ≡ some (n - ordered k (items_of i s)))
reserve_stock_takes i k n s s' d h e =
    let (fine, result) = reserve_parts i s s' h in
    (
      covered k n (items_of i s) s.products d fine e,
      rw result (
          stock_after (λ r. r.stock - r.quantity) k (items_of i s) s.products
          ∙ ground (arith, last_item-quantity k (items_of i s) d)),
    )

-- Where no product stands in two items of an order, restoring its stock adds the ordered quantity of
-- every product to its stock, and adds no product.
pub restore_stock_gives :
    (i k : ℕ) (s : Store)
    → IsDistinct (items_of i s)
    → stock_of k (restore_stock_for_order i s)
      ≡ Option.map (λ n. n + ordered k (items_of i s)) (stock_of k s)
unfolding restore_stock_for_order
restore_stock_gives i k s d =
    stock_after (λ r. r.stock + r.quantity) k (items_of i s) s.products
    ∙ ground (arith, last_item-quantity k (items_of i s) d)

-- Restoring the stock of an order whose reservation has succeeded, with no product in two items,
-- gives every product the stock that it had before the reservation.
pub restore-reserve :
    (i k : ℕ) (s s' : Store)
    → IsDistinct (items_of i s)
    → reserve_stock_for_paid_order i s ≡ ok s'
    → stock_of k (restore_stock_for_order i s') ≡ stock_of k s
restore-reserve i k s s' d h =
    let (fine, result) = reserve_parts i s s' h in
    let same : items_of i s' ≡ items_of i s = ap (items_of i) result in
    let gives = restore_stock_gives i k s' (subst IsDistinct (sym same) d) in
    elim (Option-cases (stock_of k s)) [
      | inl gone ↦
          let none_left : stock_of k s' ≡ none =
            ap (stock_of k) result
            ∙ stock_after (λ r. r.stock - r.quantity) k (items_of i s) s.products
            ∙ ground arith in
          ground (arith, gives)
      | inr (n, e) ↦ ground (arith, gives, reserve_stock_takes i k n s s' d h e)
    ]

first_short-some :
    (k : ℕ) (items : List OrderItem) (m : Map Product)
    → first_short (stock_rows items m) ≡ some k
    → (n : ℕ) × (stock_in k m ≡ some n) × (n < ordered k items)
first_short-some k [] m e = cc
first_short-some k (i ∷ items) m e = elim (Option-cases (lookup i.product_id m)) [
  | inl gone ↦
      let rest : first_short (stock_rows items m) ≡ some k = ground arith in
      let (n, at, less) = first_short-some k items m rest in (n, at, omega arith)
  | inr (p, there) ↦ elim (Bool-cases (ltb p.stock i.quantity)) [
    | inl short ↦ (p.stock, ground arith, ground arith)
    | inr fine ↦
        let rest : first_short (stock_rows items m) ≡ some k = ground arith in
        let (n, at, less) = first_short-some k items m rest in (n, at, omega arith)
  ]
]

-- A reservation fails only for a product whose stock is below what the order asks of it.
pub reserve_stock_fails :
    (i k : ℕ) (s : Store)
    → reserve_stock_for_paid_order i s ≡ err (insufficient_stock k)
    → (n : ℕ) × (stock_of k s ≡ some n) × (n < ordered k (items_of i s))
unfolding reserve_stock_for_paid_order
reserve_stock_fails i k s h = first_short-some k (items_of i s) s.products (ground arith)
