-- ===== src/Packing/Kept.antt =====
-- What the lines of a packing change of the order, the refunds and the stock
-- (backend/src/services/packingWeightReconciliation.service.js).
use meatvo_app.Base.{
  ==_iff, Bool-cases, List, Map, Option-cases, [], ap, arith, if◌then◌else◌, inl, inr, lookup,
  lookup-update, map, refl, some, subst, sym, ℕ, ◌+◌, ◌==◌, ◌∙◌, ◌∷◌, ◌≡◌, ◌≤◌,
}
use meatvo_app.Refunds.Rows.{PartialRefund}
use meatvo_app.Store.{Order, OrderItem, PaymentMode, Store, set_stock, stock_of}
use meatvo_app.Packing.Reconcile.{Reconciliation, accept}
use meatvo_app.Packing.Rows.{Packing, set_item, write_weights}
use meatvo_app.Packing.Lines.{write_line}
use meatvo_app.Packing.Measured.{LineCase, piece, weighed}

abbrev pub refund_sum : Map PartialRefund → ℕ
refund_sum [] = 0
refund_sum ((_, r) ∷ rs) = r.amount + refund_sum rs

-- What the lines of an order keep: its row but for the items, and the sum of the refunds; and no
-- stock grows.
pub record IsKept (k : ℕ) (p q : Packing) : Type 0 where
  pub row :
      (o : Order)
      → lookup k p.store.orders ≡ some o
      → (xs : List OrderItem) × (lookup k q.store.orders ≡ some (record o { items = xs }))
  pub refunds_agree :
      refund_sum q.store.refunds + p.total_refund ≡ refund_sum p.store.refunds + q.total_refund
  pub stock :
      (j m : ℕ) → stock_of j p.store ≡ some m → (n : ℕ) × (stock_of j q.store ≡ some n) × (n ≤ m)

pub IsKept-refl : (k : ℕ) (p : Packing) → IsKept k p p
IsKept-refl k p = record {
  row = λ o e. (o.items, e);
  refunds_agree = refl;
  stock = λ j m e. (m, e, omega arith);
}

pub IsKept-trans : (k : ℕ) (p q r : Packing) → IsKept k p q → IsKept k q r → IsKept k p r
IsKept-trans k p q r f g = record {
  row = λ o e. let (xs, at) = f.row o e in g.row (record o { items = xs }) at;
  refunds_agree = omega (arith, f.refunds_agree, g.refunds_agree);
  stock = λ j m e.
      let (n, at, less) = f.stock j m e in
      let (n', at', less') = g.stock j n at in (n', at', omega arith);
}

set_item-row :
    (k i : ℕ) (f : OrderItem → OrderItem) (s : Store) (o : Order)
    → lookup k s.orders ≡ some o
    → (xs : List OrderItem) × (lookup k (set_item k i f s).orders ≡ some (record o { items = xs }))
set_item-row k i f s o e =
    let on_row : OrderItem → OrderItem = λ x. if x.id == i then f x else x in
    (
      map on_row o.items,
      lookup-update k k (λ o. record o { items = map on_row o.items }) s.orders ∙ ground arith,
    )

pub write_line-orders :
    (k : ℕ) (mode : PaymentMode) (i : OrderItem) (r : Reconciliation) (n : ℕ) (p : Packing)
    → (write_line k mode i r n p).store.orders ≡ (set_item k i.id (write_weights r) p.store).orders
write_line-orders k mode i r n p = ground arith

write_line-products :
    (k : ℕ) (mode : PaymentMode) (i : OrderItem) (r : Reconciliation) (n : ℕ) (p : Packing)
    → (write_line k mode i r n p).store.products ≡ set_stock i.product_id n p.store.products
write_line-products k mode i r n p = ground arith

write_line-refunds :
    (k : ℕ) (mode : PaymentMode) (i : OrderItem) (r : Reconciliation) (n : ℕ) (p : Packing)
    → refund_sum (write_line k mode i r n p).store.refunds
      ≡ refund_sum p.store.refunds + r.refund_amount
write_line-refunds k mode i r n p = ground arith

set_stock-below :
    (k n j m : ℕ) (s s' : Store)
    → s'.products ≡ set_stock k n s.products
    → ((m : ℕ) → stock_of k s ≡ some m → n ≤ m)
    → stock_of j s ≡ some m
    → (n : ℕ) × (stock_of j s' ≡ some n) × (n ≤ m)
set_stock-below k n j m s s' rows less e =
    let found = ap (lookup j) rows ∙ lookup-update k j (λ p. record p { stock = n }) s.products in
    elim (Bool-cases (k == j)) [
      | inl same ↦ elim (Option-cases (lookup j s.products)) [
        | inl gone ↦ absurd (ground arith)
        | inr (p, at) ↦
            let here : k ≡ j = (==_iff k j).0 same in
            (n, ground arith, less m (ap (λ k. stock_of k s) here ∙ e))
      ]
      | inr differ ↦ (m, ground arith, omega arith)
    ]

pub LineCase-IsKept :
    (k : ℕ) (mode : PaymentMode) (i : OrderItem) (p q : Packing)
    → LineCase k mode i p q
    → IsKept k p q
LineCase-IsKept k mode i p q (piece e) = subst (IsKept k p) (sym e) (record {
  row = set_item-row k i.id (λ i. record i { action = some accept }) p.store;
  refunds_agree = refl;
  stock = λ j m e. (m, e, omega arith);
})
LineCase-IsKept k mode i p q (weighed r n e less) = subst (IsKept k p) (sym e) (record {
  row = λ o at.
      let (xs, there) = set_item-row k i.id (write_weights r) p.store o at in
      (xs, ap (lookup k) (write_line-orders k mode i r n p) ∙ there);
  refunds_agree = omega (arith, write_line-refunds k mode i r n p);
  stock = λ j m at.
      set_stock-below i.product_id n j m p.store (write_line k mode i r n p).store
        (write_line-products k mode i r n p) less at;
})
