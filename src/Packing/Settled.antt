-- ===== src/Packing/Settled.antt =====
-- What a packing does to the payment and the status of the orders
-- (backend/src/services/packingWeightReconciliation.service.js).
use meatvo_app.Base.{
  Bool, Bool-cases, List, Option-cases, Result-cases, [], ap, arith, if◌then◌else◌, inl, inr,
  lookup, map, ok, or_else, refl, some, subst, sym, ℕ, ◌==◌, ◌∙◌, ◌∷◌, ◌≡◌,
}
use meatvo_app.Store.{OrderItem, PaymentMode, Store}
use meatvo_app.Pricing.Product.{Product, is_weight_based_product, next_cut_available_grams}
use meatvo_app.Packing.Reconcile.{accept, reconcile_line_item_weight}
use meatvo_app.Packing.Rows.{
  LineWeight, Packing, Weights, measured, normalize_line_weights, ordered_weight_of, set_item,
  unit_price_per_kg, write_weights,
}
use meatvo_app.Packing.Lines.{
  execute_packing_weight_reconciliation, finish, item_rows, pack_line, pack_lines, start,
  take_supplement, weigh_line, write_line, write_order,
}
use meatvo_app.Packing.Kept.{write_line-orders}
use meatvo_app.Lifecycle.Paid.{AllPaid, update-AllPaid}

-- The line has changed items of its order alone.
abbrev pub IsItemChange : ℕ → ℕ → Packing → Packing → Type 0
IsItemChange k i p q =
    (f : OrderItem → OrderItem) × (q.store.orders ≡ (set_item k i f p.store).orders)

weigh_line-IsItemChange :
    (k : ℕ) (mode : PaymentMode) (i : OrderItem) (actual : ℕ) (product locked : Product)
    (p q : Packing)
    → weigh_line k mode i actual product locked p ≡ ok q
    → IsItemChange k i.id p q
unfolding weigh_line
weigh_line-IsItemChange k mode i actual product locked p q h =
    elim (Result-cases (
      reconcile_line_item_weight (ordered_weight_of product i) actual (unit_price_per_kg product)
        (next_cut_available_grams locked))) [
          | inr (x, e) ↦ absurd (ground arith)
          | inl (r, e) ↦ elim (Result-cases (take_supplement i r locked)) [
            | inr (x, e') ↦ absurd (ground arith)
            | inl (n, e') ↦
                let result : q ≡ write_line k mode i r n p = ground arith in
                (
                  write_weights r,
                  ap (λ p. p.store.orders) result ∙ write_line-orders k mode i r n p,
                )
          ]
        ]

pack_line-IsItemChange :
    (k : ℕ) (mode : PaymentMode) (weights : Weights) (skip : Bool) (i : OrderItem)
    (product : Product) (p q : Packing)
    → pack_line k mode weights skip (i, product) p ≡ ok q
    → IsItemChange k i.id p q
unfolding pack_line
pack_line-IsItemChange k mode weights skip i product p q h =
    let locked = or_else (lookup i.product_id p.store.products) product in
    elim (Bool-cases (is_weight_based_product product)) [
      | inr pieces ↦ ((λ i. record i { action = some accept }), ground arith)
      | inl by_weight ↦ elim (Option-cases (measured i.id weights)) [
        | inr (actual, found) ↦
            weigh_line-IsItemChange k mode i actual product locked p q (ground arith)
        | inl missing ↦ elim (Bool-cases skip) [
          | inl skipped ↦
              weigh_line-IsItemChange k mode i (ordered_weight_of product i) product locked p q
                (ground arith)
          | inr required ↦ absurd (ground arith)
        ]
      ]
    ]

IsItemChange-AllPaid :
    (k i : ℕ) (p q : Packing) → IsItemChange k i p q → AllPaid p.store → AllPaid q.store
IsItemChange-AllPaid k i p q (f, rows) all =
    let on_row : OrderItem → OrderItem = λ x. if x.id == i then f x else x in
    update-AllPaid k (λ o. record o { items = map on_row o.items }) p.store q.store (λ o h. h) rows
      all

pack_lines-AllPaid :
    (k : ℕ) (mode : PaymentMode) (weights : Weights) (skip : Bool)
    (rows : List (OrderItem × Product)) (p q : Packing)
    → pack_lines k mode weights skip rows p ≡ ok q
    → AllPaid p.store
    → AllPaid q.store
unfolding pack_lines
pack_lines-AllPaid k mode weights skip [] p q h all =
    let same : p ≡ q = ground arith in subst (λ p. AllPaid p.store) same all
pack_lines-AllPaid k mode weights skip ((i, product) ∷ rows) p q h all =
    elim (Result-cases (pack_line k mode weights skip (i, product) p)) [
      | inr (x, e) ↦ absurd (ground arith)
      | inl (r, e) ↦ pack_lines-AllPaid k mode weights skip rows r q (ground arith) (
          IsItemChange-AllPaid k i.id p r
            (pack_line-IsItemChange k mode weights skip i product p r e) all)
    ]

-- The reconciliation of an order keeps every online order past confirmation settled.
pub execute-AllPaid :
    (k : ℕ) (request : List LineWeight) (skip : Bool) (s s' : Store) (total : ℕ)
    → execute_packing_weight_reconciliation k request skip s ≡ ok (s', total)
    → AllPaid s
    → AllPaid s'
unfolding execute_packing_weight_reconciliation
execute-AllPaid k request skip s s' total h all = elim (Option-cases (lookup k s.orders)) [
  | inl gone ↦ absurd (ground arith)
  | inr (o, at) ↦
      let rows = item_rows o.items s.products in
      let weights = normalize_line_weights request in
      elim (Result-cases (pack_lines k o.payment_mode weights skip rows (start s))) [
        | inr (x, e) ↦ absurd (ground arith)
        | inl (q, e) ↦
            let result : s' ≡ finish k q = ground arith in
            subst AllPaid (sym result) (
              update-AllPaid k (write_order q) q.store (finish k q) (λ o h. h) refl
                (pack_lines-AllPaid k o.payment_mode weights skip rows (start s) q e all))
      ]
]
