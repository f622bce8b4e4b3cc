-- ===== src/Packing/Measured.antt =====
-- One line of a packing whose weight the request has, or need not have
-- (backend/src/services/packingWeightReconciliation.service.js).
use meatvo_app.Base.{
  All, Bool, Bool-cases, List, Option-cases, arith, inl, inr, lookup, ltb, none, ok, or_else, refl,
  some, true, ℕ, ◌-◌, ◌<◌, ◌≡◌, ◌≢◌, ◌≤◌, ◌⊎◌,
}
use meatvo_app.Store.{OrderItem, PaymentMode, stock_of}
use meatvo_app.Pricing.Product.{
  Product, default_weight_grams_pos, is_weight_based_product, next_cut_available_grams,
  ordered_weight_grams_for_line, supplement_stock_deduction_units, supplement_units_cover,
}
use meatvo_app.Packing.Reconcile.{
  Reconciliation, WeightAction, accept, auto_refund, supplement_from_next_cut,
}
use meatvo_app.Packing.Balance.{IsAccepted, IsMadeUp, reconcile_line_item_weight_balance}
use meatvo_app.Packing.Rows.{
  Packing, Weights, measured, ordered_weight_of, set_item, unit_price_per_kg,
}
use meatvo_app.Packing.Lines.{pack_line, stock_left, take_supplement, weigh_line, write_line}

ordered_weight-pos : (p : Product) (i : OrderItem) → 0 < ordered_weight_of p i
unfolding ordered_weight_grams_for_line
ordered_weight-pos p i = elim (Bool-cases (ltb 0 (or_else i.ordered_weight_g 0))) [
  | inl stored ↦ ground arith
  | inr missing ↦ grind (arith, default_weight_grams_pos p.weight_variants)
]

supplement-available :
    (price available : ℕ) (r : Reconciliation)
    → IsAccepted r ⊎ IsMadeUp price available r
    → r.supplement_g ≤ available
supplement-available price available r (inl accepted) = omega arith
supplement-available price available r (inr made_up) = made_up.1

stock_left-ok :
    (a : WeightAction) (i : OrderItem) (stock units : ℕ)
    → units ≤ stock
    → (n : ℕ) × (stock_left a i stock units ≡ ok n) × (n ≤ stock)
stock_left-ok accept i stock units h = (stock, refl, omega arith)
stock_left-ok supplement_from_next_cut i stock units h = (stock - units, ground arith, omega arith)
stock_left-ok auto_refund i stock units h = (stock - units, refl, omega arith)

-- The stock covers every supplement: its exception is never thrown.
take_supplement-ok :
    (i : OrderItem) (r : Reconciliation) (p : Product)
    → r.supplement_g ≤ next_cut_available_grams p
    → (n : ℕ) × (take_supplement i r p ≡ ok n) × (n ≤ p.stock)
unfolding take_supplement
take_supplement-ok i r p h =
    stock_left-ok r.action i p.stock (supplement_stock_deduction_units r.supplement_g p)
      ((supplement_units_cover r.supplement_g p).2 h)

-- The line of an item, the stock that it leaves and its reconciliation.
weigh_line-ok :
    (k : ℕ) (mode : PaymentMode) (i : OrderItem) (actual : ℕ) (product locked : Product)
    (p : Packing)
    → (r : Reconciliation) × (n : ℕ) × (weigh_line k mode i actual product locked p
        ≡ ok (write_line k mode i r n p))
      × (n ≤ locked.stock)
unfolding weigh_line
weigh_line-ok k mode i actual product locked p =
    let price = unit_price_per_kg product in
    let available = next_cut_available_grams locked in
    let (r, e, _, _, balance) =
      reconcile_line_item_weight_balance (ordered_weight_of product i) actual price available
        (ordered_weight-pos product i) in
    let (n, taken, less) =
      take_supplement-ok i r locked (supplement-available price available r balance) in
    (r, n, rw (e, taken, weigh_line) refl, less)

-- The request has a weight for every weight-based line.
abbrev pub IsMeasured : Weights → List (OrderItem × Product) → Type 0
IsMeasured weights = All (λ x. is_weight_based_product x.1 ≡ true → measured x.0.id weights ≢ none)

-- What a line may do: accept a piece, or write a weight.
pub data LineCase (k : ℕ) (mode : PaymentMode) (i : OrderItem) (p q : Packing) : Type 0 where
  piece :
      q ≡ record p { store = set_item k i.id (λ i. record i { action = some accept }) p.store }
      → LineCase k mode i p q
  weighed :
      (r : Reconciliation) (n : ℕ)
      → q ≡ write_line k mode i r n p
      → ((m : ℕ) → stock_of i.product_id p.store ≡ some m → n ≤ m)
      → LineCase k mode i p q

below :
    (p : Packing) (i : OrderItem) (product : Product) (n : ℕ)
    → n ≤ (or_else (lookup i.product_id p.store.products) product).stock
    → (m : ℕ) → stock_of i.product_id p.store ≡ some m
    → n ≤ m
below p i product n h m e = elim (Option-cases (lookup i.product_id p.store.products)) [
  | inl gone ↦ absurd (ground arith)
  | inr (q, at) ↦ ground arith
]

pub pack_line-ok :
    (k : ℕ) (mode : PaymentMode) (weights : Weights) (skip : Bool) (i : OrderItem)
    (product : Product) (p : Packing)
    → (skip ≡ true) ⊎ (is_weight_based_product product ≡ true → measured i.id weights ≢ none)
    → (q : Packing) × (pack_line k mode weights skip (i, product) p ≡ ok q) × LineCase k mode i p q
unfolding pack_line
pack_line-ok k mode weights skip i product p given =
    let locked = or_else (lookup i.product_id p.store.products) product in
    elim (Bool-cases (is_weight_based_product product)) [
      | inr pieces ↦ (
        record p { store = set_item k i.id (λ i. record i { action = some accept }) p.store },
        rw (pieces, pack_line) refl,
        piece refl,
      )
      | inl by_weight ↦ elim (Option-cases (measured i.id weights)) [
        | inr (actual, found) ↦
            let (r, n, e, less) = weigh_line-ok k mode i actual product locked p in
            (
              write_line k mode i r n p,
              rw (by_weight, found, pack_line) e,
              weighed r n refl (below p i product n less),
            )
        | inl missing ↦ elim given [
          | inl skipped ↦
              let (r, n, e, less) =
                weigh_line-ok k mode i (ordered_weight_of product i) product locked p in
              (
                write_line k mode i r n p,
                rw (by_weight, missing, skipped, pack_line) e,
                weighed r n refl (below p i product n less),
              )
          | inr present ↦ absurd (present by_weight missing)
        ]
      ]
    ]
