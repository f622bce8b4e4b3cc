-- ===== src/Packing/Packed.antt =====
-- `executePackingWeightReconciliation` as a whole, and `packOrderWithWeightReconciliation`
-- (backend/src/services/packingWeightReconciliation.service.js).
use meatvo_app.Base.{
  Bool, List, [], arith, false, if◌then◌else◌, inl, inr, lookup, lookup-update, none, ok, refl,
  some, true, ℕ, ◌+◌, ◌∙◌, ◌∷◌, ◌≡◌, ◌≢◌, ◌≤◌, ◌⊎◌,
}
use meatvo_app.Status.Names.{includes}
use meatvo_app.Store.{
  Order, OrderItem, PaymentMode, ReconStatus, Store, completed, not_required, stock_of,
}
use meatvo_app.Pricing.Product.{Product, is_weight_based_product}
use meatvo_app.Packing.Rows.{
  LineWeight, Packing, Weights, measured, normalize_line_weights, packable_statuses,
}
use meatvo_app.Packing.Lines.{
  execute_packing_weight_reconciliation, finish, is_completed, is_empty, item_rows, pack_lines,
  start, total_after, write_order,
}
use meatvo_app.Packing.Measured.{IsMeasured, pack_line-ok}
use meatvo_app.Packing.Kept.{IsKept, IsKept-refl, IsKept-trans, LineCase-IsKept, refund_sum}
use meatvo_app.Lifecycle.Transition.{is_weight_reconciliation_complete_for_dispatch}

-- The request measures every weight-based line, or asks for none to be checked.
abbrev pub IsGiven : Bool → Weights → List (OrderItem × Product) → Type 0
IsGiven skip weights rows = (skip ≡ true) ⊎ IsMeasured weights rows

IsGiven-head :
    (skip : Bool) (weights : Weights) (i : OrderItem) (product : Product)
    (rows : List (OrderItem × Product))
    → IsGiven skip weights ((i, product) ∷ rows)
    → ((skip ≡ true) ⊎ (is_weight_based_product product ≡ true → measured i.id weights ≢ none))
      × IsGiven skip weights rows
IsGiven-head skip weights i product rows (inl skipped) = (inl skipped, inl skipped)
IsGiven-head skip weights i product rows (inr all) = (inr all.0, inr all.1)

pack_lines-ok :
    (k : ℕ) (mode : PaymentMode) (weights : Weights) (skip : Bool)
    (rows : List (OrderItem × Product)) (p : Packing)
    → IsGiven skip weights rows
    → (q : Packing) × (pack_lines k mode weights skip rows p ≡ ok q) × IsKept k p q
unfolding pack_lines
pack_lines-ok k mode weights skip [] p given = (p, refl, IsKept-refl k p)
pack_lines-ok k mode weights skip ((i, product) ∷ rows) p given =
    let (here, later) = IsGiven-head skip weights i product rows given in
    let (q, e, case) = pack_line-ok k mode weights skip i product p here in
    let (r, e', kept) = pack_lines-ok k mode weights skip rows q later in
    (r, rw e e', IsKept-trans k p q r (LineCase-IsKept k mode i p q case) kept)

-- What a packing leaves: the order's total less the refund, its refund and a reconciliation that lets
-- it be dispatched, the refunds reported are the ones recorded, and no stock has grown.
pub record IsPacked (k total : ℕ) (o : Order) (s s' : Store) : Type 0 where
  pub items : List OrderItem
  pub recon : ReconStatus
  pub row :
      lookup k s'.orders
      ≡ some (record o {
        items = items;
        total_amount = total_after o.total_amount total;
        recon_status = recon;
        weight_refund = total;
      })
  pub dispatchable : is_weight_reconciliation_complete_for_dispatch recon ≡ true
  pub recorded : refund_sum s'.refunds ≡ refund_sum s.refunds + total
  pub stock : (j m : ℕ) → stock_of j s ≡ some m → (n : ℕ) × (stock_of j s' ≡ some n) × (n ≤ m)

recon_of :
    (b : Bool)
    → is_weight_reconciliation_complete_for_dispatch (if b then completed else not_required) ≡ true
unfolding is_weight_reconciliation_complete_for_dispatch
recon_of true = refl
recon_of false = refl

-- The reconciliation of an order that is CONFIRMED or PACKING_STARTED, has not been reconciled and has
-- lines, succeeds when the request has a weight for each weight-based line or skips their validation
-- (the exception on stock for a supplement included, which is never thrown); the refund reported is
-- the sum of the refunds recorded and is taken off the order's total, the order may be dispatched, and
-- no product's stock has grown.
pub execute_packing_weight_reconciliation_succeeds :
    (k : ℕ) (request : List LineWeight) (skip : Bool) (s : Store) (o : Order)
    → lookup k s.orders ≡ some o
    → includes packable_statuses o.status ≡ true
    → is_completed o.recon_status ≡ false
    → is_empty (item_rows o.items s.products) ≡ false
    → IsGiven skip (normalize_line_weights request) (item_rows o.items s.products)
    → (s' : Store) × (total : ℕ) × (execute_packing_weight_reconciliation k request skip s
        ≡ ok (s', total))
      × IsPacked k total o s s'
unfolding execute_packing_weight_reconciliation
execute_packing_weight_reconciliation_succeeds k request skip s o at packable fresh lines given =
    let weights = normalize_line_weights request in
    let (q, e, kept) =
      pack_lines-ok k o.payment_mode weights skip (item_rows o.items s.products) (start s) given in
    let (xs, row) = kept.row o at in
    let recon = if q.has_weight_lines then completed else not_required in
    (
      finish k q,
      q.total_refund,
      rw (at, packable, fresh, lines, e, execute_packing_weight_reconciliation) refl,
      record {
        items = xs;
        recon = recon;
        row = lookup-update k k (write_order q) q.store.orders ∙ ground arith;
        dispatchable = recon_of q.has_weight_lines;
        recorded = omega (arith, kept.refunds_agree);
        stock = kept.stock;
      },
    )
