-- ===== src/Packing/Tests.antt =====
-- The weight reconciliation and the packing at concrete inputs.
use meatvo_app.Base.{
  List, [], arith, err, false, inr, lookup, none, ok, refl, some, true, ℕ, ◌∷◌, ◌≡◌, ◌⊎◌,
}
use meatvo_app.Status.Names.{confirmed, packed}
use meatvo_app.Machine.Roles.{staff}
use meatvo_app.Machine.Rules.{can_actor_trigger_state}
use meatvo_app.Store.{Order, PaymentStatus, Store, stock_of}
use meatvo_app.Samples.{order_in, paid_up, two_packs}
use meatvo_app.Pricing.Product.{
  default_weight_grams, is_weight_based_product, next_cut_available_grams, price_of_weight,
  supplement_stock_deduction_units,
}
use meatvo_app.Packing.Reconcile.{
  Reconciliation, accept, auto_refund, reconcile_line_item_weight, result_of,
}
use meatvo_app.Packing.Balance.{IsAccepted, IsMadeUp, reconcile_line_item_weight_balance}
use meatvo_app.Packing.Rows.{LineWeight, normalize_line_weights}
use meatvo_app.Packing.Lines.{
  execute_packing_weight_reconciliation, item_rows, pack_line, pack_lines, take_supplement,
  total_after, weigh_line,
}
use meatvo_app.Packing.Packed.{IsGiven, IsPacked, execute_packing_weight_reconciliation_succeeds}
use meatvo_app.Packing.Flow.{pack_order_succeeds, pack_order_with_weight_reconciliation}

-- 300 g short with 100 g in the next cut: 200 g are paid back at 400 rupees per kg.
refund_of_short :
    reconcile_line_item_weight 1000 700 40000 100 ≡ ok (result_of 1000 700 auto_refund 100 8000)
unfolding reconcile_line_item_weight price_of_weight
refund_of_short = refl

-- 50 g short is within the tolerance.
within : reconcile_line_item_weight 1000 950 40000 0 ≡ ok (result_of 1000 950 accept 0 0)
unfolding reconcile_line_item_weight
within = refl

reconcile_line_item_weight_balance_example :
    (r : Reconciliation) × (reconcile_line_item_weight 1000 700 40000 100 ≡ ok r)
    × (r.ordered_weight_g ≡ 1000)
    × (r.actual_weight_g ≡ 700)
    × (IsAccepted r ⊎ IsMadeUp 40000 100 r)
reconcile_line_item_weight_balance_example =
    reconcile_line_item_weight_balance 1000 700 40000 100 (ground arith)

abbrev request : List LineWeight
request = record { order_item_id = some 11; actual_weight_g = some 900 } ∷ []

request-IsGiven :
    IsGiven false (normalize_line_weights request) (item_rows (two_packs ∷ []) paid_up.products)
unfolding normalize_line_weights
request-IsGiven = inr (λ h e. cc, tt)

execute_packing_weight_reconciliation_succeeds_example :
    (s' : Store) × (total : ℕ) × (execute_packing_weight_reconciliation 1 request false paid_up
      ≡ ok (s', total))
    × IsPacked 1 total (order_in confirmed PaymentStatus.paid) paid_up s'
execute_packing_weight_reconciliation_succeeds_example =
    execute_packing_weight_reconciliation_succeeds 1 request false paid_up
      (order_in confirmed PaymentStatus.paid) refl refl refl refl request-IsGiven

staff_packs : can_actor_trigger_state packed staff ≡ true
unfolding can_actor_trigger_state
staff_packs = refl

pack_order_succeeds_example :
    (total : ℕ) × ((pack_order_with_weight_reconciliation 1 request false staff false paid_up).1
      ≡ ok (total, confirmed))
    × ((q : Order) × (lookup 1
            (pack_order_with_weight_reconciliation 1 request false staff false paid_up).0.orders
          ≡ some q)
        × (q.status ≡ packed)
        × (q.total_amount ≡ total_after 430000000 total))
pack_order_succeeds_example =
    pack_order_succeeds 1 request false staff false paid_up (order_in confirmed PaymentStatus.paid)
      refl refl refl refl request-IsGiven staff_packs (λ h. refl)

-- 100 g short are supplemented with a cut of 500 g from the stock.
supplemented :
    elim (execute_packing_weight_reconciliation 1 request false paid_up) [
      | ok (s', total) ↦ stock_of 7 s'
      | err e ↦ none
    ]
    ≡ some 7
unfolding execute_packing_weight_reconciliation pack_lines pack_line weigh_line take_supplement
    reconcile_line_item_weight next_cut_available_grams supplement_stock_deduction_units
    default_weight_grams is_weight_based_product normalize_line_weights
supplemented = refl
