-- ===== src/Packing/Reconcile.antt =====
-- backend/src/services/weightReconciliation.service.js, with WEIGHT_ACTION of
-- backend/src/constants/weightReconciliation.constants.js and the tolerance of
-- backend/src/config/businessRules.js. Weights are whole grams, the prices and the refund paise: the
-- doubles of the source are modelled by exact arithmetic.
use meatvo_app.Base.Result.{Result, err, ok}
use meatvo_app.Base.{Bool, false, if◌then◌else◌, leb, ltb, suc, ℕ, ◌-◌, ◌==◌}
use meatvo_app.Pricing.Product.{price_of_weight}

pub data ℤ : Type 0 where
  pos : ℕ → ℤ
  negsuc : ℕ → ℤ

abbrev pub minus : ℕ → ℕ → ℤ
minus a b = if ltb a b then negsuc (b - a - 1) else pos (a - b)

abbrev pub abs : ℤ → ℕ
abs (pos n) = n
abs (negsuc n) = suc n

abbrev pub exceeds : ℤ → ℕ → Bool
exceeds (pos n) bound = ltb bound n
exceeds (negsuc n) bound = false

-- WEIGHT_ACTION
pub data WeightAction : Type 0 where
  accept supplement_from_next_cut auto_refund : WeightAction

-- WEIGHT_TOLERANCE_G
abbrev pub weight_tolerance_g : ℕ
weight_tolerance_g = 50

pub record Reconciliation : Type 0 where
  pub action : WeightAction
  pub ordered_weight_g : ℕ
  pub actual_weight_g : ℕ
  pub delta_g : ℤ
  pub supplement_g : ℕ
  pub refund_amount : ℕ  -- paise

pub data WeightError : Type 0 where
  ordered_weight_not_positive : WeightError

-- The object that the function returns.
abbrev pub result_of : ℕ → ℕ → WeightAction → ℕ → ℕ → Reconciliation
result_of ordered actual action supplement refund = record {
  action = action;
  ordered_weight_g = ordered;
  actual_weight_g = actual;
  delta_g = minus actual ordered;
  supplement_g = supplement;
  refund_amount = refund;
}

-- `reconcileLineItemWeight`, with the price per kg and what the next cut has.
unfoldable pub reconcile_line_item_weight : ℕ → ℕ → ℕ → ℕ → Result WeightError Reconciliation
reconcile_line_item_weight ordered actual price_per_kg available =
    let delta = minus actual ordered in
    let short = abs delta in
    let refund = price_of_weight price_per_kg (short - available) in
    if ordered == 0
    then err ordered_weight_not_positive
    else if leb (abs delta) weight_tolerance_g
    then ok (result_of ordered actual accept 0 0)
    else if exceeds delta weight_tolerance_g
    then ok (result_of ordered actual accept 0 0)
    else if leb short available
    then ok (result_of ordered actual supplement_from_next_cut short 0)
    else ok (result_of ordered actual auto_refund available refund)
