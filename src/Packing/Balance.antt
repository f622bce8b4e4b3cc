-- ===== src/Packing/Balance.antt =====
-- What the reconciliation of a line gives the customer for the weight ordered
-- (backend/src/services/weightReconciliation.service.js).
use meatvo_app.Base.{
  Bool-cases, arith, false, inl, inr, leb, ok, refl, sym, true, ℕ, ◌+◌, ◌-◌, ◌<◌, ◌≡◌, ◌≤◌, ◌⊎◌,
}
use meatvo_app.Pricing.Product.{price_of_weight}
use meatvo_app.Packing.Reconcile.{
  Reconciliation, abs, accept, auto_refund, exceeds, minus, reconcile_line_item_weight, result_of,
  supplement_from_next_cut, weight_tolerance_g,
}

-- The customer gets at least the ordered weight, less the tolerance, for the ordered price.
abbrev pub IsAccepted : Reconciliation → Type 0
IsAccepted r =
    (r.action ≡ accept)
    × (r.ordered_weight_g ≤ r.actual_weight_g + weight_tolerance_g)
    × (r.supplement_g ≡ 0)
    × (r.refund_amount ≡ 0)

-- What is short is made up from the next cut as far as that goes, and the rest, `g` grams, is paid
-- back at the price.
abbrev pub IsMadeUp : ℕ → ℕ → Reconciliation → Type 0
IsMadeUp price available r =
    (r.actual_weight_g + weight_tolerance_g < r.ordered_weight_g)
    × (r.supplement_g ≤ available)
    × ((g : ℕ) × (r.actual_weight_g + r.supplement_g + g ≡ r.ordered_weight_g)
        × (r.refund_amount ≡ price_of_weight price g)
        × (0 < g → r.supplement_g ≡ available))

abs-minus-≤ :
    (a b : ℕ) → leb (abs (minus a b)) weight_tolerance_g ≡ true → b ≤ a + weight_tolerance_g
abs-minus-≤ a b h = ground arith

exceeds-minus : (a b : ℕ) → exceeds (minus a b) weight_tolerance_g ≡ true → b ≤ a
exceeds-minus a b h = ground arith

minus-short :
    (a b : ℕ)
    → leb (abs (minus a b)) weight_tolerance_g ≡ false
    → exceeds (minus a b) weight_tolerance_g ≡ false
    → (a + weight_tolerance_g < b) × (abs (minus a b) ≡ b - a)
minus-short a b far light = ground arith

price_of_nothing : (p : ℕ) → price_of_weight p 0 ≡ 0
unfolding price_of_weight
price_of_nothing p = omega arith

-- The reconciliation of a line with a positive ordered weight does not fail and reports the weights
-- that it was given; either the actual weight is within the tolerance below the ordered one or above
-- it, and nothing is supplemented or refunded, or the actual weight, the supplement and the grams paid
-- back add up to the ordered weight, and grams are paid back only when the next cut is used up.
pub reconcile_line_item_weight_balance :
    (ordered actual price available : ℕ)
    → 0 < ordered
    → (r : Reconciliation) × (reconcile_line_item_weight ordered actual price available ≡ ok r)
      × (r.ordered_weight_g ≡ ordered)
      × (r.actual_weight_g ≡ actual)
      × (IsAccepted r ⊎ IsMadeUp price available r)
unfolding reconcile_line_item_weight
reconcile_line_item_weight_balance ordered actual price available positive =
    let delta = minus actual ordered in
    elim (Bool-cases (leb (abs delta) weight_tolerance_g)) [
      | inl near ↦ (
        result_of ordered actual accept 0 0,
        ground arith,
        refl,
        refl,
        inl (refl, abs-minus-≤ actual ordered near, refl, refl),
      )
      | inr far ↦ elim (Bool-cases (exceeds delta weight_tolerance_g)) [
        | inl heavy ↦ (
          result_of ordered actual accept 0 0,
          ground arith,
          refl,
          refl,
          inl (refl, ground (arith, exceeds-minus actual ordered heavy), refl, refl),
        )
        | inr light ↦
            let (short, amount) = minus-short actual ordered far light in
            elim (Bool-cases (leb (abs delta) available)) [
              | inl covered ↦ (
                result_of ordered actual supplement_from_next_cut (abs delta) 0,
                ground arith,
                refl,
                refl,
                inr (
                  short,
                  ground arith,
                  (0, ground arith, sym (price_of_nothing price), λ h. ground arith),
                ),
              )
              | inr uncovered ↦
                  let g = abs delta - available in
                  (
                    result_of ordered actual auto_refund available (price_of_weight price g),
                    ground arith,
                    refl,
                    refl,
                    inr (short, ground arith, (g, ground arith, refl, λ h. refl)),
                  )
            ]
      ]
    ]
