-- ===== src/Pricing/Product.antt =====
-- backend/src/utils/productPricing.util.js and weightBasedProduct.util.js. The doubles of the source
-- are modelled by exact arithmetic; `weight_variants` is the INTEGER[] column, and a NUMERIC column
-- comes from the driver as a text, so that only NULL makes `||` go on.
use Prim.Native.Nat.{max}
use meatvo_app.Base.{
  Bool, List, Option, Text, [], any, arith, codes, false, if◌then◌else◌, leb, ltb, none, or_else,
  some, text_eq, true, ℕ, ◌*◌, ◌+◌, ◌-◌, ◌/◌, ◌<◌, ◌==◌, ◌||◌, ◌∷◌, ◌≤◌,
}

pub record Product : Type 0 where
  pub id : ℕ
  pub price : ℕ  -- paise per kg
  pub base_price_per_kg : Option ℕ  -- paise
  pub weight_variants : List ℕ  -- grams
  pub stock : ℕ
  pub active : Bool
  pub unit : Option Text

-- `parseWeightVariants`
unfoldable pub parse_weight_variants : List ℕ → List ℕ
parse_weight_variants [] = 500 ∷ []
parse_weight_variants (w ∷ ws) = w ∷ ws

abbrev first_or_default : List ℕ → ℕ
first_or_default [] = 500
first_or_default (w ∷ ws) = if w == 0 then 500 else w

-- `defaultWeightGrams`
unfoldable pub default_weight_grams : List ℕ → ℕ
unfolding parse_weight_variants
default_weight_grams wv = first_or_default (parse_weight_variants wv)

-- `weightGrams || defaultWeightGrams(...)`
abbrev pub chosen_weight : Option ℕ → List ℕ → ℕ
chosen_weight none wv = default_weight_grams wv
chosen_weight (some g) wv = if g == 0 then default_weight_grams wv else g

-- `Math.round(basePrice * (weight / 1000) * 100) / 100`, in paise: halves are rounded up.
unfoldable pub price_of_weight : ℕ → ℕ → ℕ
price_of_weight base weight = (base * weight + 500) / 1000

-- `resolveUnitSalePrice`
unfoldable pub resolve_unit_sale_price : Product → Option ℕ → ℕ
unfolding price_of_weight default_weight_grams
resolve_unit_sale_price product weight_grams =
    price_of_weight (or_else product.base_price_per_kg product.price)
      (chosen_weight weight_grams product.weight_variants)

-- PIECE_UNITS; the comparison is on lower-case texts, which the stored units are.
abbrev piece_units : List Text
piece_units =
    codes "piece" ∷ codes "pieces" ∷ codes "pcs" ∷ codes "pack" ∷ codes "unit" ∷ codes "dozen" ∷ []

-- `isWeightBasedProduct`: the default of `parseWeightVariants` is never empty.
unfoldable pub is_weight_based_product : Product → Bool
unfolding parse_weight_variants
is_weight_based_product product =
    if any (text_eq (or_else product.unit [])) piece_units
    then false
    else elim (parse_weight_variants product.weight_variants) [
      | [] ↦ ltb 0 (or_else product.base_price_per_kg 0)
      | w ∷ ws ↦ if ltb 0 w then true else ltb 0 (or_else product.base_price_per_kg 0)
    ]

-- `orderedWeightGramsForLine`
unfoldable pub ordered_weight_grams_for_line : Product → ℕ → ℕ
unfolding default_weight_grams
ordered_weight_grams_for_line product quantity =
    default_weight_grams product.weight_variants * max 1 quantity

-- `nextCutAvailableGrams`
unfoldable pub next_cut_available_grams : Product → ℕ
next_cut_available_grams product = product.stock * default_weight_grams product.weight_variants

-- `Math.ceil(a / b)`
abbrev ceil_div : ℕ → ℕ → ℕ
ceil_div a b = (a + (b - 1)) / b

-- `supplementStockDeductionUnits`
unfoldable pub supplement_stock_deduction_units : ℕ → Product → ℕ
supplement_stock_deduction_units supplement_g product =
    let default_grams = default_weight_grams product.weight_variants in
    if leb default_grams 0 || leb supplement_g 0 then 0 else ceil_div supplement_g default_grams

pub default_weight_grams_pos : (wv : List ℕ) → 0 < default_weight_grams wv
unfolding default_weight_grams
default_weight_grams_pos [] = omega arith
default_weight_grams_pos (w ∷ ws) = ground arith

rounded : (x : ℕ) → (1000 * ((x + 500) / 1000) ≤ x + 500) × (x < 1000 * ((x + 500) / 1000) + 500)
rounded x = omega arith

ceil_div_bounds : (g d : ℕ) → 0 < d → (g ≤ ceil_div g d * d) × (ceil_div g d * d < g + d)
ceil_div_bounds g d pos = omega arith

ceil_div-le : (g d s : ℕ) → 0 < d → g ≤ s * d → ceil_div g d ≤ s
ceil_div-le g d s pos h = grind (arith, ceil_div_bounds g d pos)

-- The price of a unit is the price of its weight to the nearest paisa, halves up: 1000 times the
-- price is within 500 of the price per kg times the grams.
pub resolve_unit_sale_price_nearest :
    (p : Product) (w : Option ℕ)
    → let exact = or_else p.base_price_per_kg p.price * chosen_weight w p.weight_variants in
      (1000 * resolve_unit_sale_price p w ≤ exact + 500)
      × (exact < 1000 * resolve_unit_sale_price p w + 500)
unfolding resolve_unit_sale_price
resolve_unit_sale_price_nearest p w =
    rounded (or_else p.base_price_per_kg p.price * chosen_weight w p.weight_variants)

-- What the units deducted for a supplement weigh covers the supplement, with less than one default
-- cut to spare, and a supplement that the next cuts hold never takes more units than are in stock.
pub supplement_units_cover :
    (g : ℕ) (p : Product)
    → let d = default_weight_grams p.weight_variants in
      let u = supplement_stock_deduction_units g p in
      (g ≤ u * d) × (u * d < g + d) × (g ≤ next_cut_available_grams p → u ≤ p.stock)
unfolding supplement_stock_deduction_units next_cut_available_grams
supplement_units_cover g p =
    let d = default_weight_grams p.weight_variants in
    let pos = default_weight_grams_pos p.weight_variants in
    ground (arith, pos, ceil_div_bounds g d pos, ceil_div-le g d p.stock pos)
