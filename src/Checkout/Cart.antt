-- ===== src/Checkout/Cart.antt =====
-- backend/src/modules/cart/cart.service.js and the operations on the cart of
-- backend/src/modules/cart/cart.controller.js. A user's cart is the object that Redis keeps, a map from
-- product ids; the reading of its JSON, its expiry and the responses' prices are left out. Quantities
-- and weights are natural numbers.
use meatvo_app.Base.{
  Bool, Map, Option, Option-cases, Text, [], ap, arith, erase, err, false, filter, if◌then◌else◌,
  inl, inr, insert, leb, length, lookup, lookup-insert, ltb, none, not, ok, or_else, some, true, ℕ,
  ◌&&◌, ◌*◌, ◌+◌, ◌-◌, ◌==◌, ◌||◌, ◌∙◌, ◌∷◌, ◌≡◌, ◌≢◌, ◌≤◌,
}
use meatvo_app.Base.Result.{Result}
use meatvo_app.Pricing.Product.{Product}

-- `normalizeCartEntry`'s object.
pub record CartEntry : Type 0 where
  pub quantity : ℕ
  pub weight_grams : Option ℕ
  pub variant_id : Option Text

-- What an entry may be: a number, an object or something else.
pub data RawEntry : Type 0 where
  count : ℕ → RawEntry
  object : Option ℕ → Option ℕ → Option Text → RawEntry
  junk : RawEntry

abbrev pub non_empty : Option Text → Option Text
non_empty none = none
non_empty (some []) = none
non_empty (some (c ∷ t)) = some (c ∷ t)

-- `normalizeCartEntry`
unfoldable pub normalize_cart_entry : RawEntry → CartEntry
normalize_cart_entry (count n) = record { quantity = n; weight_grams = none; variant_id = none }
normalize_cart_entry (object quantity grams variant) = record {
  quantity = or_else quantity 0;
  weight_grams = grams;
  variant_id = non_empty variant;
}
normalize_cart_entry junk = record { quantity = 0; weight_grams = none; variant_id = none }

-- A text of digits only, read on from a value.
abbrev digits_from : ℕ → Text → Option ℕ
digits_from n [] = some n
digits_from n (c ∷ t) =
    let rest = digits_from (n * 10 + (c - 48)) t in if leb 48 c && leb c 57 then rest else none

abbrev digits : Text → Option ℕ
digits [] = none
digits (c ∷ t) = digits_from 0 (c ∷ t)

-- The digits behind the last `_`, if there is nothing else behind it.
abbrev pub last_number : Text → Option ℕ
last_number [] = none
last_number (c ∷ t) =
    let rest = last_number t in
    if c == b'_' then elim (digits t) [ none ↦ rest | some n ↦ some n ] else rest

-- `gramsFromVariantId`: `/_(\d+)$/` with a positive number.
unfoldable pub grams_from_variant_id : Option Text → Option ℕ
grams_from_variant_id none = none
grams_from_variant_id (some t) = elim (last_number t) [
  | none ↦ none
  | some n ↦ if n == 0 then none else some n
]

abbrev pub Cart : Type 0
Cart = Map RawEntry

pub data CartError : Type 0 where
  invalid_product_id quantity_out_of_range insufficient_stock : CartError

-- `checkStock`
unfoldable pub check_stock : ℕ → ℕ → Map Product → Bool
check_stock pid qty products = elim (lookup pid products) [
  | none ↦ false
  | some p ↦ if p.active then leb qty p.stock else false
]

-- A value that JavaScript takes as true.
abbrev pub truthy : Option ℕ → Option ℕ
truthy none = none
truthy (some n) = if n == 0 then none else some n

abbrev pub or_option {ℓ} : {A : Type ℓ} → Option A → Option A → Option A
or_option (some a) b = some a
or_option none b = b

-- The entry that an addition or an update writes.
abbrev pub merged_entry : ℕ → Option Text → Option ℕ → CartEntry → RawEntry
merged_entry quantity variant grams current =
    object (some quantity)
      (or_option grams (or_option (truthy current.weight_grams) (grams_from_variant_id variant)))
      (or_option (non_empty variant) (non_empty current.variant_id))

abbrev pub current_entry : ℕ → Cart → CartEntry
current_entry pid cart =
    normalize_cart_entry (elim (lookup pid cart) [ none ↦ junk | some raw ↦ raw ])

-- `addToCart`
unfoldable pub add_to_cart :
    ℕ → ℕ → Option Text → Option ℕ → Map Product → Cart → Result CartError Cart
add_to_cart pid qty variant grams products cart =
    let current = current_entry pid cart in
    if pid == 0
    then err invalid_product_id
    else if qty == 0 || ltb 10 qty
    then err quantity_out_of_range
    else if not (check_stock pid qty products)
    then err insufficient_stock
    else ok (insert pid (merged_entry (current.quantity + qty) variant grams current) cart)

-- `updateCartItem`
unfoldable pub update_cart_item :
    ℕ → ℕ → Option Text → Option ℕ → Map Product → Cart → Result CartError Cart
update_cart_item pid qty variant grams products cart =
    if pid == 0
    then err invalid_product_id
    else if qty == 0
    then ok (erase pid cart)
    else if not (check_stock pid qty products)
    then err insufficient_stock
    else ok (insert pid (merged_entry qty variant grams (current_entry pid cart)) cart)

-- `removeFromCart`
unfoldable pub remove_from_cart : ℕ → Cart → Result CartError Cart
remove_from_cart pid cart = if pid == 0 then err invalid_product_id else ok (erase pid cart)

abbrev pub has_quantity : ℕ × RawEntry → Bool
has_quantity (k, raw) = ltb 0 (normalize_cart_entry raw).quantity

-- `getCartCount`
unfoldable pub get_cart_count : Cart → ℕ
get_cart_count cart = length (filter has_quantity cart)

-- The quantity of a product in the cart, 0 for none.
abbrev pub quantity_in : ℕ → Cart → ℕ
quantity_in pid cart = (current_entry pid cart).quantity

add_parts :
    (pid qty : ℕ) (variant : Option Text) (grams : Option ℕ) (products : Map Product)
    (cart cart' : Cart)
    → add_to_cart pid qty variant grams products cart ≡ ok cart'
    → let current = current_entry pid cart in
      (cart' ≡ insert pid (merged_entry (current.quantity + qty) variant grams current) cart)
      × (1 ≤ qty)
      × (qty ≤ 10)
      × (check_stock pid qty products ≡ true)
unfolding add_to_cart
add_parts pid qty variant grams products cart cart' h = ground arith

in_stock :
    (pid qty : ℕ) (products : Map Product)
    → check_stock pid qty products ≡ true
    → (p : Product) × (lookup pid products ≡ some p) × (qty ≤ p.stock)
unfolding check_stock
in_stock pid qty products h = elim (Option-cases (lookup pid products)) [
  | inl gone ↦ absurd (ground arith)
  | inr (p, at) ↦ (p, at, ground arith)
]

-- An addition that succeeds adds its quantity to the product's in the cart and leaves every other
-- entry; the quantity added is between 1 and 10 and in stock, whatever is in the cart already.
pub add_to_cart_adds :
    (pid qty : ℕ) (variant : Option Text) (grams : Option ℕ) (products : Map Product)
    (cart cart' : Cart)
    → add_to_cart pid qty variant grams products cart ≡ ok cart'
    → (quantity_in pid cart' ≡ quantity_in pid cart + qty)
      × ((j : ℕ) → pid ≢ j → lookup j cart' ≡ lookup j cart)
      × ((1 ≤ qty) × (qty ≤ 10))
      × ((p : Product) × (lookup pid products ≡ some p) × (qty ≤ p.stock))
unfolding normalize_cart_entry
add_to_cart_adds pid qty variant grams products cart cart' h =
    let (result, low, high, stocked) = add_parts pid qty variant grams products cart cart' h in
    let current = current_entry pid cart in
    let raw = merged_entry (current.quantity + qty) variant grams current in
    (
      ap (quantity_in pid) result ∙ ground (arith, lookup-insert pid pid raw cart),
      λ j other. ap (lookup j) result ∙ ground (arith, lookup-insert pid j raw cart),
      (low, high),
      in_stock pid qty products stocked,
    )
