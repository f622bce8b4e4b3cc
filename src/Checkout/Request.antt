-- ===== src/Checkout/Request.antt =====
-- The request of `createOrder` of backend/src/modules/orders/orders.controller.js, and its comparison
-- with the cart.
use meatvo_app.Base.{
  Bool, List, Map, Option, Text, [], false, if◌then◌else◌, insert, lookup, none, some, true, ℕ,
  ◌++◌, ◌==◌, ◌||◌, ◌∷◌,
}
use meatvo_app.Pricing.Delivery.{StoredSettings}
use meatvo_app.Checkout.Cart.{Cart, grams_from_variant_id, normalize_cart_entry, or_option, truthy}

-- `addressId`: absent, no positive number, or an address with its owner, if it is a row.
pub data AddressArg : Type 0 where
  no_address bad_address : AddressArg
  address : Option ℕ → AddressArg

-- The request; `client_items` are the products and quantities that the client believes to be in the
-- cart.
pub record CheckoutRequest : Type 0 where
  pub customer_id : ℕ
  pub delivery_address : Text
  pub payment_method : Text
  pub address_arg : AddressArg
  pub coupon_code : Option Text
  pub client_items : List (ℕ × ℕ)

-- The store's settings that the handler reads.
pub record CheckoutSettings : Type 0 where
  pub is_open : Bool
  pub charges : StoredSettings

pub data CheckoutError : Type 0 where
  address_too_short store_closed bad_payment_method invalid_address_id address_not_own :
      CheckoutError
  cart_mismatch : ℕ → CheckoutError
  cart_empty product_not_found product_inactive : CheckoutError
  insufficient_stock : ℕ → CheckoutError

-- A line of the cart that is ordered.
pub record Line : Type 0 where
  pub product_id : ℕ
  pub quantity : ℕ
  pub weight_grams : Option ℕ

-- The lines of the cart with a product id and a quantity.
abbrev pub cart_lines : Cart → List Line
cart_lines [] = []
cart_lines ((pid, raw) ∷ cart) =
    let rest = cart_lines cart in
    let entry = normalize_cart_entry raw in
    let grams = or_option (truthy entry.weight_grams) (grams_from_variant_id entry.variant_id) in
    if pid == 0 || entry.quantity == 0
    then rest
    else record { product_id = pid; quantity = entry.quantity; weight_grams = grams } ∷ rest

abbrev pub valid_items : List (ℕ × ℕ) → Map ℕ
valid_items [] = []
valid_items ((pid, qty) ∷ items) =
    let rest = valid_items items in if pid == 0 || qty == 0 then rest else (pid, qty) ∷ rest

abbrev pub quantities : List Line → Map ℕ
quantities [] = []
quantities (l ∷ ls) = (l.product_id, l.quantity) ∷ quantities ls

abbrev pub set_all : Map ℕ → Map ℕ → Map ℕ
set_all [] m = m
set_all ((k, n) ∷ rest) m = set_all rest (insert k n m)

abbrev pub same_quantity : Option ℕ → Option ℕ → Bool
same_quantity none none = true
same_quantity (some a) (some b) = a == b
same_quantity _ _ = false

abbrev pub first_mismatch : List (ℕ × ℕ) → Map ℕ → Map ℕ → Option ℕ
first_mismatch [] server client = none
first_mismatch ((k, n) ∷ keys) server client =
    let rest = first_mismatch keys server client in
    if same_quantity (lookup k server) (lookup k client) then rest else some k

-- The comparison of the cart with the client's items; it is left out where either has none.
unfoldable pub mismatch : List Line → List (ℕ × ℕ) → Option ℕ
mismatch lines items =
    let server = quantities lines in
    let client = set_all (valid_items items) [] in
    elim items [
      | [] ↦ none
      | _ ∷ _ ↦ elim lines [ [] ↦ none | _ ∷ _ ↦ first_mismatch (server ++ client) server client ]
    ]
