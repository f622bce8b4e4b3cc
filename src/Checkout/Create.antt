-- ===== src/Checkout/Create.antt =====
use meatvo_app.Base.{
  Bool, List, Map, Option, Text, [], codes, err, false, if◌then◌else◌, insert, length, lookup, ltb,
  none, not, ok, some, suc, text_eq, to_upper, trim, true, ℕ, ◌*◌, ◌+◌, ◌-◌, ◌/◌, ◌==◌, ◌>>=◌, ◌||◌,
  ◌∷◌,
}
-- `createOrder` of backend/src/modules/orders/orders.controller.js: the guards, and the transaction
-- that writes the order. The ids that the database gives are parameters; the address is reduced to
-- what the guards ask of it, the columns that the INSERT does not name have their defaults, and the
-- notifications behind the response are left out.
use meatvo_app.Base.Result.{Result}
use meatvo_app.Status.Names.{confirmed, payment_pending}
use meatvo_app.Store.{
  Coupon, Order, OrderItem, PaymentStatus, ReconStatus, Store, cod, no_failure, online,
}
use meatvo_app.Pricing.Product.{
  Product, is_weight_based_product, ordered_weight_grams_for_line, resolve_unit_sale_price,
}
use meatvo_app.Pricing.Delivery.{StoredSettings, checkout_charge}
use meatvo_app.Pricing.Coupon.{invalid, units, use_coupon, valid, validate_coupon_for_order}
use meatvo_app.Payment.Stock.{deduct_rows, stock_rows}
use meatvo_app.Checkout.Cart.{Cart, non_empty}
use meatvo_app.Checkout.Request.{
  AddressArg, CheckoutError, CheckoutRequest, CheckoutSettings, Line, address, address_not_own,
  address_too_short, bad_address, bad_payment_method, cart_empty, cart_lines, cart_mismatch,
  insufficient_stock, invalid_address_id, mismatch, no_address, product_inactive, product_not_found,
  store_closed,
}

abbrev pub unit_price : Line → Product → ℕ
unit_price l p = resolve_unit_sale_price p l.weight_grams

-- The loop over the items: the subtotal, or the exception. A missing product has been found before.
abbrev pub check_lines : List Line → Map Product → Result CheckoutError ℕ
check_lines [] products = ok 0
check_lines (l ∷ ls) products =
    let rest = check_lines ls products in
    elim (lookup l.product_id products) [
      | none ↦ err product_inactive
      | some p ↦
          if not p.active
          then err product_inactive
          else if ltb p.stock l.quantity
          then err (insufficient_stock l.product_id)
          else (rest >>= λ subtotal. ok (unit_price l p * l.quantity + subtotal))
    ]

abbrev pub all_found : List Line → Map Product → Bool
all_found [] products = true
all_found (l ∷ ls) products =
    let rest = all_found ls products in
    elim (lookup l.product_id products) [ none ↦ false | some p ↦ rest ]

-- The row of `order_items` for a line: the products are read without their unit.
abbrev pub item_of : ℕ → Line → Product → OrderItem
item_of id l p = record {
  id = id;
  product_id = l.product_id;
  quantity = l.quantity;
  price = unit_price l p;
  ordered_weight_g =
      if is_weight_based_product (record p { unit = none })
      then some (ordered_weight_grams_for_line p l.quantity)
      else none;
  action = none;
  weighed = none;
}

abbrev pub order_items : ℕ → List Line → Map Product → List OrderItem
order_items id [] products = []
order_items id (l ∷ ls) products =
    let rest = order_items (suc id) ls products in
    elim (lookup l.product_id products) [ none ↦ rest | some p ↦ item_of id l p ∷ rest ]

-- The coupon of an order and its discount, in units; an invalid code is ignored.
abbrev pub coupon_of : Option Text → ℕ → ℕ → Store → Option ℕ × ℕ
coupon_of code amount customer s = elim (non_empty code) [
  | none ↦ (none, 0)
  | some c ↦ elim (validate_coupon_for_order c amount customer s) [
    | valid coupon discount ↦ (some coupon.id, discount)
    | invalid r ↦ (none, 0)
  ]
]

abbrev pub count_use : Option ℕ → Map Coupon → Map Coupon
count_use none coupons = coupons
count_use (some id) coupons = use_coupon id coupons

abbrev pub is_cod : Text → Bool
is_cod method = text_eq (to_upper method) (codes "COD")

-- `orders.total_amount` is NUMERIC(10,2): the INSERT rounds an amount in units to whole paise, a half up.
abbrev pub stored_amount : ℕ → ℕ
stored_amount n = units ((n + 5000) / 10000)

-- The transaction behind the checks, for a subtotal and the order's items.
unfoldable pub write_checkout :
    ℕ → CheckoutRequest → StoredSettings → ℕ → List OrderItem → Store → Store
write_checkout order_id r charges subtotal items s =
    let cash = is_cod r.payment_method in
    let amount = subtotal + checkout_charge subtotal charges in
    let (coupon, discount) = coupon_of r.coupon_code amount r.customer_id s in
    let order : Order = record {
      customer_id = r.customer_id;
      status = if cash then confirmed else payment_pending;
      payment_mode = if cash then cod else online;
      payment_status = PaymentStatus.pending;
      recon_status = ReconStatus.pending;
      total_amount = stored_amount (units amount - discount);
      weight_refund = 0;
      coupon_id = coupon;
      coupon_released = false;
      items = items;
      assignment = none;
      failure = no_failure;
    } in
    record s {
      orders = insert order_id order s.orders;
      products = if cash then deduct_rows (stock_rows items s.products) s.products else s.products;
      coupons = count_use coupon s.coupons;
    }

abbrev pub check_address : AddressArg → ℕ → Result CheckoutError (Unit {0})
check_address no_address customer = ok tt
check_address bad_address customer = err invalid_address_id
check_address (address none) customer = err address_not_own
check_address (address (some owner)) customer =
    if owner == customer then ok tt else err address_not_own

-- The guards on the request, in the order of the code.
unfoldable pub check_request : CheckoutRequest → CheckoutSettings → Result CheckoutError (Unit {0})
check_request r settings =
    if ltb (length (trim r.delivery_address)) 10
    then err address_too_short
    else if not settings.is_open
    then err store_closed
    else if not (is_cod r.payment_method || text_eq (to_upper r.payment_method) (codes "ONLINE"))
    then err bad_payment_method
    else check_address r.address_arg r.customer_id

-- The guards on the cart, with the lines that it orders.
unfoldable pub check_cart : CheckoutRequest → Cart → Result CheckoutError (List Line)
check_cart r cart =
    let lines = cart_lines cart in
    elim (mismatch lines r.client_items) [
      | some k ↦ err (cart_mismatch k)
      | none ↦ if length lines == 0 then err cart_empty else ok lines
    ]

-- The transaction.
unfoldable pub place :
    ℕ → ℕ → CheckoutRequest → StoredSettings → List Line → Store → Result CheckoutError Store
place order_id item_id r charges lines s =
    if not (all_found lines s.products)
    then err product_not_found
    else (check_lines lines s.products >>= λ subtotal.
        ok (write_checkout order_id r charges subtotal (order_items item_id lines s.products) s))

-- `createOrder`, with the cart that it leaves; where it fails nothing has changed.
unfoldable pub create_order :
    ℕ → ℕ → CheckoutRequest → CheckoutSettings → Cart → Store → Result CheckoutError (Store × Cart)
create_order order_id item_id r settings cart s = check_request r settings >>= λ _.
    check_cart r cart >>= λ lines.
    place order_id item_id r settings.charges lines s >>= λ s'. ok (s', [])
