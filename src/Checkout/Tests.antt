-- ===== src/Checkout/Tests.antt =====
-- The cart and the checkout at concrete inputs.
use meatvo_app.Base.{
  Bool-cases, [], arith, codes, err, false, inl, inr, none, ok, refl, some, text_eq, to_upper, trim,
  true, ◌==◌, ◌∷◌, ◌≡◌,
}
use meatvo_app.Status.Names.{confirmed, payment_pending}
use meatvo_app.Store.{Order, PaymentStatus, ReconStatus, Store, cod, no_failure}
use meatvo_app.Samples.{chicken, order_in, unpaid, welcome}
use meatvo_app.Pricing.Product.{
  is_weight_based_product, ordered_weight_grams_for_line, resolve_unit_sale_price,
}
use meatvo_app.Pricing.Delivery.{checkout_charge}
use meatvo_app.Pricing.Coupon.{
  compute_discount_amount, find_coupon_by_code, has_user_already_used_coupon, use_coupon,
  validate_coupon, validate_coupon_for_order,
}
use meatvo_app.Checkout.Cart.{
  Cart, add_to_cart, check_stock, grams_from_variant_id, normalize_cart_entry, object,
}
use meatvo_app.Checkout.Request.{
  CheckoutRequest, CheckoutSettings, address, cart_mismatch, mismatch,
}
use meatvo_app.Checkout.Create.{check_cart, check_request, create_order, place, write_checkout}
use meatvo_app.Checkout.Limits.{AllWithinLimit, IsKeyed, create_order_keeps_limits}
use meatvo_app.Checkout.Placed.{IsPlaced, create_order_places}

abbrev chicken_cart : Cart
chicken_cart = (7, object (some 2) none (some (codes "curry_500"))) ∷ []

grams_of_variant : grams_from_variant_id (some (codes "curry_500")) ≡ some 500
unfolding grams_from_variant_id
grams_of_variant = refl

-- Two more of a product that the cart has two of.
two_more :
    add_to_cart 7 2 none none unpaid.products chicken_cart
    ≡ ok ((7, object (some 4) none (some (codes "curry_500"))) ∷ [])
unfolding add_to_cart check_stock normalize_cart_entry grams_from_variant_id
two_more = refl

abbrev in_cash : CheckoutRequest
in_cash = record {
  customer_id = 6;
  delivery_address = codes "12 Station Road";
  payment_method = codes "cod";
  address_arg = address (some 6);
  coupon_code = some (codes "new10");
  client_items = (7, 2) ∷ [];
}

abbrev settings : CheckoutSettings
settings = record {
  is_open = true;
  charges = record {
    operational_delivery_charge = none;
    row_delivery_fee = none;
    operational_free_delivery_above = none;
  };
}

-- Two packs at 200 rupees and 30 rupees for the delivery, less ten percent; the stock of 10 is 8 then,
-- and the coupon has one use more.
abbrev ordered_store : Store
ordered_store = record unpaid {
  orders =
      (1, order_in payment_pending PaymentStatus.pending)
      ∷ (
        2,
        record {
          customer_id = 6;
          status = confirmed;
          payment_mode = cod;
          payment_status = PaymentStatus.pending;
          recon_status = ReconStatus.pending;
          total_amount = 387000000;
          weight_refund = 0;
          coupon_id = some 4;
          coupon_released = false;
          items =
              record {
                id = 21;
                product_id = 7;
                quantity = 2;
                price = 20000;
                ordered_weight_g = some 1000;
                action = none;
                weighed = none;
              }
              ∷ [];
          assignment = none;
          failure = no_failure;
        },
      )
      ∷ [];
  products = (7, record chicken { stock = 8 }) ∷ [];
  coupons = (4, record welcome { used_count = 4 }) ∷ [];
}

order_in_cash : create_order 2 21 in_cash settings chicken_cart unpaid ≡ ok (ordered_store, [])
unfolding create_order place write_checkout check_request check_cart mismatch trim to_upper
    normalize_cart_entry grams_from_variant_id resolve_unit_sale_price is_weight_based_product
    ordered_weight_grams_for_line checkout_charge validate_coupon_for_order validate_coupon
    find_coupon_by_code has_user_already_used_coupon compute_discount_amount use_coupon
order_in_cash = refl

abbrev no_cart : Cart
no_cart = []

create_order_places_example :
    (no_cart ≡ []) × ((q : Order) × IsPlaced 2 in_cash settings.charges q unpaid ordered_store)
create_order_places_example =
    create_order_places 2 21 in_cash settings chicken_cart no_cart unpaid ordered_store
      order_in_cash

-- The client believes in three.
out_of_sync :
    create_order 2 21 (record in_cash { client_items = (7, 3) ∷ [] }) settings chicken_cart unpaid
    ≡ err (cart_mismatch 7)
unfolding create_order check_request check_cart mismatch trim to_upper normalize_cart_entry
out_of_sync = refl

unpaid-IsKeyed : IsKeyed unpaid
unfolding find_coupon_by_code
unpaid-IsKeyed code c h = elim (Bool-cases (text_eq welcome.code (to_upper (trim code)))) [
  | inl same ↦ ground arith
  | inr differ ↦ absurd (ground arith)
]

unpaid-AllWithinLimit : AllWithinLimit unpaid
unpaid-AllWithinLimit k c there n limit = elim (Bool-cases (4 == k)) [
  | inl same ↦ ground arith
  | inr differ ↦ absurd (ground arith)
]

create_order_keeps_limits_example : AllWithinLimit ordered_store
create_order_keeps_limits_example =
    create_order_keeps_limits 2 21 in_cash settings chicken_cart no_cart unpaid ordered_store
      unpaid-IsKeyed unpaid-AllWithinLimit order_in_cash
