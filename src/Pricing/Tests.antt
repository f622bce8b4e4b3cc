-- ===== src/Pricing/Tests.antt =====
-- Prices, charges and coupons at concrete inputs.
use meatvo_app.Base.{[], codes, none, refl, some, to_upper, trim, ◌∷◌, ◌≡◌}
use meatvo_app.Samples.{chicken, unpaid, welcome}
use meatvo_app.Pricing.Product.{resolve_unit_sale_price}
use meatvo_app.Pricing.Delivery.{StoredSettings, num}
use meatvo_app.Pricing.Coupon.{
  already_used, compute_discount_amount, find_coupon_by_code, has_user_already_used_coupon, invalid,
  release_coupon_for_order, valid, validate_coupon, validate_coupon_for_order,
}

-- 500 g at 400 rupees per kg are 200 rupees.
half_kilo : resolve_unit_sale_price chicken none ≡ 20000
unfolding resolve_unit_sale_price
half_kilo = refl

abbrev stored : StoredSettings
stored = record {
  operational_delivery_charge = none;
  row_delivery_fee = some (num 4000);
  operational_free_delivery_above = some (num 30000);
}

-- Another user's order does not stand in the way.
accepted_code : validate_coupon_for_order (codes " new10 ") 43000 6 unpaid ≡ valid welcome 43000000
unfolding validate_coupon_for_order validate_coupon find_coupon_by_code has_user_already_used_coupon
    compute_discount_amount trim to_upper
accepted_code = refl

-- The user of the order has used it.
refused_code : validate_coupon_for_order (codes "NEW10") 43000 5 unpaid ≡ invalid already_used
unfolding validate_coupon_for_order validate_coupon find_coupon_by_code has_user_already_used_coupon
    trim to_upper
refused_code = refl

-- The first release counts the use back.
released_use :
    (release_coupon_for_order 1 unpaid).0.coupons ≡ (4, record welcome { used_count = 2 }) ∷ []
unfolding release_coupon_for_order
released_use = refl
