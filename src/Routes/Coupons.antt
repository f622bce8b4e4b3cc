-- ===== src/Routes/Coupons.antt =====
use meatvo_app.Base.{Text, ap, arith, inl, inr, some, ℕ, ◌+◌, ◌-◌, ◌↔◌, ◌∙◌, ◌≡◌}
use meatvo_app.Store.{Coupon, Store}
use meatvo_app.Pricing.Coupon.{
  Validation, Validation-cases, compute_discount_amount, find_coupon_by_code, invalid, units, valid,
  validate_coupon_for_order,
}
use meatvo_app.Pricing.Redemption.{
  IsUsable, compute_discount_amount_bounds, validate_coupon_for_order_iff,
}
use meatvo_app.Routes.Orders.{CouponAnswer, apply_coupon, coupon_applied, coupon_refused}

-- What `applyCoupon` of backend/src/modules/orders/orders.controller.js answers.

abbrev valid_of : CouponAnswer → Validation
valid_of (coupon_applied c d final) = valid c d
valid_of (coupon_refused r) = invalid r

answers-valid :
    (c c' : Coupon) (d d' f f' : ℕ)
    → coupon_applied c d f ≡ coupon_applied c' d' f'
    → valid c d ≡ valid c' d'
answers-valid c c' d d' f f' h = ap valid_of h

-- A coupon is applied exactly when its code is found and it is usable, and the discount and the final
-- total that are shown add up to the amount.
pub apply_coupon_iff :
    (code : Text) (total u d final : ℕ) (s : Store) (c : Coupon)
    → (apply_coupon code total u s ≡ coupon_applied c d final) ↔ (
        (find_coupon_by_code code s ≡ some c)
        × IsUsable c total u s
        × (d ≡ compute_discount_amount c total)
        × (d + final ≡ units total))
unfolding apply_coupon
apply_coupon_iff code total u d final s c = (
  λ h. elim (Validation-cases (validate_coupon_for_order code total u s)) [
    | inl (r, e) ↦ ground (arith, e)
    | inr (c', d', e) ↦
        let hit : valid c' d' ≡ valid c d =
          answers-valid c' c d' d (units total - d') final (ground (arith, e)) in
        let (found, usable, size) =
          (validate_coupon_for_order_iff code total u d c s).0 (e ∙ hit) in
        let bounds = (compute_discount_amount_bounds c total).0 in
        let rest : units total - d ≡ final = ground (arith, e) in
        (found, usable, size, omega (arith, bounds, rest, size))
  ],
  λ (found, usable, size, sum).
      let accepted = (validate_coupon_for_order_iff code total u d c s).1 (found, usable, size) in
      let rest : units total - d ≡ final = omega arith in
      rw (accepted, apply_coupon) (ap (coupon_applied c d) rest),
)
