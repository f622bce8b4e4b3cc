-- ===== src/Pricing/Coupon.antt =====
-- backend/src/modules/coupons/coupons.service.js and `releaseCouponForOrder` of
-- backend/src/utils/couponRelease.util.js. Order amounts are whole paise, discounts are in units.
use Prim.Native.Nat.{min}
use meatvo_app.Base.{
  Bool, Map, Option, Text, [], any, false, if◌then◌else◌, inl, inr, leb, lookup, ltb, none, not,
  refl, some, text_eq, to_upper, trim, true, update, ℕ, ◌&&◌, ◌*◌, ◌+◌, ◌-◌, ◌==◌, ◌∷◌, ◌≡◌, ◌⊎◌,
}
use meatvo_app.Store.{Coupon, Order, Store, flat, percent}

abbrev pub units : ℕ → ℕ
units paise = paise * 10000

-- `computeDiscountAmount`
unfoldable pub compute_discount_amount : Coupon → ℕ → ℕ
compute_discount_amount coupon order_amount = elim coupon.discount_type [
  | flat ↦ min (units order_amount) (units coupon.discount_value)
  | percent ↦ min (units order_amount) (order_amount * coupon.discount_value)
]

abbrev find_code : Text → Map Coupon → Option Coupon
find_code code [] = none
find_code code ((i, c) ∷ m) =
    let rest = find_code code m in if text_eq c.code code then some c else rest

-- `findCouponByCode`
unfoldable pub find_coupon_by_code : Text → Store → Option Coupon
find_coupon_by_code code s =
    let normalized = to_upper (trim code) in
    if text_eq normalized [] then none else find_code normalized s.coupons

same_coupon : Option ℕ → ℕ → Bool
same_coupon none id = false
same_coupon (some c) id = c == id

-- One row of the query of `hasUserAlreadyUsedCoupon`.
uses_coupon : ℕ → ℕ → ℕ × Order → Bool
unfolding same_coupon
uses_coupon user_id coupon_id (i, o) =
    o.customer_id == user_id && same_coupon o.coupon_id coupon_id && not o.coupon_released

-- `hasUserAlreadyUsedCoupon`; a user id that is missing or no number is 0.
unfoldable pub has_user_already_used_coupon : ℕ → ℕ → Store → Bool
unfolding uses_coupon
has_user_already_used_coupon coupon_id user_id s =
    if user_id == 0 then false else any (uses_coupon user_id coupon_id) s.orders

pub data Reason : Type 0 where
  coupon_not_found coupon_expired coupon_limit_reached already_used : Reason
  minimum_order : ℕ → Reason

pub data Validation : Type 0 where
  valid : Coupon → ℕ → Validation
  invalid : Reason → Validation

pub Validation-cases :
    (v : Validation) → ((r : Reason) × (v ≡ invalid r)) ⊎ ((c : Coupon) × (d : ℕ) × (v ≡ valid c d))
Validation-cases (valid c d) = inr (c, d, refl)
Validation-cases (invalid r) = inl (r, refl)

limit_reached : Coupon → Bool
limit_reached c = elim c.max_uses [ none ↦ false | some n ↦ leb n c.used_count ]

-- `validateCouponForOrder` behind the lookup.
unfoldable pub validate_coupon : Coupon → ℕ → ℕ → Store → Validation
unfolding limit_reached
validate_coupon coupon order_amount user_id s =
    if not coupon.active
    then invalid coupon_expired
    else if ltb order_amount coupon.min_order_value
    then invalid (minimum_order coupon.min_order_value)
    else if limit_reached coupon
    then invalid coupon_limit_reached
    else if has_user_already_used_coupon coupon.id user_id s
    then invalid already_used
    else valid coupon (compute_discount_amount coupon order_amount)

-- `validateCouponForOrder`
unfoldable pub validate_coupon_for_order : Text → ℕ → ℕ → Store → Validation
unfolding validate_coupon
validate_coupon_for_order code order_amount user_id s = elim (find_coupon_by_code code s) [
  | none ↦ invalid coupon_not_found
  | some coupon ↦ validate_coupon coupon order_amount user_id s
]

-- `UPDATE coupons SET used_count = used_count + 1`
unfoldable pub use_coupon : ℕ → Map Coupon → Map Coupon
use_coupon id = update id (λ c. record c { used_count = c.used_count + 1 })

-- `UPDATE coupons SET used_count = used_count - 1 ... AND used_count > 0`
unfoldable pub unuse_coupon : ℕ → Map Coupon → Map Coupon
unuse_coupon id = update id (λ c. record c { used_count = c.used_count - 1 })

-- `releaseCouponForOrder`, with what it says: whether it released one.
unfoldable pub release_coupon_for_order : ℕ → Store → Store × Bool
unfolding unuse_coupon
release_coupon_for_order order_id s = elim (lookup order_id s.orders) [
  | none ↦ (s, false)
  | some o ↦ elim o.coupon_id [
    | none ↦ (s, false)
    | some c ↦ if o.coupon_released then (s, false) else (
      record s {
        coupons = unuse_coupon c s.coupons;
        orders = update order_id (λ r. record r { coupon_released = true }) s.orders;
      },
      true,
    )
  ]
]
