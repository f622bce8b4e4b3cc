-- ===== src/Pricing/Redemption.antt =====
-- What backend/src/modules/coupons/coupons.service.js promises of a coupon: the size of a discount, when
-- a code is accepted, the limit on its uses, and the release of a use.
use Prim.Native.Nat.{min}
use meatvo_app.Base.{
  Bool-cases, Option, Option-cases, Text, ap, arith, false, inl, inr, lookup, lookup-update, none,
  some, sym, true, update, ℕ, ◌*◌, ◌<◌, ◌↔◌, ◌≡◌, ◌≤◌, ◌⊎◌,
}
use meatvo_app.Store.{Coupon, Store, flat, percent}
use meatvo_app.Pricing.Coupon.{
  compute_discount_amount, coupon_not_found, find_coupon_by_code, has_user_already_used_coupon,
  invalid, release_coupon_for_order, units, valid, validate_coupon, validate_coupon_for_order,
}

percent_case : (a v : ℕ) → v ≤ 10000 → min (a * 10000) (a * v) ≡ a * v
percent_case a v h = let le : a * v ≤ a * 10000 = grind arith in omega arith

flat_case : (a v : ℕ) → v ≤ a → min (a * 10000) (v * 10000) ≡ v * 10000
flat_case a v h = omega arith

-- A discount is at most the order amount; it is the coupon's value for a flat coupon that the order
-- amount covers, and the coupon's percentage of the amount for a percentage up to 100.
pub compute_discount_amount_bounds :
    (c : Coupon) (a : ℕ)
    → (compute_discount_amount c a ≤ units a)
      × (c.discount_type ≡ flat
          → c.discount_value ≤ a
          → compute_discount_amount c a ≡ units c.discount_value)
      × (c.discount_type ≡ percent
          → c.discount_value ≤ 10000
          → compute_discount_amount c a ≡ a * c.discount_value)
unfolding compute_discount_amount
compute_discount_amount_bounds c a =
    ground (arith, percent_case a c.discount_value, flat_case a c.discount_value)

-- The conditions of a coupon's use, beside the lookup of its code.
pub record IsUsable (c : Coupon) (order_amount user_id : ℕ) (s : Store) : Type 0 where
  pub is_active : c.active ≡ true
  pub minimum_met : c.min_order_value ≤ order_amount
  pub below_limit : (n : ℕ) → c.max_uses ≡ some n → c.used_count < n
  pub first_use : has_user_already_used_coupon c.id user_id s ≡ false

validate_coupon_sound :
    (c c' : Coupon) (a u d : ℕ) (s : Store)
    → validate_coupon c a u s ≡ valid c' d
    → (c' ≡ c) × IsUsable c a u s × (d ≡ compute_discount_amount c a)
unfolding validate_coupon
validate_coupon_sound c c' a u d s h = (
  ground arith,
  record {
    is_active = ground arith;
    minimum_met = ground arith;
    below_limit = λ n e. ground arith;
    first_use = ground arith;
  },
  ground arith,
)

validate_coupon_complete :
    (c : Coupon) (a u : ℕ) (s : Store)
    → IsUsable c a u s
    → validate_coupon c a u s ≡ valid c (compute_discount_amount c a)
unfolding validate_coupon
validate_coupon_complete c a u s h = elim (Option-cases c.max_uses) [
  | inl unlimited ↦ ground arith
  | inr (n, e) ↦ ground (arith, h.below_limit n e)
]

accepted :
    (o : Option Coupon) (a u d : ℕ) (c : Coupon) (s : Store)
    → (elim o [ none ↦ invalid coupon_not_found | some k ↦ validate_coupon k a u s ]) ≡ valid c d
    → (o ≡ some c) × IsUsable c a u s × (d ≡ compute_discount_amount c a)
accepted none a u d c s h = cc
accepted (some k) a u d c s h =
    let (e, usable, amount) = validate_coupon_sound k c a u d s h in
    (ap some (sym e), rw e usable, rw e amount)

-- A code is accepted with a coupon and a discount exactly when the code is that coupon's, the coupon
-- is active, the amount reaches its minimum, its uses are below its limit (if it has one), the user
-- has no order with it that has not released it, and the discount is the computed one.
pub validate_coupon_for_order_iff :
    (code : Text) (a u d : ℕ) (c : Coupon) (s : Store)
    → (validate_coupon_for_order code a u s ≡ valid c d) ↔ (
        (find_coupon_by_code code s ≡ some c)
        × IsUsable c a u s
        × (d ≡ compute_discount_amount c a))
unfolding validate_coupon_for_order
validate_coupon_for_order_iff code a u d c s = (
  accepted (find_coupon_by_code code s) a u d c s,
  λ (found, usable, amount).
      rw (found, amount, validate_coupon_for_order) (validate_coupon_complete c a u s usable),
)

-- The coupon has been used at most as often as its limit allows, if it has one.
abbrev pub IsWithinLimit : Coupon → Type 0
IsWithinLimit c = (n : ℕ) → c.max_uses ≡ some n → c.used_count ≤ n

-- Releasing the coupon of an order a second time changes nothing and reports that nothing was released.
pub release_coupon_for_order_idem :
    (i : ℕ) (s : Store)
    → release_coupon_for_order i (release_coupon_for_order i s).0
      ≡ ((release_coupon_for_order i s).0, false)
unfolding release_coupon_for_order
release_coupon_for_order_idem i s =
    ground (arith, lookup-update i i (λ r. record r { coupon_released = true }) s.orders)

-- What a release does to the table of orders.
pub release-orders :
    (i : ℕ) (s : Store)
    → ((release_coupon_for_order i s).0.orders ≡ s.orders)
      ⊎ ((release_coupon_for_order i s).0.orders
          ≡ update i (λ r. record r { coupon_released = true }) s.orders)
unfolding release_coupon_for_order
release-orders i s = elim (Option-cases (lookup i s.orders)) [
  | inl gone ↦ inl (ground arith)
  | inr (o, at) ↦ elim (Option-cases o.coupon_id) [
    | inl without ↦ inl (ground arith)
    | inr (c, e) ↦ elim (Bool-cases o.coupon_released) [
      | inl released ↦ inl (ground arith)
      | inr held ↦ inr (ground arith)
    ]
  ]
]

-- A release leaves the products as they are.
pub release-products : (i : ℕ) (s : Store) → (release_coupon_for_order i s).0.products ≡ s.products
unfolding release_coupon_for_order
release-products i s = ground arith
