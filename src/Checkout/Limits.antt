-- ===== src/Checkout/Limits.antt =====
-- The uses of a coupon and its limit at checkout (`createOrder` of
-- backend/src/modules/orders/orders.controller.js with backend/src/modules/coupons/coupons.service.js).

use meatvo_app.Base.{
  ==_iff, Bool-cases, List, Option, Option-cases, Text, ap, arith, inl, inr, lookup, lookup-update,
  none, ok, refl, some, subst, sym, ℕ, ◌+◌, ◌==◌, ◌∙◌, ◌≡◌, ◌⊎◌,
}
use meatvo_app.Store.{Coupon, OrderItem, Store}
use meatvo_app.Pricing.Coupon.{
  Validation-cases, find_coupon_by_code, use_coupon, validate_coupon_for_order,
}
use meatvo_app.Pricing.Delivery.{StoredSettings}
use meatvo_app.Pricing.Redemption.{IsUsable, IsWithinLimit, validate_coupon_for_order_iff}
use meatvo_app.Checkout.Cart.{Cart, non_empty}
use meatvo_app.Checkout.Request.{CheckoutRequest, CheckoutSettings}
use meatvo_app.Checkout.Create.{count_use, coupon_of, create_order, order_items, write_checkout}
use meatvo_app.Checkout.Placed.{amount_of, create_parts}

-- A coupon found by its code is the row of its id.
abbrev pub IsKeyed : Store → Type 0
IsKeyed s =
    (code : Text) (c : Coupon)
    → find_coupon_by_code code s ≡ some c
    → lookup c.id s.coupons ≡ some c

-- Every coupon of the table.
abbrev pub AllWithinLimit : Store → Type 0
AllWithinLimit s = (k : ℕ) (c : Coupon) → lookup k s.coupons ≡ some c → IsWithinLimit c

-- The coupon of an order is none, or one that the user may use.
coupon_of-cases :
    (code : Option Text) (a u : ℕ) (s : Store)
    → IsKeyed s
    → ((coupon_of code a u s).0 ≡ none)
      ⊎ ((c : Coupon) × ((coupon_of code a u s).0 ≡ some c.id)
          × (lookup c.id s.coupons ≡ some c)
          × IsUsable c a u s)
coupon_of-cases code a u s keyed = elim (Option-cases (non_empty code)) [
  | inl absent ↦ inl (ground arith)
  | inr (t, given) ↦ elim (Validation-cases (validate_coupon_for_order t a u s)) [
    | inl (r, refused) ↦ inl (ground arith)
    | inr (c, d, accepted) ↦
        let (found, usable, _) = (validate_coupon_for_order_iff t a u d c s).0 accepted in
        inr (c, ground arith, keyed t c found, usable)
  ]
]

counted-IsWithinLimit :
    (c : Coupon) (a u : ℕ) (s : Store)
    → IsUsable c a u s
    → IsWithinLimit (record c { used_count = c.used_count + 1 })
counted-IsWithinLimit c a u s usable n limit = omega (arith, usable.below_limit n limit)

coupons-write_checkout :
    (i : ℕ) (r : CheckoutRequest) (charges : StoredSettings) (subtotal : ℕ) (items : List OrderItem)
    (s : Store)
    → (write_checkout i r charges subtotal items s).coupons
      ≡ count_use (coupon_of r.coupon_code (amount_of subtotal charges) r.customer_id s).0 s.coupons
unfolding write_checkout
coupons-write_checkout i r charges subtotal items s = refl

count_use-IsWithinLimit :
    (used : Option ℕ) (a u : ℕ) (s : Store) (k : ℕ) (d : Coupon)
    → (used ≡ none)
      ⊎ ((c : Coupon) × (used ≡ some c.id) × (lookup c.id s.coupons ≡ some c) × IsUsable c a u s)
    → AllWithinLimit s
    → lookup k (count_use used s.coupons) ≡ some d
    → IsWithinLimit d
unfolding use_coupon
count_use-IsWithinLimit none a u s k d cases all there = all k d there
count_use-IsWithinLimit (some id) a u s k d (inl absent) all there = absurd (ground arith)
count_use-IsWithinLimit (some id) a u s k d (inr (c, is_id, row, usable)) all there =
    let counted = lookup-update id k (λ c. record c { used_count = c.used_count + 1 }) s.coupons in
    elim (Bool-cases (id == k)) [
      | inr differ ↦ all k d (ground arith)
      | inl same ↦
          let here : id ≡ k = (==_iff id k).0 same in
          let before : lookup k s.coupons ≡ some c =
            ap (λ j. lookup j s.coupons) (ground arith) ∙ row in
          let e : d ≡ record c { used_count = c.used_count + 1 } = ground arith in
          subst IsWithinLimit (sym e) (counted-IsWithinLimit c a u s usable)
    ]

-- Where coupons are found under their ids, a checkout keeps every coupon within its limit: if no
-- coupon has been used more often than its limit allows before it, none has after it.
pub create_order_keeps_limits :
    (i k : ℕ) (r : CheckoutRequest) (settings : CheckoutSettings) (cart cart' : Cart) (s s' : Store)
    → IsKeyed s
    → AllWithinLimit s
    → create_order i k r settings cart s ≡ ok (s', cart')
    → AllWithinLimit s'
create_order_keeps_limits i k r settings cart cart' s s' keyed all h j d there =
    let (lines, subtotal, _, _, left, _) = create_parts i k r settings cart cart' s s' h in
    let items = order_items k lines s.products in
    let amount = amount_of subtotal settings.charges in
    let coupons =
      ap (λ s. s.coupons) left ∙ coupons-write_checkout i r settings.charges subtotal items s in
    count_use-IsWithinLimit (coupon_of r.coupon_code amount r.customer_id s).0 amount r.customer_id
      s j d (coupon_of-cases r.coupon_code amount r.customer_id s keyed) all
      (ap (lookup j) (sym coupons) ∙ there)
