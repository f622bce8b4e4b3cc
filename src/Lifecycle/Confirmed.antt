-- ===== src/Lifecycle/Confirmed.antt =====
use meatvo_app.Base.{
  Bool-cases, Option-cases, Result-cases, ap, arith, inl, inr, lookup, ok, refl, some, sym, true,
  update, ℕ, ◌∙◌, ◌≡◌, ◌⊎◌,
}
use meatvo_app.Store.{Order, Payment, Store, TransactionStatus}
use meatvo_app.Payment.Success.{
  Outcome, apply_payment_success, confirm_order_after_payment, confirm_row, is_unconfirmed,
}
use meatvo_app.Payment.Settled.{confirm_parts, paid_store}
use meatvo_app.Pricing.Coupon.{release_coupon_for_order}
use meatvo_app.Pricing.Redemption.{release-orders}
use meatvo_app.Lifecycle.Paid.{AllPaid, confirm_row-IsPaid, update-AllPaid}

-- A payment of backend/src/modules/payments/payment-success.js and the release of a coupon keep every
-- online order past confirmation settled.

pay_case :
    (st : TransactionStatus) (i : ℕ) (s s' : Store) (o : Outcome) (p : Payment) (q : Order)
    → lookup i s.payments ≡ some p
    → lookup p.order_id s.orders ≡ some q
    → p.status ≡ st
    → apply_payment_success i s ≡ ok (s', o)
    → (s'.orders ≡ s.orders) ⊎ (s'.orders ≡ update p.order_id confirm_row s.orders)
unfolding apply_payment_success
pay_case TransactionStatus.success i s s' o p q at there e h =
    elim (Bool-cases (is_unconfirmed q.status)) [
      | inr closed ↦ inl (ground arith)
      | inl unconfirmed ↦ elim (Result-cases (confirm_order_after_payment p.order_id s)) [
        | inr (x, threw) ↦ absurd (ground arith)
        | inl ((u, b), done) ↦ let parts = confirm_parts p.order_id s u b done in inr (ground arith)
      ]
    ]
pay_case (TransactionStatus.other t) i s s' o p q at there e h = inl (ground arith)
pay_case st i s s' o p q at there e h =
    elim (Result-cases (confirm_order_after_payment p.order_id (paid_store i s))) [
      | inr (x, threw) ↦ absurd (ground arith)
      | inl ((u, b), done) ↦
          let parts = confirm_parts p.order_id (paid_store i s) u b done in inr (ground arith)
    ]

pay-orders :
    (i : ℕ) (s s' : Store) (o : Outcome)
    → apply_payment_success i s ≡ ok (s', o)
    → (s'.orders ≡ s.orders) ⊎ ((k : ℕ) × (s'.orders ≡ update k confirm_row s.orders))
unfolding apply_payment_success
pay-orders i s s' o h = elim (Option-cases (lookup i s.payments)) [
  | inl no_payment ↦ inl (ground arith)
  | inr (p, at) ↦ elim (Option-cases (lookup p.order_id s.orders)) [
    | inl no_order ↦ inl (ground arith)
    | inr (q, there) ↦ elim (pay_case p.status i s s' o p q at there refl h) [
      | inl same ↦ inl same
      | inr rows ↦ inr (p.order_id, rows)
    ]
  ]
]

pub orders-AllPaid : (s s' : Store) → s'.orders ≡ s.orders → AllPaid s → AllPaid s'
orders-AllPaid s s' same all j o there = all j o (sym (ap (lookup j) same) ∙ there)

pub pay-AllPaid :
    (i : ℕ) (s s' : Store) (o : Outcome)
    → apply_payment_success i s ≡ ok (s', o)
    → AllPaid s
    → AllPaid s'
pay-AllPaid i s s' o h all = elim (pay-orders i s s' o h) [
  | inl same ↦ orders-AllPaid s s' same all
  | inr (k, rows) ↦ update-AllPaid k confirm_row s s' confirm_row-IsPaid rows all
]

pub release-AllPaid : (i : ℕ) (s : Store) → AllPaid s → AllPaid (release_coupon_for_order i s).0
release-AllPaid i s all = elim (release-orders i s) [
  | inl same ↦ orders-AllPaid s (release_coupon_for_order i s).0 same all
  | inr rows ↦
      update-AllPaid i (λ r. record r { coupon_released = true }) s (release_coupon_for_order i s).0
        (λ o h. h) rows all
]
