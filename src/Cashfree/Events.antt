-- ===== src/Cashfree/Events.antt =====
use meatvo_app.Base.{
  Bool, Bool-cases, IsUnique, Map, Option-cases, Result-cases, [], ap, arith, false, if◌then◌else◌,
  inl, inr, lookup, none, ok, or_else, refl, some, subst, sym, true, update, ℕ, ◌==◌, ◌∙◌, ◌∷◌, ◌≡◌,
  ◌≢◌, ◌⊎◌,
}
use meatvo_app.Store.{Order, Payment, Store}
use meatvo_app.Pricing.Coupon.{release_coupon_for_order}
use meatvo_app.Payment.Success.{
  Outcome, apply_payment_success, confirm_order_after_payment, is_open_status, settle,
}
use meatvo_app.Payment.Settled.{confirm-open, confirm_parts, paid_store}
use meatvo_app.Cashfree.Webhook.{Event, EventType, payment_success}
use meatvo_app.Cashfree.Changes.{
  apply_payment_failure, cancel_unpaid, failed_transaction, latest_payment, pay_or_roll_back,
  set_order, set_payment,
}
use meatvo_app.Cashfree.Handlers.{apply_event, on_event}

-- What an event of the webhook of backend/src/modules/payments/cashfree.controller.js comes to.

-- A change of a row's status keeps it the latest.
pub latest-set :
    (order_id i : ℕ) (f : Payment → Payment) (m : Map Payment) (j : ℕ) (p : Payment)
    → ((q : Payment) → ((f q).order_id ≡ q.order_id) × ((f q).is_cashfree ≡ q.is_cashfree))
    → latest_payment order_id m ≡ some (j, p)
    → latest_payment order_id (update i f m) ≡ some (j, if j == i then f p else p)
latest-set order_id i f [] j p same h = cc
latest-set order_id i f ((k, q) ∷ m) j p same h =
    ground (arith, same q, latest-set order_id i f m j p same)

pub latest-IsOf :
    (order_id : ℕ) (m : Map Payment) (i : ℕ) (p : Payment)
    → latest_payment order_id m ≡ some (i, p)
    → p.order_id ≡ order_id
latest-IsOf order_id [] i p h = cc
latest-IsOf order_id ((j, q) ∷ m) i p h = ground (arith, latest-IsOf order_id m i p)

absent-latest :
    (order_id i : ℕ) (m : Map Payment) (p : Payment)
    → lookup i m ≡ none
    → latest_payment order_id m ≢ some (i, p)
absent-latest order_id i [] p h e = cc
absent-latest order_id i ((j, q) ∷ m) p h e = ground (arith, absent-latest order_id i m p)

pub latest-lookup :
    (order_id : ℕ) (m : Map Payment) (i : ℕ) (p : Payment)
    → IsUnique m
    → latest_payment order_id m ≡ some (i, p)
    → lookup i m ≡ some p
latest-lookup order_id [] i p u h = cc
latest-lookup order_id ((j, q) ∷ m) i p (fresh, u) h = elim (Bool-cases (j == i)) [
  | inl same ↦ ground (arith, absent-latest order_id i m p)
  | inr apart ↦ ground (arith, latest-lookup order_id m i p u)
]

release-payments : (k : ℕ) (s : Store) → (release_coupon_for_order k s).0.payments ≡ s.payments
unfolding release_coupon_for_order
release-payments k s = ground arith

failure-payments :
    (i k : ℕ) (s : Store)
    → (apply_payment_failure i k s).payments
      ≡ update i (λ p. record p { status = failed_transaction }) s.payments
unfolding apply_payment_failure
failure-payments i k s =
    release-payments k (set_order k cancel_unpaid (set_payment i failed_transaction s))

abbrev is_type_success : EventType → Bool
is_type_success payment_success = true
is_type_success _ = false

-- The event's payment is no longer open.
pub closed-event :
    (e : Event) (k i : ℕ) (p : Payment) (s : Store)
    → latest_payment k s.payments ≡ some (i, p)
    → is_open_status p.status ≡ false
    → on_event e k s ≡ s
unfolding on_event
closed-event e k i p s at closed = ground (arith, at, closed)

pub after_failure :
    (e : Event) (k i : ℕ) (p : Payment) (s : Store)
    → latest_payment k s.payments ≡ some (i, p)
    → on_event e k (apply_payment_failure i p.order_id s) ≡ apply_payment_failure i p.order_id s
after_failure e k i p s at =
    let f : Payment → Payment = λ q. record q { status = failed_transaction } in
    let moved : latest_payment k (apply_payment_failure i p.order_id s).payments
        ≡ some (i, if i == i then f p else p) =
      ap (latest_payment k) (failure-payments i p.order_id s)
      ∙ latest-set k i f s.payments i p (λ q. (refl, refl)) at in
    closed-event e k i (f p) (apply_payment_failure i p.order_id s) (moved ∙ ground arith) refl

pay-payments :
    (i : ℕ) (s s' : Store) (p : Payment) (q : Order) (o : Outcome)
    → lookup i s.payments ≡ some p
    → lookup p.order_id s.orders ≡ some q
    → is_open_status p.status ≡ true
    → apply_payment_success i s ≡ ok (s', o)
    → s'.payments ≡ update i settle s.payments
pay-payments i s s' p q o at there is_open h =
    let c = confirm-open i s p q s' o at there is_open h in
    elim (Result-cases (confirm_order_after_payment p.order_id (paid_store i s))) [
      | inr (x, e) ↦ absurd (ground arith)
      | inl ((t, b), e) ↦
          let parts = confirm_parts p.order_id (paid_store i s) t b e in ground arith
    ]

pub after_payment :
    (e : Event) (k i : ℕ) (p : Payment) (q : Order) (s : Store)
    → IsUnique s.payments
    → latest_payment k s.payments ≡ some (i, p)
    → lookup p.order_id s.orders ≡ some q
    → is_open_status p.status ≡ true
    → on_event e k s ≡ (pay_or_roll_back i s).0
    → on_event e k (pay_or_roll_back i s).0 ≡ (pay_or_roll_back i s).0
after_payment e k i p q s u at there is_open does =
    elim (Result-cases (apply_payment_success i s)) [
      | inr (x, threw) ↦
          let same : (pay_or_roll_back i s).0 ≡ s = ground (arith, threw) in
          subst (λ t. on_event e k t ≡ t) (sym same) (does ∙ same)
      | inl ((s', o), done) ↦
          let same : (pay_or_roll_back i s).0 ≡ s' = ground (arith, done) in
          let rows =
            pay-payments i s s' p q o (latest-lookup k s.payments i p u at) there is_open done in
          let moved : latest_payment k s'.payments ≡ some (i, if i == i then settle p else p) =
            ap (latest_payment k) rows
            ∙ latest-set k i settle s.payments i p (λ r. (refl, refl)) at in
          subst (λ t. on_event e k t ≡ t) (sym same)
            (closed-event e k i (settle p) s' (moved ∙ ground arith) refl)
    ]

-- What an event comes to: nothing, the failure or the success of its open payment, the latter for the
-- amount of the payment alone.
pub event_cases :
    (e : Event) (k : ℕ) (s : Store)
    → (on_event e k s ≡ s)
      ⊎ ((i : ℕ) × (p : Payment) × (q : Order) × (latest_payment k s.payments ≡ some (i, p))
          × (lookup p.order_id s.orders ≡ some q)
          × (is_open_status p.status ≡ true)
          × ((on_event e k s ≡ apply_payment_failure i p.order_id s)
              ⊎ ((e.event_type ≡ payment_success)
                  × (or_else e.amount 0 ≡ p.amount)
                  × (on_event e k s ≡ (pay_or_roll_back i s).0))))
unfolding on_event apply_event
event_cases e k s = elim (Option-cases (latest_payment k s.payments)) [
  | inl nothing ↦ inl (ground (arith, nothing))
  | inr ((i, p), at) ↦ elim (Option-cases (lookup p.order_id s.orders)) [
    | inl gone ↦ inl (ground (arith, at, gone))
    | inr (q, there) ↦ elim (Bool-cases (is_open_status p.status)) [
      | inr closed ↦ inl (ground (arith, at, there, closed))
      | inl is_open ↦ elim (Bool-cases (is_type_success e.event_type)) [
        | inr fails ↦ inr (i, p, q, at, there, is_open, inl (ground (arith, at, there, is_open)))
        | inl pays ↦ elim (Bool-cases (or_else e.amount 0 == p.amount)) [
          | inr differs ↦ inl (ground (arith, at, there, is_open, differs))
          | inl equal ↦ inr (
            i,
            p,
            q,
            at,
            there,
            is_open,
            inr (ground arith, ground arith, ground (arith, at, there, is_open, equal)),
          )
        ]
      ]
    ]
  ]
]
