-- ===== src/Cashfree/Settled.antt =====
use meatvo_app.Refunds.Submit.{is_success}
use meatvo_app.Cashfree.Effects.{Effect, check-Effect, failed_payment, kept, settled, verify-Effect}
use meatvo_app.Base.{
  ==_iff, Bool, Bool-cases, List, Option, Option-cases, Result-cases, Text, [], ap, arith, false,
  filter, if◌then◌else◌, inl, inr, lookup, lookup-update, none, refl, some, subst, sym, take, true,
  update, ℕ, ◌&&◌, ◌==◌, ◌∙◌, ◌∷◌, ◌≡◌,
}
use meatvo_app.Status.Names.{Status, includes, placed}
use meatvo_app.Store.{Order, Payment, Store}
use meatvo_app.Payment.Success.{apply_payment_success, is_unconfirmed}
use meatvo_app.Lifecycle.Transition.{is_online}
use meatvo_app.Lifecycle.Paid.{AllPaid, IsPaid, past_confirmation, update-AllPaid}
use meatvo_app.Lifecycle.Confirmed.{orders-AllPaid, pay-AllPaid, release-AllPaid}
use meatvo_app.Cashfree.Webhook.{Event}
use meatvo_app.Cashfree.Api.{Gateway, get_order_status, resolve_successful_cashfree_payment}
use meatvo_app.Cashfree.Changes.{
  apply_payment_abandon, apply_payment_failure, cancel_unpaid, failed_transaction, latest_payment,
  mark_retryable, mark_unpaid, pay_or_roll_back, set_order, set_payment,
}
use meatvo_app.Cashfree.Handlers.{
  abandon_payment, get_payment_status, give_up, initiate_payment, is_definitive_failure, is_failed,
  on_event, open_session, verify_payment,
}
use meatvo_app.Cashfree.Reconcile.{
  cancel_order_for_payment_failure, is_applied, is_due, is_failure_text, is_paid_text,
  reconcile_all, reconcile_payment, reconcile_stale_payments, settle_stale,
}
use meatvo_app.Cashfree.Events.{event_cases}
use mathlib.Core.List.{reverse}

-- The calls around the payment gateway keep every online order past confirmation settled.

cancel_unpaid-IsPaid : (o : Order) → IsPaid o → IsPaid (cancel_unpaid o)
cancel_unpaid-IsPaid o h mode past = cc

unconfirmed-early : (t : Status) → is_unconfirmed t ≡ true → includes past_confirmation t ≡ false
unconfirmed-early placed h = refl
unconfirmed-early t h = ground arith

-- A change of the row of an order that is not yet confirmed, which leaves its status.
early-AllPaid :
    (k : ℕ) (f : Order → Order) (q : Order) (s s' : Store)
    → lookup k s.orders ≡ some q
    → is_unconfirmed (f q).status ≡ true
    → s'.orders ≡ update k f s.orders
    → AllPaid s
    → AllPaid s'
early-AllPaid k f q s s' at early rows all j o there = elim (Bool-cases (k == j)) [
  | inr differ ↦
      let before : lookup j s.orders ≡ some o =
        ground (arith, ap (lookup j) rows, lookup-update k j f s.orders) in
      all j o before
  | inl same ↦
      let e : k ≡ j = (==_iff k j).0 same in
      let row : o ≡ f q = ground (arith, e, ap (lookup j) rows, lookup-update k j f s.orders) in
      λ mode past.
        let late : includes past_confirmation (f q).status ≡ true =
          ap (λ x. includes past_confirmation x.status) (sym row) ∙ past in
        let soon = unconfirmed-early (f q).status early in cc
]

pay_or_roll_back-AllPaid : (i : ℕ) (s : Store) → AllPaid s → AllPaid (pay_or_roll_back i s).0
pay_or_roll_back-AllPaid i s all = elim (Result-cases (apply_payment_success i s)) [
  | inr (x, threw) ↦ rw (threw, pay_or_roll_back) all
  | inl ((s', o), done) ↦ rw (done, pay_or_roll_back) (pay-AllPaid i s s' o done all)
]

failure-AllPaid : (i k : ℕ) (s : Store) → AllPaid s → AllPaid (apply_payment_failure i k s)
unfolding apply_payment_failure
failure-AllPaid i k s all =
    let s1 = set_order k cancel_unpaid (set_payment i failed_transaction s) in
    release-AllPaid k s1 (update-AllPaid k cancel_unpaid s s1 cancel_unpaid-IsPaid refl all)

early-IsPaid : (o : Order) → is_unconfirmed o.status ≡ true → IsPaid o
early-IsPaid o early mode past = let soon = unconfirmed-early o.status early in cc

retry-IsPaid : (o : Order) → IsPaid o → IsPaid (mark_retryable o)
retry-IsPaid o h = elim (Bool-cases (is_unconfirmed o.status && is_online o.payment_mode)) [
  | inr stays ↦ rw stays h
  | inl waits ↦ rw waits (early-IsPaid (mark_unpaid o) (ground arith))
]

cancel_early-IsPaid :
    (o : Order) → IsPaid o → IsPaid (if is_unconfirmed o.status then cancel_unpaid o else o)
cancel_early-IsPaid o h = elim (Bool-cases (is_unconfirmed o.status)) [
  | inr late ↦ rw late h
  | inl early ↦ rw early (cancel_unpaid-IsPaid o h)
]

abandon-AllPaid :
    (x : Option ℕ) (k : ℕ) (s : Store) → AllPaid s → AllPaid (apply_payment_abandon x k s)
unfolding apply_payment_abandon
abandon-AllPaid none k s all =
    update-AllPaid k mark_retryable s (apply_payment_abandon none k s) retry-IsPaid refl all
abandon-AllPaid (some i) k s all =
    update-AllPaid k mark_retryable s (apply_payment_abandon (some i) k s) retry-IsPaid refl all

Effect-AllPaid : (s : Store) {s' : Store} → Effect s s' → AllPaid s → AllPaid s'
Effect-AllPaid s kept all = all
Effect-AllPaid s (settled i) all = pay_or_roll_back-AllPaid i s all
Effect-AllPaid s (failed_payment i k) all = failure-AllPaid i k s all

give_up-AllPaid :
    (definitive : Bool) (k : ℕ) (x : Option (ℕ × Payment)) (q : Order) (s : Store)
    → lookup k s.orders ≡ some q
    → is_unconfirmed q.status ≡ true
    → AllPaid s
    → AllPaid (give_up definitive k x s).0
unfolding give_up
give_up-AllPaid true k none q s at early all =
    update-AllPaid k cancel_unpaid s (set_order k cancel_unpaid s) cancel_unpaid-IsPaid refl all
give_up-AllPaid true k (some (i, p)) q s at early all = elim (Bool-cases (is_success p.status)) [
  | inl done ↦ rw (done, give_up) all
  | inr open_yet ↦ elim (Bool-cases (is_failed p.status)) [
    | inl over ↦ rw (open_yet, over, give_up) (failure-AllPaid i k s all)
    | inr unsettled ↦ rw (open_yet, unsettled, give_up) (failure-AllPaid i k s all)
  ]
]
give_up-AllPaid false k none q s at early all = abandon-AllPaid none k s all
give_up-AllPaid false k (some (i, p)) q s at early all = elim (Bool-cases (is_success p.status)) [
  | inl done ↦ rw (done, give_up) all
  | inr open_yet ↦ elim (Bool-cases (is_failed p.status)) [
    | inl over ↦
        rw (open_yet, over, give_up)
          (early-AllPaid k mark_unpaid q s (set_order k mark_unpaid s) at early refl all)
    | inr unsettled ↦ rw (open_yet, unsettled, give_up) (abandon-AllPaid (some i) k s all)
  ]
]

abandon_payment-AllPaid :
    (user k : ℕ) (reason : Text) (s : Store)
    → AllPaid s
    → AllPaid (abandon_payment user k reason s).0
unfolding abandon_payment
abandon_payment-AllPaid user k reason s all = elim (Bool-cases (k == 0)) [
  | inl bad ↦ rw (bad, abandon_payment) all
  | inr fine ↦ elim (Option-cases (lookup k s.orders)) [
    | inl gone ↦ rw (fine, gone, abandon_payment) all
    | inr (q, at) ↦ elim (Bool-cases (q.customer_id == user)) [
      | inr stranger ↦ rw (fine, at, stranger, abandon_payment) all
      | inl owner ↦ elim (Bool-cases (is_online q.payment_mode)) [
        | inr offline ↦ rw (fine, at, owner, offline, abandon_payment) all
        | inl by_card ↦ elim (Bool-cases (is_unconfirmed q.status)) [
          | inr late ↦ rw (fine, at, owner, by_card, late, abandon_payment) all
          | inl early ↦
              rw (fine, at, owner, by_card, early, abandon_payment)
                (give_up-AllPaid (is_definitive_failure reason) k (latest_payment k s.payments) q s
                  at early all)
        ]
      ]
    ]
  ]
]

initiate-orders :
    (g : Gateway) (url : Text) (fresh user k : ℕ) (s : Store)
    → (initiate_payment g url fresh user k s).0.orders ≡ s.orders
unfolding initiate_payment open_session
initiate-orders g url fresh user k s = ground arith

event-AllPaid : (e : Event) (k : ℕ) (s : Store) → AllPaid s → AllPaid (on_event e k s)
event-AllPaid e k s all = elim (event_cases e k s) [
  | inl same ↦ subst AllPaid (sym same) all
  | inr (i, p, q, _, _, _, what) ↦ elim what [
    | inl fails ↦ subst AllPaid (sym fails) (failure-AllPaid i p.order_id s all)
    | inr (_, _, pays) ↦ subst AllPaid (sym pays) (pay_or_roll_back-AllPaid i s all)
  ]
]

stale-AllPaid : (i : ℕ) (s : Store) (x : Option Text) → AllPaid s → AllPaid (settle_stale i s x).0
unfolding settle_stale
stale-AllPaid i s none all = all
stale-AllPaid i s (some []) all = all
stale-AllPaid i s (some (c ∷ t)) all = elim (Result-cases (apply_payment_success i s)) [
  | inr (x, threw) ↦ rw (threw, settle_stale) all
  | inl ((s', o), done) ↦ elim (Bool-cases (is_applied o)) [
    | inl counts ↦ rw (done, counts, settle_stale) (pay-AllPaid i s s' o done all)
    | inr skipped ↦ rw (done, skipped, settle_stale) all
  ]
]

reconcile-AllPaid :
    (g : Gateway) (i : ℕ) (p : Payment) (s : Store) (x : Option Text)
    → AllPaid s
    → AllPaid (reconcile_payment g i p s x).0
unfolding reconcile_payment cancel_order_for_payment_failure
reconcile-AllPaid g i p s none all = all
reconcile-AllPaid g i p s (some t) all =
    let s1 = set_payment i failed_transaction s in
    let s2 =
      set_order p.order_id (λ o. if is_unconfirmed o.status then cancel_unpaid o else o) s1 in
    elim (Bool-cases (is_paid_text t)) [
      | inl pays ↦
          rw (pays, reconcile_payment)
            (stale-AllPaid i s (resolve_successful_cashfree_payment g p.order_id p.amount) all)
      | inr not_paid ↦ elim (Bool-cases (is_failure_text t)) [
        | inl fails ↦
            rw (not_paid, fails, reconcile_payment)
              (release-AllPaid p.order_id s2 (
                update-AllPaid p.order_id
                  (λ o. if is_unconfirmed o.status then cancel_unpaid o else o) s s2
                  cancel_early-IsPaid refl all))
        | inr waits ↦ rw (not_paid, waits, reconcile_payment) all
      ]
    ]

all-AllPaid :
    (g : Gateway) (rows : List (ℕ × Payment)) (s : Store)
    → AllPaid s
    → AllPaid (reconcile_all g rows s).0
unfolding reconcile_all
all-AllPaid g [] s all = all
all-AllPaid g ((i, p) ∷ rows) s all =
    all-AllPaid g rows (reconcile_payment g i p s (get_order_status g p.order_id)).0
      (reconcile-AllPaid g i p s (get_order_status g p.order_id) all)

-- A call around the payment gateway.
pub data PaymentCall (s : Store) : Store → Type 0 where
  initiate :
      (g : Gateway) (url : Text) (fresh user k : ℕ)
      → PaymentCall s (initiate_payment g url fresh user k s).0
  notify : (e : Event) (k : ℕ) → PaymentCall s (on_event e k s)
  check : (g : Gateway) (user k : ℕ) → PaymentCall s (get_payment_status g user k s).0
  verify : (g : Gateway) (user k : ℕ) → PaymentCall s (verify_payment g user k s).0
  abandon : (user k : ℕ) (reason : Text) → PaymentCall s (abandon_payment user k reason s).0
  reconcile :
      (g : Gateway) (is_stale : ℕ → Bool) → PaymentCall s (reconcile_stale_payments g is_stale s).0

pub PaymentCall-AllPaid : (s : Store) {s' : Store} → PaymentCall s s' → AllPaid s → AllPaid s'
unfolding reconcile_stale_payments
PaymentCall-AllPaid s (initiate g url fresh user k) all =
    orders-AllPaid s (initiate_payment g url fresh user k s).0
      (initiate-orders g url fresh user k s) all
PaymentCall-AllPaid s (notify e k) all = event-AllPaid e k s all
PaymentCall-AllPaid s (check g user k) all = Effect-AllPaid s (check-Effect g user k s) all
PaymentCall-AllPaid s (verify g user k) all = Effect-AllPaid s (verify-Effect g user k s) all
PaymentCall-AllPaid s (abandon user k reason) all = abandon_payment-AllPaid user k reason s all
PaymentCall-AllPaid s (reconcile g is_stale) all =
    all-AllPaid g (take 50 (reverse (filter (is_due is_stale s.orders) s.payments))) s all
