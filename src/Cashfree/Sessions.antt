-- ===== src/Cashfree/Sessions.antt =====
use meatvo_app.Cashfree.Changes.{
  apply_payment_abandon, fail_open, latest_payment, mark_retryable, mark_unpaid,
  payment_failed_status,
}
use meatvo_app.Cashfree.Api.{Gateway, create_order}
use meatvo_app.Base.{
  Bool-cases, Map, Option-cases, Text, [], ap, arith, false, inl, inr, lookup, lookup-update, none,
  refl, some, sym, true, update, ℕ, ◌&&◌, ◌==◌, ◌∙◌, ◌∷◌, ◌≡◌,
}
use meatvo_app.Store.{Order, Payment, Store}
use meatvo_app.Payment.Success.{is_unconfirmed}
use meatvo_app.Lifecycle.Transition.{is_online}
use meatvo_app.Cashfree.Handlers.{
  abandon_payment, amount_of, give_up, initiate_payment, initiation_failed, is_definitive_failure,
  new_payment, open_session, pending_payment, session_of,
}

-- The sessions of `initiatePayment` of backend/src/modules/payments/cashfree.controller.js: a second one
-- for an order, and one after `abandonPayment`.

-- An order that its customer may pay online.
pub record IsPayable (user k : ℕ) (q : Order) : Type 0 where
  pub named : (k == 0) ≡ false
  pub own : (q.customer_id == user) ≡ true
  pub early : is_unconfirmed q.status ≡ true
  pub by_card : is_online q.payment_mode ≡ true

initiate-opens :
    (g : Gateway) (url : Text) (fresh user k : ℕ) (q : Order) (s : Store)
    → lookup k s.orders ≡ some q
    → IsPayable user k q
    → initiate_payment g url fresh user k s ≡ open_session g url fresh k q s
unfolding initiate_payment
initiate-opens g url fresh user k q s at h =
    rw (h.named, at, h.own, h.early, h.by_card, initiate_payment) refl

refused-early :
    (g : Gateway) (url : Text) (fresh user k : ℕ) (s s' : Store) (t : Text)
    → initiate_payment g url fresh user k s ≡ (s', session_of t)
    → (q : Order) × (lookup k s.orders ≡ some q) × IsPayable user k q
unfolding initiate_payment
refused-early g url fresh user k s s' t h = elim (Bool-cases (k == 0)) [
  | inl bad ↦ absurd (ground (arith, bad))
  | inr fine ↦ elim (Option-cases (lookup k s.orders)) [
    | inl gone ↦ absurd (ground (arith, fine, gone))
    | inr (q, at) ↦ elim (Bool-cases (q.customer_id == user)) [
      | inr stranger ↦ absurd (ground (arith, fine, at, stranger))
      | inl owner ↦ elim (Bool-cases (is_unconfirmed q.status)) [
        | inr late ↦ absurd (ground (arith, fine, at, owner, late))
        | inl soon ↦ elim (Bool-cases (is_online q.payment_mode)) [
          | inr offline ↦ absurd (ground (arith, fine, at, owner, soon, offline))
          | inl card ↦ (q, at, record { named = fine; own = owner; early = soon; by_card = card })
        ]
      ]
    ]
  ]
]

open-again :
    (g g' : Gateway) (url url' : Text) (fresh fresh' k : ℕ) (q : Order) (s s' : Store) (t : Text)
    → open_session g url fresh k q s ≡ (s', session_of t)
    → (open_session g' url' fresh' k q s' ≡ (s', session_of t)) × (s'.orders ≡ s.orders)
unfolding open_session
open-again g g' [] url' fresh fresh' k q s s' t h =
    elim (Option-cases (pending_payment k s.payments)) [
      | inr ((i, p), at) ↦ (ground (arith, at), ground (arith, at))
      | inl nothing ↦ absurd (ground (arith, nothing))
    ]
open-again g g' (c ∷ url) url' fresh fresh' k q s s' t h =
    elim (Option-cases (pending_payment k s.payments)) [
      | inr ((i, p), at) ↦ (ground (arith, at), ground (arith, at))
      | inl nothing ↦ elim (Option-cases (create_order g k (amount_of q))) [
        | inl silent ↦ absurd (ground (arith, nothing, silent))
        | inr (session, opened) ↦
            let rows : s' ≡ record s { payments = (fresh, new_payment k q session) ∷ s.payments } =
              ground (arith, nothing, opened) in
            let same : session ≡ t = ground (arith, nothing, opened) in
            let found : pending_payment k s'.payments ≡ some (fresh, new_payment k q session) =
              ground (arith, rows) in
            (ground (arith, found, same), ground (arith, rows))
      ]
    ]

-- Once a customer has been given a payment session for an order, a second request for one, whatever the
-- gateway would answer and wherever it is configured to return, gives the same session and changes
-- nothing.
pub initiate_again :
    (g g' : Gateway) (url url' : Text) (fresh fresh' user k : ℕ) (s s' : Store) (t : Text)
    → initiate_payment g url fresh user k s ≡ (s', session_of t)
    → initiate_payment g' url' fresh' user k s' ≡ (s', session_of t)
initiate_again g g' url url' fresh fresh' user k s s' t h =
    let (q, at, payable) = refused-early g url fresh user k s s' t h in
    let opens : open_session g url fresh k q s ≡ (s', session_of t) =
      sym (initiate-opens g url fresh user k q s at payable) ∙ h in
    let (again, same) = open-again g g' url url' fresh fresh' k q s s' t opens in
    initiate-opens g' url' fresh' user k q s' (ap (lookup k) same ∙ at) payable ∙ again

retry_row :
    (user k : ℕ) (q : Order) (s : Store)
    → lookup k s.orders ≡ some q
    → IsPayable user k q
    → lookup k (update k mark_retryable s.orders) ≡ some (mark_unpaid q)
retry_row user k q s at h =
    let waits : is_unconfirmed q.status && is_online q.payment_mode ≡ true =
      ground (arith, h.early, h.by_card) in
    lookup-update k k mark_retryable s.orders ∙ ground (arith, at, waits)

-- An order without a payment has none that waits, whatever becomes of a row.
no_pending :
    (k i : ℕ) (m : Map Payment)
    → latest_payment k m ≡ none
    → (pending_payment k m ≡ none) × (pending_payment k (update i fail_open m) ≡ none)
no_pending k i [] h = (refl, refl)
no_pending k i ((j, p) ∷ m) h = elim (Bool-cases (p.order_id == k && p.is_cashfree)) [
  | inl own ↦ absurd (ground arith)
  | inr foreign ↦
      let rest : latest_payment k m ≡ none = ground (arith, foreign) in
      let (now, after) = no_pending k i m rest in
      (ground (arith, foreign, now), ground (arith, foreign, after))
]

first-opens :
    (g : Gateway) (url t : Text) (fresh k : ℕ) (q : Order) (s s1 : Store)
    → pending_payment k s.payments ≡ none
    → open_session g url fresh k q s ≡ (s1, session_of t)
    → s1 ≡ record s { payments = (fresh, new_payment k q t) ∷ s.payments }
unfolding open_session
first-opens g [] t fresh k q s s1 nothing h = absurd (ground (arith, nothing))
first-opens g (c ∷ url) t fresh k q s s1 nothing h =
    elim (Option-cases (create_order g k (amount_of q))) [
      | inl silent ↦ absurd (ground (arith, nothing, silent))
      | inr (session, opened) ↦
          let same : session ≡ t = ground (arith, nothing, opened) in
          ground (arith, nothing, opened)
    ]

refused_again :
    (g : Gateway) (k n : ℕ) → ((m : ℕ) → g.post_order k m ≡ none) → create_order g k n ≡ none
unfolding create_order
refused_again g k n known = ground (arith, known n)

abandon-opened :
    (user k fresh : ℕ) (reason t : Text) (q : Order) (s : Store)
    → lookup k s.orders ≡ some q
    → IsPayable user k q
    → is_definitive_failure reason ≡ false
    → (abandon_payment user k reason
        (record s { payments = (fresh, new_payment k q t) ∷ s.payments })).0
      ≡ apply_payment_abandon
          (some fresh)
          k
          (record s { payments = (fresh, new_payment k q t) ∷ s.payments })
unfolding abandon_payment give_up
abandon-opened user k fresh reason t q s at h lasting =
    rw (h.named, at, h.own, h.by_card, h.early, lasting, abandon_payment, give_up) (ground arith)

-- The gateway refuses an order id that it has an order for. The first request of an order for a payment
-- session makes the gateway an order under the order's id; when its customer then abandons the payment,
-- for a reason that is no definitive failure, the order keeps its status and its payment is marked as
-- failed, and every further request is answered with `Payment initiation failed` and changes nothing.
pub retry_refused :
    (g g' : Gateway) (url url' reason t : Text) (c fresh fresh' user k : ℕ) (s s1 : Store)
    → latest_payment k s.payments ≡ none
    → initiate_payment g url fresh user k s ≡ (s1, session_of t)
    → is_definitive_failure reason ≡ false
    → ((n : ℕ) → g'.post_order k n ≡ none)
    → let s2 = (abandon_payment user k reason s1).0 in
      ((q : Order) × (lookup k s.orders ≡ some q)
        × (lookup k s2.orders ≡ some (record q { payment_status = payment_failed_status })))
      × (initiate_payment g' (c ∷ url') fresh' user k s2 ≡ (s2, initiation_failed))
unfolding apply_payment_abandon open_session
retry_refused g g' url url' reason t c fresh fresh' user k s s1 fresh_order h lasting known =
    let (q, at, payable) = refused-early g url fresh user k s s1 t h in
    let opens : open_session g url fresh k q s ≡ (s1, session_of t) =
      sym (initiate-opens g url fresh user k q s at payable) ∙ h in
    let (free, failed) = no_pending k fresh s.payments fresh_order in
    let wrote = first-opens g url t fresh k q s s1 free opens in
    let left : (abandon_payment user k reason s1).0
        ≡ apply_payment_abandon (some fresh) k
            (record s { payments = (fresh, new_payment k q t) ∷ s.payments }) =
      ap (λ x. (abandon_payment user k reason x).0) wrote
      ∙ abandon-opened user k fresh reason t q s at payable lasting in
    let row : lookup k (abandon_payment user k reason s1).0.orders ≡ some (mark_unpaid q) =
      ap (λ u. lookup k u.orders) left ∙ retry_row user k q s at payable in
    let payable' : IsPayable user k (mark_unpaid q) = record {
      named = payable.named;
      own = payable.own;
      early = payable.early;
      by_card = payable.by_card;
    } in
    let none_waits : pending_payment k (abandon_payment user k reason s1).0.payments ≡ none =
      ap (λ u. pending_payment k u.payments) left ∙ ground (arith, failed) in
    let refused = refused_again g' k (amount_of (mark_unpaid q)) known in
    (
      (q, at, row),
      initiate-opens g' (c ∷ url') fresh' user k (mark_unpaid q)
            (abandon_payment user k reason s1).0 row payable'
          ∙ rw (none_waits, refused, open_session) refl,
    )
