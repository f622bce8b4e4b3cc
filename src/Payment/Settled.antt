-- ===== src/Payment/Settled.antt =====
-- What backend/src/modules/payments/payment-success.js does to a payment, its order and the stock, once
-- and when it is called again.
use meatvo_app.Base.{
  Bool, Bool-cases, Option-cases, Result-cases, ap, arith, false, if◌then◌else◌, inl, inr, lookup,
  lookup-update, ok, refl, some, subst, sym, true, update, ℕ, ◌-◌, ◌>>=◌, ◌∙◌, ◌≡◌, ◌≤◌,
}
use meatvo_app.Status.Names.{confirmed}
use meatvo_app.Store.{Order, Payment, PaymentStatus, Store, TransactionStatus, stock_of}
use meatvo_app.Payment.Stock.{items_of, reserve_stock_for_paid_order}
use meatvo_app.Payment.Conservation.{IsDistinct, ordered, reserve_parts, reserve_stock_takes}
use meatvo_app.Payment.Success.{
  Outcome, already_success, applied, apply_payment_success, as_applied, confirm_order_after_payment,
  confirm_row, confirms, is_open_status, is_unconfirmed, order_recovered, recovered, settle,
  settle_payment,
}

-- A confirmation that succeeds changes the stock and the row of its order, and no payment.
pub confirm_parts :
    (i : ℕ) (s s' : Store) (b : Bool)
    → confirm_order_after_payment i s ≡ ok (s', b)
    → (s'.payments ≡ s.payments)
      × (s'.orders ≡ update i confirm_row s.orders)
      × (b ≡ confirms (lookup i s.orders))
      × (reserve_stock_for_paid_order i s ≡ ok (record s { products = s'.products }))
unfolding confirm_order_after_payment
confirm_parts i s s' b h = elim (Result-cases (reserve_stock_for_paid_order i s)) [
  | inl (t, e) ↦ let (fine, result) = reserve_parts i s t e in ground arith
  | inr (x, e) ↦ ground arith
]

confirm_row-confirmed : (q : Order) → is_unconfirmed (confirm_row q).status ≡ false
confirm_row-confirmed q = elim (Bool-cases (is_unconfirmed q.status)) [
  | inl open_order ↦ rw open_order
  | inr confirmed_order ↦ rw confirmed_order confirmed_order
]

settled-again :
    (i : ℕ) (s : Store) (p : Payment) (q : Order)
    → lookup i s.payments ≡ some p
    → p.status ≡ TransactionStatus.success
    → lookup p.order_id s.orders ≡ some q
    → is_unconfirmed q.status ≡ false
    → apply_payment_success i s ≡ ok (s, already_success)
unfolding apply_payment_success
settled-again i s p q at paid_for there closed = ground arith

-- After a confirmation of the payment's order, a call finds both settled.
confirmed-again :
    (i : ℕ) (t s' : Store) (b : Bool) (p : Payment) (q : Order)
    → confirm_order_after_payment p.order_id t ≡ ok (s', b)
    → lookup i t.payments ≡ some p
    → p.status ≡ TransactionStatus.success
    → lookup p.order_id t.orders ≡ some q
    → apply_payment_success i s' ≡ ok (s', already_success)
confirmed-again i t s' b p q h at paid_for there =
    let (same, rows, _, _) = confirm_parts p.order_id t s' b h in
    settled-again i s' p (confirm_row q) (ap (lookup i) same ∙ at) paid_for
      (ap (lookup p.order_id) rows
        ∙ (lookup-update p.order_id p.order_id confirm_row t.orders ∙ ground arith))
      (confirm_row-confirmed q)

-- What `applyPaymentSuccess` answers when it is called again after an answer.
abbrev pub again : Outcome → Outcome
again order_recovered = already_success
again applied = already_success
again o = o

abbrev pub paid_store : ℕ → Store → Store
paid_store i s = record s { payments = update i settle s.payments }

settle-again :
    (i : ℕ) (s s' : Store) (o : Outcome) (p : Payment) (q : Order)
    → lookup i s.payments ≡ some p
    → lookup p.order_id s.orders ≡ some q
    → (confirm_order_after_payment p.order_id (paid_store i s) >>= as_applied) ≡ ok (s', o)
    → apply_payment_success i s' ≡ ok (s', again o)
settle-again i s s' o p q at there h =
    elim (Result-cases (confirm_order_after_payment p.order_id (paid_store i s))) [
      | inl ((t, b), e) ↦
          let row : lookup i (paid_store i s).payments ≡ some (settle p) =
            lookup-update i i settle s.payments ∙ ground arith in
          ground (arith, confirmed-again i (paid_store i s) t b (settle p) q e row refl there)
      | inr (x, e) ↦ ground arith
    ]

recover-again :
    (i : ℕ) (s s' : Store) (o : Outcome) (p : Payment) (q : Order)
    → lookup i s.payments ≡ some p
    → p.status ≡ TransactionStatus.success
    → lookup p.order_id s.orders ≡ some q
    → is_unconfirmed q.status ≡ true
    → (confirm_order_after_payment p.order_id s >>= recovered) ≡ ok (s', o)
    → apply_payment_success i s' ≡ ok (s', again o)
recover-again i s s' o p q at paid_for there unconfirmed h =
    elim (Result-cases (confirm_order_after_payment p.order_id s)) [
      | inl ((t, b), e) ↦
          let parts = confirm_parts p.order_id s t b e in
          ground (arith, parts, confirmed-again i s t b p q e at paid_for there)
      | inr (x, e) ↦ ground arith
    ]

-- A second call with the same payment changes nothing: not the stock, not the order, not the payment.
pub apply_payment_success_idem :
    (i : ℕ) (s s' : Store) (o : Outcome)
    → apply_payment_success i s ≡ ok (s', o)
    → apply_payment_success i s' ≡ ok (s', again o)
unfolding apply_payment_success
apply_payment_success_idem i s s' o h = elim (Option-cases (lookup i s.payments)) [
  | inl no_payment ↦ ground arith
  | inr (p, at) ↦ elim (Option-cases (lookup p.order_id s.orders)) [
    | inl no_order ↦ ground arith
    | inr (q, there) ↦
        let settled : settle_payment i p q s ≡ ok (s', o) = ground arith in
        ground (arith, settle-again i s s' o p q at there, recover-again i s s' o p q at)
  ]
]

pub confirm-open :
    (i : ℕ) (s : Store) (p : Payment) (q : Order) (s' : Store) (o : Outcome)
    → lookup i s.payments ≡ some p
    → lookup p.order_id s.orders ≡ some q
    → is_open_status p.status ≡ true
    → apply_payment_success i s ≡ ok (s', o)
    → (confirm_order_after_payment p.order_id (paid_store i s) >>= as_applied) ≡ ok (s', o)
unfolding apply_payment_success
confirm-open i s p q s' o at there is_open h = ground arith

-- A call for an INITIATED or PENDING payment that does not throw answers `applied`, marks the payment
-- SUCCESS, moves the order to CONFIRMED and PAID if it was PLACED or PAYMENT_PENDING and else leaves
-- its row as it was, and in either case takes the ordered quantity of every product from its stock
-- (no product standing in two of the order's items).
pub apply_payment_success_open :
    (i k n : ℕ) (s : Store) (p : Payment) (q : Order) (s' : Store) (o : Outcome)
    → lookup i s.payments ≡ some p
    → lookup p.order_id s.orders ≡ some q
    → is_open_status p.status ≡ true
    → IsDistinct q.items
    → stock_of k s ≡ some n
    → apply_payment_success i s ≡ ok (s', o)
    → (o ≡ applied)
      × (lookup i s'.payments ≡ some (record p { status = TransactionStatus.success }))
      × (lookup p.order_id s'.orders
          ≡ some (
              if is_unconfirmed q.status
              then record q { status = confirmed; payment_status = PaymentStatus.paid }
              else q))
      × (ordered k q.items ≤ n)
      × (stock_of k s' ≡ some (n - ordered k q.items))
apply_payment_success_open i k n s p q s' o at there is_open distinct stock h =
    elim (Result-cases (confirm_order_after_payment p.order_id (paid_store i s))) [
      | inr (x, e) ↦ let c = confirm-open i s p q s' o at there is_open h in ground arith
      | inl ((t, b), e) ↦
          let c = confirm-open i s p q s' o at there is_open h in
          let (same, rows, _, reserved) = confirm_parts p.order_id (paid_store i s) t b e in
          let items : items_of p.order_id (paid_store i s) ≡ q.items = ground arith in
          let (enough_stock, taken) =
            reserve_stock_takes p.order_id k n (paid_store i s)
              (record (paid_store i s) { products = t.products })
              (subst IsDistinct (sym items) distinct) reserved stock in
          let payment_row = lookup-update i i settle s.payments in
          let order_row = lookup-update p.order_id p.order_id confirm_row s.orders in
          (ground arith, ground arith, ground arith, ground arith, ground arith)
    ]
