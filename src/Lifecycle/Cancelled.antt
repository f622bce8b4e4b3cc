-- ===== src/Lifecycle/Cancelled.antt =====
-- What a cancellation does to the order, and the customer's cancellation: `cancelOrder` of
-- backend/src/modules/orders/orders.controller.js.
use mathlib.Core.Option
use meatvo_app.Base.{
  ==_iff, Bool, Bool-cases, Option-cases, ap, arith, false, if◌then◌else◌, inl, inr, lookup,
  lookup-update, ok, refl, some, subst, sym, true, update, ℕ, ◌&&◌, ◌==◌, ◌∙◌, ◌≡◌,
}
use meatvo_app.Status.Names.{Status, cancelled, confirmed, includes, placed}
use meatvo_app.Machine.Roles.{Role, customer}
use meatvo_app.Machine.Rules.{can_actor_trigger_state, can_transition}
use meatvo_app.Store.{Order, Payment, PaymentStatus, Store, stock_of}
use meatvo_app.Payment.Stock.{items_of, restore_stock_for_order, should_restore_stock_on_cancel}
use meatvo_app.Payment.Success.{Outcome, apply_payment_success, is_open_status, is_unconfirmed}
use meatvo_app.Payment.Settled.{apply_payment_success_open}
use meatvo_app.Payment.Conservation.{IsDistinct, stock_in}
use meatvo_app.Pricing.Redemption.{release-orders}
use meatvo_app.Lifecycle.Transition.{
  cancel_live, enter_state, is_online, payment_blocks, transition_order_state, weight_blocks,
}
use meatvo_app.Lifecycle.Guards.{IsAllowed, orders-enter_state, transition_order_state_iff}
use meatvo_app.Lifecycle.Cancel.{
  CancelResponse, cancel_order, cancel_order_lifecycle, cancelled_order, customer_cancellable,
  give_back, is_paid_status, stock_restored,
}
use meatvo_app.Lifecycle.Returned.{products-enter_state, stock-give_back}

-- Giving back changes nothing of an order but the release of its coupon.
give_back-row :
    (i : ℕ) (t : Status) (s : Store) (o : Order)
    → lookup i s.orders ≡ some o
    → (b : Bool) × (lookup i (give_back i t s).orders ≡ some (record o { coupon_released = b }))
unfolding give_back restore_stock_for_order
give_back-row i t s o at =
    let restored = if should_restore_stock_on_cancel t then restore_stock_for_order i s else s in
    let same : restored.orders ≡ s.orders = ground arith in
    elim (release-orders i restored) [
      | inl kept ↦ (o.coupon_released, ap (lookup i) (kept ∙ same) ∙ at)
      | inr rows ↦ (
        true,
        ap (lookup i) (rows ∙ ap (update i (λ r. record r { coupon_released = true })) same)
            ∙ (lookup-update i i (λ r. record r { coupon_released = true }) s.orders
                ∙ ground arith),
      )
    ]

-- The states that an order can be cancelled from, whoever cancels it.
abbrev pub IsCancellable : Status → Type 0
IsCancellable t = can_transition t cancelled ≡ true

cancel-IsAllowed :
    (o : Order) (r : Role)
    → IsCancellable o.status
    → can_actor_trigger_state cancelled r ≡ true
    → IsAllowed o cancelled r false
unfolding payment_blocks weight_blocks
cancel-IsAllowed o r edge actor = record {
  edge = edge;
  actor = actor;
  payment = ground arith;
  weights = ground arith;
}

transition-cancelled :
    (i : ℕ) (r : Role) (s : Store) (o : Order)
    → lookup i s.orders ≡ some o
    → IsCancellable o.status
    → can_actor_trigger_state cancelled r ≡ true
    → transition_order_state i cancelled r false s ≡ ok (enter_state i cancelled s, o.status)
transition-cancelled i r s o at edge actor =
    (transition_order_state_iff i cancelled o.status r false s (enter_state i cancelled s)).1
      (o, at, cancel-IsAllowed o r edge actor, refl, refl)

customer_edge : (t : Status) → includes customer_cancellable t ≡ true → IsCancellable t
unfolding can_transition
customer_edge placed h = ground arith
customer_edge _ h = ground arith

lifecycle-succeeds :
    (i : ℕ) (r : Role) (b : Bool) (s : Store) (o : Order)
    → lookup i s.orders ≡ some o
    → IsCancellable o.status
    → can_actor_trigger_state cancelled r ≡ true
    → cancel_order_lifecycle i r b s ≡ (
      enter_state i cancelled (give_back i o.status s),
      ok (record {
        old_status = o.status;
        refund_requested = b && (is_online o.payment_mode && is_paid_status o.payment_status);
      }),
    )
unfolding cancel_order_lifecycle
lifecycle-succeeds i r b s o at edge actor =
    let given = give_back i o.status s in
    let (released, row) = give_back-row i o.status s o at in
    let done =
      transition-cancelled i r given (record o { coupon_released = released }) row edge actor in
    rw (at, done, cancel_order_lifecycle) refl

customer_cancels : can_actor_trigger_state cancelled customer ≡ true
unfolding can_actor_trigger_state
customer_cancels = ground arith

-- The response to a customer's cancellation that succeeds.
abbrev pub cancelled_response : Status → CancelResponse
cancelled_response t = if should_restore_stock_on_cancel t then stock_restored else cancelled_order

cancel_order_eq :
    (i c : ℕ) (s : Store) (o : Order)
    → lookup i s.orders ≡ some o
    → o.customer_id ≡ c
    → includes customer_cancellable o.status ≡ true
    → cancel_order i c s
      ≡ (enter_state i cancelled (give_back i o.status s), cancelled_response o.status)
unfolding cancel_order
cancel_order_eq i c s o at owner open_order =
    let done =
      lifecycle-succeeds i customer true s o at (customer_edge o.status open_order)
        customer_cancels in
    let mine : o.customer_id == c ≡ true = ground arith in
    rw (at, mine, open_order, done, cancel_order) refl

-- A customer's cancellation of an own order that is PLACED, PAYMENT_PENDING or CONFIRMED never fails:
-- the order is then CANCELLED with its live rider assignment cancelled, and of its other columns only
-- the release of its coupon may have changed.
pub cancel_order_succeeds :
    (i c : ℕ) (s : Store) (o : Order)
    → lookup i s.orders ≡ some o
    → o.customer_id ≡ c
    → includes customer_cancellable o.status ≡ true
    → ((cancel_order i c s).1 ≡ cancelled_response o.status)
      × ((b : Bool) × (lookup i (cancel_order i c s).0.orders
            ≡ some (record o {
              status = cancelled;
              coupon_released = b;
              assignment = Option.map cancel_live o.assignment;
            })))
cancel_order_succeeds i c s o at owner open_order =
    let e = cancel_order_eq i c s o at owner open_order in
    let given = give_back i o.status s in
    let (b, row) = give_back-row i o.status s o at in
    (
      ap (λ r. r.1) e,
      (
        b,
        ap (λ r. lookup i r.0.orders) e ∙ (orders-enter_state i i cancelled given ∙ ground arith),
      ),
    )

-- A customer's cancellation of an order that is missing, of another customer's, or past the states that
-- a customer may cancel from leaves the store as it was.
pub cancel_order_refuses :
    (i c : ℕ) (s : Store)
    → ((o : Order)
        → lookup i s.orders ≡ some o
        → o.customer_id ≡ c
        → includes customer_cancellable o.status ≡ false)
    → (cancel_order i c s).0 ≡ s
unfolding cancel_order
cancel_order_refuses i c s closed = elim (Option-cases (lookup i s.orders)) [
  | inl gone ↦ rw (gone, cancel_order) refl
  | inr (o, at) ↦ elim (Bool-cases (o.customer_id == c)) [
    | inr other_owner ↦ rw (at, other_owner, cancel_order) refl
    | inl mine ↦ rw (at, mine, closed o at ((==_iff o.customer_id c).0 mine), cancel_order) refl
  ]
]

-- After the payment of an order that was PLACED or PAYMENT_PENDING has succeeded, its customer's
-- cancellation gives every product the stock that it had before the payment (no product standing in
-- two of the order's items).
pub cancel_order_undoes_payment :
    (i k n c : ℕ) (s s' : Store) (p : Payment) (q : Order) (a : Outcome)
    → lookup i s.payments ≡ some p
    → lookup p.order_id s.orders ≡ some q
    → is_open_status p.status ≡ true
    → is_unconfirmed q.status ≡ true
    → IsDistinct q.items
    → stock_of k s ≡ some n
    → apply_payment_success i s ≡ ok (s', a)
    → q.customer_id ≡ c
    → stock_of k (cancel_order p.order_id c s').0 ≡ some n
unfolding should_restore_stock_on_cancel
cancel_order_undoes_payment i k n c s s' p q a at there is_open fresh distinct stock paid_for mine =
    let (_, _, row, enough_stock, left) =
      apply_payment_success_open i k n s p q s' a at there is_open distinct stock paid_for in
    let q' : Order = record q { status = confirmed; payment_status = PaymentStatus.paid } in
    let row' : lookup p.order_id s'.orders ≡ some q' = row ∙ ground arith in
    let e = cancel_order_eq p.order_id c s' q' row' mine refl in
    let given = give_back p.order_id confirmed s' in
    let items : items_of p.order_id s' ≡ q.items = ground arith in
    ap (λ r. stock_of k r.0) e
    ∙ (ap (stock_in k) (products-enter_state p.order_id cancelled given)
        ∙ (stock-give_back p.order_id k confirmed s' (subst IsDistinct (sym items) distinct)
            ∙ ground arith))
