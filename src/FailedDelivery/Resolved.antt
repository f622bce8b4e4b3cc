-- ===== src/FailedDelivery/Resolved.antt =====
use meatvo_app.Base.{
  Option, Option-cases, Result-cases, Text, ap, arith, err, if◌then◌else◌, inl, inr, lookup,
  lookup-update, none, ok, refl, some, subst, sym, true, update, ℕ, ◌+◌, ◌==◌, ◌↔◌, ◌∙◌, ◌≡◌, ◌≢◌,
}
use meatvo_app.FailedDelivery.Handlers.{
  cancel_assignment, check_resolve, enum_column, resolve_failed_delivery, resolve_order, settle,
  text_column, undefined_function, update_order_after_failed_delivery_resolution, write_order,
}
-- When `resolveFailedDelivery` of backend/src/services/failedDelivery.service.js succeeds, and what it
-- does to the order, the stock and the tasks.
use mathlib.Core.Option
use meatvo_app.Store.{Order, Resolution, Store, TaskType, redeliver, refund, stock_of}
use meatvo_app.Payment.Stock.{items_of, restore_stock_for_order}
use meatvo_app.Payment.Conservation.{IsDistinct, ordered, restore_stock_gives}
use meatvo_app.FailedDelivery.Words.{is_order_blocked_from_assignment, resolution_of}
use meatvo_app.FailedDelivery.Tasks.{resolve_admin_task}

abbrev pub resolved : ℕ → ℕ → Resolution → Store → Store
resolved i a r s =
    resolve_admin_task TaskType.failed_delivery i (some a)
      (settle i r (write_order i (resolve_order a r) s))

check_resolve_iff :
    (o : Order)
    → (check_resolve o ≡ ok tt)
      ↔ ((is_order_blocked_from_assignment o ≡ true) × (o.failure.is_returned ≡ true))
unfolding check_resolve is_order_blocked_from_assignment
check_resolve_iff o = ground arith

refused_otherwise : (o : Order) → check_resolve o ≢ err undefined_function
unfolding check_resolve
refused_otherwise o h = ground arith

-- Where the column `payment_mode` is a text, an administrator's resolution succeeds just when it is one
-- of the three and the order's failure is pending with the goods returned; it then writes the
-- resolution, its stock or assignment, and closes the order's open task.
pub resolve_failed_delivery_iff :
    (i a : ℕ) (w : Text) (s s' : Store)
    → (resolve_failed_delivery text_column i a w s ≡ ok s') ↔ (
        (r : Resolution) × (o : Order) × (resolution_of w ≡ some r)
        × (lookup i s.orders ≡ some o)
        × (is_order_blocked_from_assignment o ≡ true)
        × (o.failure.is_returned ≡ true)
        × (resolved i a r s ≡ s'))
unfolding resolve_failed_delivery update_order_after_failed_delivery_resolution
resolve_failed_delivery_iff i a w s s' = (
  λ h. elim (Option-cases (resolution_of w)) [
    | inl none_such ↦ ground arith
    | inr (r, word) ↦ elim (Option-cases (lookup i s.orders)) [
      | inl gone ↦ ground arith
      | inr (o, at) ↦ elim (Result-cases (check_resolve o)) [
        | inr (x, e) ↦ ground arith
        | inl (v, e) ↦
            let (waiting, back) = (check_resolve_iff o).0 e in
            (r, o, word, at, waiting, back, ground arith)
      ]
    ]
  ],
  λ (r, o, word, at, waiting, back, left). ground (arith, check_resolve_iff o),
)

-- On the schema's enum column `payment_mode` no resolution succeeds: it throws undefined_function
-- exactly when it is one of the three and the order's failure is pending with the goods returned.
pub resolve_failed_delivery_throws :
    (i a : ℕ) (w : Text) (s : Store)
    → ((s' : Store) → resolve_failed_delivery enum_column i a w s ≢ ok s')
      × ((resolve_failed_delivery enum_column i a w s ≡ err undefined_function) ↔ (
          (r : Resolution) × (o : Order) × (resolution_of w ≡ some r)
          × (lookup i s.orders ≡ some o)
          × (is_order_blocked_from_assignment o ≡ true)
          × (o.failure.is_returned ≡ true)))
unfolding resolve_failed_delivery update_order_after_failed_delivery_resolution check_resolve
resolve_failed_delivery_throws i a w s = elim (Option-cases (resolution_of w)) [
  | inl none_such ↦
      (λ s' h. ground arith, (λ h. ground arith, λ (r, o, word, _, _, _). ground arith))
  | inr (r, word) ↦ elim (Option-cases (lookup i s.orders)) [
    | inl gone ↦ (λ s' h. ground arith, (λ h. ground arith, λ (_, o, _, at, _, _). ground arith))
    | inr (o, at) ↦ elim (Result-cases (check_resolve o)) [
      | inr (x, e) ↦ (
        λ s' h. ground arith,
        (
          λ h. absurd (refused_otherwise o (ground arith)),
          λ (_, o', _, at', waiting, back). ground (arith, check_resolve_iff o', at, at'),
        ),
      )
      | inl (v, e) ↦
          let (waiting, back) = (check_resolve_iff o).0 e in
          (λ s' h. ground arith, (λ h. (r, o, word, at, waiting, back), λ _. ground arith))
    ]
  ]
]

-- The row that a resolution leaves.
abbrev pub resolved_row : ℕ → Resolution → Order → Order
resolved_row a redeliver o = cancel_assignment (resolve_order a redeliver o)
resolved_row a r o = resolve_order a r o

pub orders-resolved :
    (i j a : ℕ) (r : Resolution) (s : Store)
    → lookup j (resolved i a r s).orders
      ≡ (if i == j then Option.map (resolved_row a r) (lookup j s.orders) else lookup j s.orders)
unfolding settle resolve_admin_task restore_stock_for_order
orders-resolved i j a redeliver s = ground (
  arith,
  lookup-update i j (resolve_order a redeliver) s.orders,
  lookup-update i j cancel_assignment (update i (resolve_order a redeliver) s.orders),
)
orders-resolved i j a refund s = lookup-update i j (resolve_order a refund) s.orders
orders-resolved i j a Resolution.discard s =
    lookup-update i j (resolve_order a Resolution.discard) s.orders
orders-resolved i j a Resolution.pending s =
    lookup-update i j (resolve_order a Resolution.pending) s.orders

pub tasks-resolved :
    (i a : ℕ) (r : Resolution) (s : Store)
    → (resolved i a r s).tasks ≡ (resolve_admin_task TaskType.failed_delivery i (some a) s).tasks
unfolding settle resolve_admin_task restore_stock_for_order
tasks-resolved i a redeliver s = refl
tasks-resolved i a refund s = refl
tasks-resolved i a Resolution.discard s = refl
tasks-resolved i a Resolution.pending s = refl

-- No word is the resolution PENDING.
pub resolution_settles : (w : Text) → resolution_of w ≡ some Resolution.pending → ⊥
unfolding resolution_of
resolution_settles w h = ground arith

pub items-resolve_order :
    (i a : ℕ) (r : Resolution) (s : Store)
    → items_of i (write_order i (resolve_order a r) s) ≡ items_of i s
items-resolve_order i a r s = ground (arith, lookup-update i i (resolve_order a r) s.orders)

-- How much of a product a resolution gives back.
abbrev pub given_back : Resolution → ℕ → ℕ
given_back refund n = n
given_back _ n = 0

plus_zero : (o : Option ℕ) → o ≡ Option.map (λ n. n + 0) o
plus_zero none = refl
plus_zero (some n) = ground arith

stock-resolved :
    (i a k : ℕ) (r : Resolution) (s : Store)
    → IsDistinct (items_of i s)
    → stock_of k (resolved i a r s)
      ≡ Option.map (λ n. n + given_back r (ordered k (items_of i s))) (stock_of k s)
unfolding resolve_admin_task settle
stock-resolved i a k redeliver s distinct = plus_zero (stock_of k s)
stock-resolved i a k refund s distinct =
    let wrote = write_order i (resolve_order a refund) s in
    let same = items-resolve_order i a refund s in
    rw (sym same) (restore_stock_gives i k wrote (subst IsDistinct (sym same) distinct))
stock-resolved i a k _ s distinct = plus_zero (stock_of k s)

-- Where the column `payment_mode` is a text, a resolution that succeeds gives the ordered quantity of every product back to its stock when it is
-- REFUND, and changes no stock when it is REDELIVER or DISCARD (no product standing in two items).
pub resolve_failed_delivery_stock :
    (i a k : ℕ) (w : Text) (r : Resolution) (s s' : Store)
    → resolution_of w ≡ some r
    → IsDistinct (items_of i s)
    → resolve_failed_delivery text_column i a w s ≡ ok s'
    → stock_of k s' ≡ Option.map (λ n. n + given_back r (ordered k (items_of i s))) (stock_of k s)
resolve_failed_delivery_stock i a k w r s s' word distinct h =
    let (r', _, word', _, _, _, left) = (resolve_failed_delivery_iff i a w s s').0 h in
    let same : r' ≡ r = ground arith in
    ap (stock_of k) (sym left) ∙ rw same (stock-resolved i a k r s distinct)
