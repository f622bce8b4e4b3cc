-- ===== src/FailedDelivery/Cycle.antt =====
use meatvo_app.FailedDelivery.Handlers.{
  ColumnType, confirm_return_to_store, enum_column, fail_order, mark_failed_delivery,
  resolve_failed_delivery, return_order, text_column,
}
use meatvo_app.FailedDelivery.Resolved.{
  orders-resolved, resolution_settles, resolve_failed_delivery_iff, resolve_failed_delivery_throws,
  resolved, resolved_row, tasks-resolved,
}
-- A failed delivery from the rider's report to the administrator's resolution, in
-- backend/src/services/failedDelivery.service.js: the steps as a relation, and the whole run of them.
use mathlib.Core.Option
use meatvo_app.Base.{
  Bool-cases, Option, Text, ap, arith, false, if◌then◌else◌, inl, inr, lookup, lookup-update, none,
  ok, refl, some, subst, true, ℕ, ◌==◌, ◌∙◌, ◌≡◌, ◌≢◌,
}
use meatvo_app.Status.Names.{includes}
use meatvo_app.Store.{
  FailedDeliveryReason, Order, Resolution, ReturnCondition, Store, TaskType, redeliver, refund,
}
use meatvo_app.FailedDelivery.Words.{
  is_order_blocked_from_assignment, rider_failable_order_statuses,
}
use meatvo_app.FailedDelivery.Tasks.{
  closed_count, create_admin_task, noted_count, open_count, other_count, resolve_admin_task,
}
use meatvo_app.FailedDelivery.Marked.{
  confirm_return_to_store_iff, mark_failed_delivery_iff, marked, returned,
}

-- A call of one of the handlers that succeeds, whatever the type of `payment_mode`.
pub data Step : Store → Store → Type 0 where
  mark : (i u : ℕ) (w : Text) {s s' : Store} → mark_failed_delivery i u w s ≡ ok s' → Step s s'
  confirm :
      (i u : ℕ) (w : Text) {s s' : Store} → confirm_return_to_store i u w s ≡ ok s' → Step s s'
  resolve :
      (column : ColumnType) (i a : ℕ) (w : Text) {s s' : Store}
      → resolve_failed_delivery column i a w s ≡ ok s'
      → Step s s'

pub data Reach (s : Store) : Store → Type 0 where
  start : Reach s s
  step : {t u : Store} → Reach s t → Step t u → Reach s u

-- How many tasks should be open for an order: one while its failure waits for a resolution.
abbrev pub due : Option Order → ℕ
due none = 0
due (some o) = if is_order_blocked_from_assignment o then 1 else 0

-- Every order has the open tasks that are due.
abbrev pub IsTracked : Store → Type 0
IsTracked s = (j : ℕ) → open_count TaskType.failed_delivery j s.tasks ≡ due (lookup j s.orders)

failable_free :
    (o : Order)
    → includes rider_failable_order_statuses o.status ≡ true
    → is_order_blocked_from_assignment o ≡ false
unfolding is_order_blocked_from_assignment
failable_free o h = ground arith

marked-IsTracked :
    (i u : ℕ) (r : FailedDeliveryReason) (s : Store) (o : Order)
    → lookup i s.orders ≡ some o
    → includes rider_failable_order_statuses o.status ≡ true
    → IsTracked s
    → IsTracked (marked i u r s)
unfolding create_admin_task is_order_blocked_from_assignment
marked-IsTracked i u r s o at out tracked j = elim (Bool-cases (i == j)) [
  | inl same ↦
      let e : i ≡ j = ground arith in
      ground (arith, lookup-update i j (fail_order u r) s.orders, tracked j, failable_free o out)
  | inr apart ↦ ground (arith, lookup-update i j (fail_order u r) s.orders, tracked j)
]

returned-IsTracked :
    (i u : ℕ) (c : ReturnCondition) (s : Store) → IsTracked s → IsTracked (returned i u c s)
unfolding is_order_blocked_from_assignment
returned-IsTracked i u c s tracked j =
    noted_count TaskType.failed_delivery i j s.tasks
    ∙ tracked j
    ∙ ground (arith, lookup-update i j (return_order u c) s.orders)

free_after :
    (a : ℕ) (r : Resolution)
    → (r ≡ Resolution.pending → ⊥)
    → (o : Option Order) → due (Option.map (resolved_row a r) o) ≡ 0
unfolding is_order_blocked_from_assignment
free_after a r settles none = refl
free_after a Resolution.pending settles (some o) = absurd (settles refl)
free_after a redeliver settles (some o) = ground arith
free_after a refund settles (some o) = ground arith
free_after a Resolution.discard settles (some o) = ground arith

resolved-IsTracked :
    (i a : ℕ) (r : Resolution) (s : Store)
    → (r ≡ Resolution.pending → ⊥)
    → IsTracked s
    → IsTracked (resolved i a r s)
unfolding resolve_admin_task
resolved-IsTracked i a r s settles tracked j =
    let tasks = ap (open_count TaskType.failed_delivery j) (tasks-resolved i a r s) in
    elim (Bool-cases (i == j)) [
      | inl same ↦
          let e : i ≡ j = ground arith in
          let none_open = closed_count TaskType.failed_delivery i (some a) s.tasks in
          let free = free_after a r settles (lookup j s.orders) in
          ground (arith, tasks, orders-resolved i j a r s)
      | inr apart ↦
          let kept = other_count TaskType.failed_delivery i j (some a) s.tasks apart in
          ground (arith, tasks, orders-resolved i j a r s, tracked j)
    ]

pub Step-IsTracked : {s s' : Store} → Step s s' → IsTracked s → IsTracked s'
Step-IsTracked {s} {s'} (mark i u w h) tracked =
    let (r, o, _, _, at, out, _, left) = (mark_failed_delivery_iff i u w s s').0 h in
    subst IsTracked left (marked-IsTracked i u r s o at out tracked)
Step-IsTracked {s} {s'} (confirm i u w h) tracked =
    let (c, o, _, _, _, _, _, _, left) = (confirm_return_to_store_iff i u w s s').0 h in
    subst IsTracked left (returned-IsTracked i u c s tracked)
Step-IsTracked {s} {s'} (resolve enum_column i a w h) tracked =
    absurd ((resolve_failed_delivery_throws i a w s).0 s' h)
Step-IsTracked {s} {s'} (resolve text_column i a w h) tracked =
    let (r, o, word, _, _, _, left) = (resolve_failed_delivery_iff i a w s s').0 h in
    let settles : r ≡ Resolution.pending → ⊥ = λ e. resolution_settles w (word ∙ ap some e) in
    subst IsTracked left (resolved-IsTracked i a r s settles tracked)

-- In every store that runs of the three handlers alone reach from one where it holds, each order has
-- exactly one open failed-delivery task while its failure waits for a resolution, and else none.
pub Reach-IsTracked : {s s' : Store} → Reach s s' → IsTracked s → IsTracked s'
Reach-IsTracked start tracked = tracked
Reach-IsTracked (step before last) tracked = Step-IsTracked last (Reach-IsTracked before tracked)

-- Where `payment_mode` is a text, a failure that was resolved is not resolved again, whatever the second resolution is.
pub resolve_failed_delivery_once :
    (i a b : ℕ) (w v : Text) (s s' s'' : Store)
    → resolve_failed_delivery text_column i a w s ≡ ok s'
    → resolve_failed_delivery text_column i b v s' ≢ ok s''
resolve_failed_delivery_once i a b w v s s' s'' first second =
    let (r, o, word, at, _, _, left) = (resolve_failed_delivery_iff i a w s s').0 first in
    let (_, p, _, there, waiting, _, _) = (resolve_failed_delivery_iff i b v s' s'').0 second in
    let settles : r ≡ Resolution.pending → ⊥ = λ e. resolution_settles w (word ∙ ap some e) in
    let row = ap (λ t. lookup i t.orders) left in
    ground (arith, free_after a r settles (lookup i s.orders), orders-resolved i i a r s)
