-- ===== src/Lifecycle/Returned.antt =====
-- What a cancellation of backend/src/services/orderLifecycle.service.js does to the stock.
use mathlib.Core.Option
use meatvo_app.Base.{
  Bool, Bool-cases, Option-cases, Result-cases, ap, arith, false, if◌then◌else◌, inl, inr, lookup,
  ok, refl, some, subst, sym, ℕ, ◌+◌, ◌∙◌, ◌≡◌,
}
use meatvo_app.Status.Names.{Status, cancelled, delivered}
use meatvo_app.Machine.Roles.{Role}
use meatvo_app.Store.{Order, Store, stock_of}
use meatvo_app.Payment.Stock.{items_of, restore_stock_for_order, should_restore_stock_on_cancel}
use meatvo_app.Payment.Conservation.{IsDistinct, ordered, restore_stock_gives, stock_in}
use meatvo_app.Pricing.Redemption.{release-products}
use meatvo_app.Lifecycle.Transition.{enter_state, rider_of, set_status, transition_order_state}
use meatvo_app.Lifecycle.Guards.{transition_order_state_iff}
use meatvo_app.Lifecycle.Cancel.{cancel_order_lifecycle, give_back}

pub products-enter_state :
    (i : ℕ) (t : Status) (s : Store) → (enter_state i t s).products ≡ s.products
unfolding enter_state
products-enter_state i delivered s = elim (Option-cases (rider_of i (set_status i delivered s))) [
  | inl unassigned ↦ ground arith
  | inr (u, e) ↦ ground arith
]
products-enter_state i t s = ground arith

products-transition :
    (i : ℕ) (t old : Status) (r : Role) (override : Bool) (s s' : Store)
    → transition_order_state i t r override s ≡ ok (s', old)
    → s'.products ≡ s.products
products-transition i t old r override s s' h =
    let (q, at, allowed, left, _) = (transition_order_state_iff i t old r override s s').0 h in
    ap (λ s. s.products) left ∙ products-enter_state i t s

pub stock-give_back :
    (i k : ℕ) (t : Status) (s : Store)
    → IsDistinct (items_of i s)
    → stock_of k (give_back i t s) ≡ (
        if should_restore_stock_on_cancel t
        then Option.map (λ n. n + ordered k (items_of i s)) (stock_of k s)
        else stock_of k s)
unfolding give_back
stock-give_back i k t s d = elim (Bool-cases (should_restore_stock_on_cancel t)) [
  | inl deducted ↦
      rw (deducted, give_back)
        (ap (stock_in k) (release-products i (restore_stock_for_order i s))
          ∙ restore_stock_gives i k s d)
  | inr not_deducted ↦ rw (not_deducted, give_back) (ap (stock_in k) (release-products i s))
]

products-cancel :
    (i : ℕ) (r : Role) (b : Bool) (s : Store) (o : Order)
    → lookup i s.orders ≡ some o
    → (cancel_order_lifecycle i r b s).0.products ≡ (give_back i o.status s).products
unfolding cancel_order_lifecycle
products-cancel i r b s o at =
    let given = give_back i o.status s in
    elim (Result-cases (transition_order_state i cancelled r false given)) [
      | inr (x, threw) ↦ rw (at, threw, cancel_order_lifecycle) refl
      | inl ((s', old), done) ↦
          rw (at, done, cancel_order_lifecycle)
            (products-transition i cancelled old r false given s' done)
    ]

-- `cancelOrderLifecycle` gives the stock of an order back whether or not the cancellation then
-- succeeds: whatever it answers, the stock of every product grows by what the order asks of it where
-- the order's status is past the deduction of stock (also DELIVERED or CANCELLED), and else stays (no
-- product standing in two of the order's items).
pub cancel_order_lifecycle_stock :
    (i k : ℕ) (r : Role) (b : Bool) (s : Store) (o : Order)
    → lookup i s.orders ≡ some o
    → IsDistinct o.items
    → stock_of k (cancel_order_lifecycle i r b s).0 ≡ (
        if should_restore_stock_on_cancel o.status
        then Option.map (λ n. n + ordered k o.items) (stock_of k s)
        else stock_of k s)
cancel_order_lifecycle_stock i k r b s o at d =
    let items : items_of i s ≡ o.items = ground arith in
    ap (stock_in k) (products-cancel i r b s o at)
    ∙ (stock-give_back i k o.status s (subst IsDistinct (sym items) d) ∙ ground arith)
