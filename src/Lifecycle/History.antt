-- ===== src/Lifecycle/History.antt =====
use meatvo_app.Lifecycle.Confirmed.{pay-AllPaid, release-AllPaid}
use meatvo_app.Cashfree.Settled.{PaymentCall, PaymentCall-AllPaid}
-- Histories of the store: checkouts, packings and transitions without an admin's override, payments
-- that succeed, cancellations and the calls around the payment gateway, in any order, each as its
-- function makes it.
use meatvo_app.Packing.Rows.{LineWeight}
use meatvo_app.Packing.Lines.{execute_packing_weight_reconciliation}
use meatvo_app.Packing.Flow.{move_to_packed, pack_order_with_weight_reconciliation}
use meatvo_app.Packing.Settled.{execute-AllPaid}
use meatvo_app.Checkout.Cart.{Cart}
use meatvo_app.Checkout.Request.{CheckoutRequest, CheckoutSettings}
use meatvo_app.Checkout.Create.{create_order}
use meatvo_app.Checkout.Placed.{create-AllPaid}
use meatvo_app.Base.{
  Bool, Bool-cases, List, Option-cases, Result-cases, arith, false, inl, inr, lookup, ok, subst,
  sym, ℕ, ◌&&◌, ◌≡◌,
}
use meatvo_app.Status.Names.{Status, cancelled, packed}
use meatvo_app.Machine.Roles.{Role, admin, role_eq}
use meatvo_app.Store.{Store}
use meatvo_app.Payment.Success.{Outcome, apply_payment_success}
use meatvo_app.Lifecycle.Transition.{transition_order_state}
use meatvo_app.Lifecycle.Guards.{transition_order_state_iff}
use meatvo_app.Payment.Stock.{restore_stock_for_order, should_restore_stock_on_cancel}
use meatvo_app.Lifecycle.Paid.{AllPaid, enter_state-AllPaid}
use meatvo_app.Lifecycle.Cancel.{cancel_order_lifecycle, give_back}

pub data Step (s s' : Store) : Type 0 where
  checkout :
      (i k : ℕ) (r : CheckoutRequest) (settings : CheckoutSettings) (cart cart' : Cart)
      → create_order i k r settings cart s ≡ ok (s', cart')
      → Step s s'
  pack :
      (i : ℕ) (request : List LineWeight) (skip : Bool) (r : Role) (override : Bool)
      → role_eq r admin && override ≡ false
      → s' ≡ (pack_order_with_weight_reconciliation i request skip r override s).0
      → Step s s'
  transition :
      (i : ℕ) (t old : Status) (r : Role) (override : Bool)
      → role_eq r admin && override ≡ false
      → transition_order_state i t r override s ≡ ok (s', old)
      → Step s s'
  pay : (i : ℕ) (o : Outcome) → apply_payment_success i s ≡ ok (s', o) → Step s s'
  cancel : (i : ℕ) (r : Role) (b : Bool) → s' ≡ (cancel_order_lifecycle i r b s).0 → Step s s'
  gateway : PaymentCall s s' → Step s s'

pub data Reach (s : Store) : Store → Type 0 where
  here : Reach s s
  next : {t u : Store} → Reach s t → Step t u → Reach s u

transition-AllPaid :
    (i : ℕ) (t old : Status) (r : Role) (override : Bool) (s s' : Store)
    → role_eq r admin && override ≡ false
    → transition_order_state i t r override s ≡ ok (s', old)
    → AllPaid s
    → AllPaid s'
transition-AllPaid i t old r override s s' no_override h all =
    let (q, at, allowed, left, _) = (transition_order_state_iff i t old r override s s').0 h in
    subst AllPaid (sym left) (enter_state-AllPaid i t r override s q at allowed no_override all)

no_override : (r : Role) → role_eq r admin && false ≡ false
no_override r = ground arith

give_back-AllPaid : (i : ℕ) (t : Status) (s : Store) → AllPaid s → AllPaid (give_back i t s)
unfolding give_back restore_stock_for_order
give_back-AllPaid i t s all = elim (Bool-cases (should_restore_stock_on_cancel t)) [
  | inl deducted ↦ rw (deducted, give_back) (release-AllPaid i (restore_stock_for_order i s) all)
  | inr not_deducted ↦ rw (not_deducted, give_back) (release-AllPaid i s all)
]

cancel-AllPaid :
    (i : ℕ) (r : Role) (b : Bool) (s : Store)
    → AllPaid s
    → AllPaid (cancel_order_lifecycle i r b s).0
unfolding cancel_order_lifecycle
cancel-AllPaid i r b s all = elim (Option-cases (lookup i s.orders)) [
  | inl gone ↦ rw (gone, cancel_order_lifecycle) all
  | inr (o, at) ↦
      let given = give_back i o.status s in
      let kept = give_back-AllPaid i o.status s all in
      elim (Result-cases (transition_order_state i cancelled r false given)) [
        | inr (x, threw) ↦ rw (at, threw, cancel_order_lifecycle) kept
        | inl ((s', old), done) ↦
            rw (at, done, cancel_order_lifecycle)
              (transition-AllPaid i cancelled old r false given s' (no_override r) done kept)
      ]
]

pack-AllPaid :
    (i : ℕ) (request : List LineWeight) (skip : Bool) (r : Role) (override : Bool) (s : Store)
    → role_eq r admin && override ≡ false
    → AllPaid s
    → AllPaid (pack_order_with_weight_reconciliation i request skip r override s).0
unfolding pack_order_with_weight_reconciliation
pack-AllPaid i request skip r override s no_admin all =
    elim (Result-cases (execute_packing_weight_reconciliation i request skip s)) [
      | inr (x, e) ↦ rw (e, pack_order_with_weight_reconciliation) all
      | inl ((t, total), e) ↦
          let kept = execute-AllPaid i request skip s t total e all in
          elim (Result-cases (transition_order_state i packed r override t)) [
            | inr (x, e') ↦ rw (e, e', pack_order_with_weight_reconciliation, move_to_packed) kept
            | inl ((s', old), e') ↦
                rw (e, e', pack_order_with_weight_reconciliation, move_to_packed)
                  (transition-AllPaid i packed old r override t s' no_admin e' kept)
          ]
    ]

-- A step keeps every online order past confirmation settled.
pub Step-AllPaid : (s s' : Store) → Step s s' → AllPaid s → AllPaid s'
Step-AllPaid s s' (checkout i k r settings cart cart' h) all =
    create-AllPaid i k r settings cart cart' s s' h all
Step-AllPaid s s' (pack i request skip r override n e) all =
    subst AllPaid (sym e) (pack-AllPaid i request skip r override s n all)
Step-AllPaid s s' (transition i t old r override n h) all =
    transition-AllPaid i t old r override s s' n h all
Step-AllPaid s s' (pay i o h) all = pay-AllPaid i s s' o h all
Step-AllPaid s s' (cancel i r b e) all = subst AllPaid (sym e) (cancel-AllPaid i r b s all)
Step-AllPaid s s' (gateway c) all = PaymentCall-AllPaid s c all

-- In every store that checkouts, transitions and payments that succeed, packings and cancellations that
-- succeed or are refused, and the gateway's notifications, the requests about payments and the
-- reconciliation reach in any order, the transitions and packings without an admin's override, from a store in which every online order past confirmation is settled, every online order
-- past confirmation is settled (its payment status is PAID or PAYMENT_VERIFIED).
pub Reach-AllPaid : (s s' : Store) → AllPaid s → Reach s s' → AllPaid s'
Reach-AllPaid s s' all here = all
Reach-AllPaid s s' all (next {t} r st) = Step-AllPaid t s' st (Reach-AllPaid s t all r)
