-- ===== src/Lifecycle/Guards.antt =====
-- What a transition of backend/src/services/orderLifecycle.service.js needs, and what it leaves.
use mathlib.Core.Option
use meatvo_app.Base.{
  Bool, Option-cases, Result-cases, arith, false, if◌then◌else◌, inl, inr, lookup, lookup-update,
  ok, some, true, ℕ, ◌==◌, ◌↔◌, ◌∙◌, ◌≡◌,
}
use meatvo_app.Status.Names.{Status, cancelled, delivered, packed, rider_rejected, status_eq}
use meatvo_app.Machine.Rules.{can_actor_trigger_state, can_transition}
use meatvo_app.Machine.Roles.{Role}
use meatvo_app.Store.{Order, Store}
use meatvo_app.Lifecycle.Transition.{
  cancel_live, check_transition, enter_state, payment_blocks, rider_of, set_status,
  transition_order_state, weight_blocks,
}

-- What the guards ask of an order, a new state and an actor.
pub record IsAllowed (o : Order) (t : Status) (r : Role) (override : Bool) : Type 0 where
  pub edge : can_transition o.status t ≡ true
  pub actor : can_actor_trigger_state t r ≡ true
  pub payment : payment_blocks o t r override ≡ false
  pub weights : weight_blocks o t ≡ false

check_transition-ok :
    (o : Order) (t : Status) (r : Role) (override : Bool)
    → check_transition o t r override ≡ ok tt
    → IsAllowed o t r override
unfolding check_transition
check_transition-ok o t r override h = ground arith

IsAllowed-check_transition :
    (o : Order) (t : Status) (r : Role) (override : Bool)
    → IsAllowed o t r override
    → check_transition o t r override ≡ ok tt
unfolding check_transition
IsAllowed-check_transition o t r override h = ground arith

-- A transition succeeds exactly when the order exists, the machine has the edge, the role may trigger
-- the state, and neither an unsettled online payment nor unreconciled weights stand in the way; it
-- then reports the old status, and the store is the one that entering the state leaves.
pub transition_order_state_iff :
    (i : ℕ) (t old : Status) (r : Role) (override : Bool) (s s' : Store)
    → (transition_order_state i t r override s ≡ ok (s', old)) ↔ (
        (o : Order) × (lookup i s.orders ≡ some o)
        × IsAllowed o t r override
        × (s' ≡ enter_state i t s)
        × (old ≡ o.status))
unfolding transition_order_state
transition_order_state_iff i t old r override s s' = (
  λ h. elim (Option-cases (lookup i s.orders)) [
    | inl gone ↦ ground arith
    | inr (o, at) ↦ elim (Result-cases (check_transition o t r override)) [
      | inl (u, e) ↦
          (o, at, check_transition-ok o t r override (e ∙ ground arith), ground arith, ground arith)
      | inr (x, e) ↦ ground arith
    ]
  ],
  λ (o, at, allowed, left, was). ground (arith, IsAllowed-check_transition o t r override allowed),
)

-- The row of an order that enters a state.
abbrev pub enter_row : Status → Order → Order
enter_row t o = record o {
  status = if status_eq t rider_rejected then packed else t;
  assignment = if status_eq t cancelled then Option.map cancel_live o.assignment else o.assignment;
}

pub orders-enter_state :
    (i j : ℕ) (t : Status) (s : Store)
    → lookup j (enter_state i t s).orders
      ≡ (if i == j then Option.map (enter_row t) (lookup j s.orders) else lookup j s.orders)
unfolding enter_state
orders-enter_state i j rider_rejected s = ground (
  arith,
  lookup-update i j (λ o. record o { status = rider_rejected }) s.orders,
  lookup-update i j (λ o. record o { status = packed }) (set_status i rider_rejected s).orders,
)
orders-enter_state i j cancelled s = ground (
  arith,
  lookup-update i j (λ o. record o { status = cancelled }) s.orders,
  lookup-update i j (λ o. record o { assignment = Option.map cancel_live o.assignment })
      (set_status i cancelled s).orders,
)
orders-enter_state i j delivered s = elim (Option-cases (rider_of i (set_status i delivered s))) [
  | inl unassigned ↦
      ground (arith, lookup-update i j (λ o. record o { status = delivered }) s.orders)
  | inr (u, e) ↦ ground (arith, lookup-update i j (λ o. record o { status = delivered }) s.orders)
]
orders-enter_state i j t s =
    ground (arith, lookup-update i j (λ o. record o { status = t }) s.orders)
