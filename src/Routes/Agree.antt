-- ===== src/Routes/Agree.antt =====
-- What the guards of backend/src/middlewares/orderState.middleware.js promise the lifecycle service and
-- an order's owner.
use meatvo_app.Base.{
  Bool, Bool-cases, Option, Option-cases, arith, err, if◌then◌else◌, inl, inr, lookup, none, ok,
  refl, some, subst, true, ℕ, ◌↔◌, ◌≡◌, ◌⊎◌,
}
use meatvo_app.Status.Names.{Status}
use meatvo_app.Machine.Roles.{Role, customer, delivery}
use meatvo_app.Machine.Rules.{can_actor_trigger_state, can_transition}
use meatvo_app.Store.{Order, Store}
use meatvo_app.Routes.Guard.{
  actor_of, check_access, is_admin, is_assigned, validate_actor_permission,
  validate_order_ownership, validate_state_transition,
}
use meatvo_app.Lifecycle.Transition.{
  check_transition, enter_state, payment_blocks, payment_required, transition_order_state,
  weight_blocks, weight_reconciliation_pending,
}

state_parts :
    (i : ℕ) (t old : Status) (s : Store)
    → validate_state_transition i t s ≡ ok old
    → (o : Order) × (lookup i s.orders ≡ some o)
      × (o.status ≡ old)
      × (can_transition o.status t ≡ true)
unfolding validate_state_transition
state_parts i t old s h = elim (Option-cases (lookup i s.orders)) [
  | inl gone ↦ absurd (ground arith)
  | inr (o, at) ↦ (o, at, ground arith, ground arith)
]

actor_parts :
    (user : Option Role) (t : Status) (r : Role)
    → validate_actor_permission user t ≡ ok r
    → can_actor_trigger_state t r ≡ true
unfolding validate_actor_permission
actor_parts none t r h = absurd (ground arith)
actor_parts (some u) t r h = elim (Bool-cases (can_actor_trigger_state t (actor_of u))) [
  | inl may ↦ ground arith
  | inr refused ↦ absurd (ground arith)
]

-- Behind the guards on the state and on the role, the lifecycle service refuses the transition only
-- for an unsettled payment or unreconciled weights: else it enters the new state and reports the
-- state that the guard attached.
pub guarded_transition :
    (i : ℕ) (t old : Status) (user : Option Role) (r : Role) (override : Bool) (s : Store)
    → validate_state_transition i t s ≡ ok old
    → validate_actor_permission user t ≡ ok r
    → (o : Order) × (lookup i s.orders ≡ some o)
      × (transition_order_state i t r override s ≡ (
          if payment_blocks o t r override
          then err payment_required
          else if weight_blocks o t
          then err weight_reconciliation_pending
          else ok (enter_state i t s, old)))
unfolding transition_order_state check_transition
guarded_transition i t old user r override s h h' =
    let (o, at, same, edge) = state_parts i t old s h in
    let may = actor_parts user t r h' in (o, at, ground arith)

-- Who may see an order: an admin, the customer who placed it, and the rider it is assigned to.
pub data MayAccess (user_id : ℕ) (role : Option Role) (o : Order) : Type 0 where
  as_customer : role ≡ some customer → o.customer_id ≡ user_id → MayAccess user_id role o
  as_rider : role ≡ some delivery → is_assigned user_id o ≡ true → MayAccess user_id role o

access :
    (role : Option Role) (u : ℕ) (o : Order) → (check_access role u o ≡ ok tt) ↔ MayAccess u role o
access none u o = (λ h. absurd (ground arith), refused)
  where
    refused : MayAccess u none o → check_access none u o ≡ ok tt
    refused (as_customer e h) = absurd (ground arith)
    refused (as_rider e h) = absurd (ground arith)
access (some customer) u o = (λ h. as_customer refl (ground arith), given)
  where
    given : MayAccess u (some customer) o → check_access (some customer) u o ≡ ok tt
    given (as_customer e h) = ground arith
    given (as_rider e h) = absurd (ground arith)
access (some delivery) u o = (λ h. as_rider refl (ground arith), given)
  where
    given : MayAccess u (some delivery) o → check_access (some delivery) u o ≡ ok tt
    given (as_customer e h) = absurd (ground arith)
    given (as_rider e h) = ground arith
access (some r) u o = (λ h. absurd (ground arith), refused)
  where
    refused : MayAccess u (some r) o → check_access (some r) u o ≡ ok tt
    refused (as_customer e h) = absurd (ground arith)
    refused (as_rider e h) = absurd (ground arith)

-- The guard on ownership passes exactly for an admin, and for an order that exists for the customer
-- who placed it and for the delivery user it is assigned to: every other role is refused, staff too.
pub validate_order_ownership_iff :
    (i u : ℕ) (role : Option Role) (s : Store)
    → (validate_order_ownership i u role s ≡ ok tt)
      ↔ ((is_admin role ≡ true) ⊎ ((o : Order) × (lookup i s.orders ≡ some o) × MayAccess u role o))
unfolding validate_order_ownership
validate_order_ownership_iff i u role s = elim (Bool-cases (is_admin role)) [
  | inl boss ↦ (λ h. inl boss, λ h. ground arith)
  | inr common ↦ elim (Option-cases (lookup i s.orders)) [
    | inl gone ↦ (
      λ h. absurd (ground arith),
      λ h. elim h [ inl boss ↦ absurd (ground arith) | inr (o, at, may) ↦ absurd (ground arith) ],
    )
    | inr (o, at) ↦ (
      λ h. inr (o, at, (access role u o).0 (ground arith)),
      λ h. elim h [
        | inl boss ↦ absurd (ground arith)
        | inr (o', at', may) ↦
            let same : o' ≡ o = ground arith in
            let checked = (access role u o).1 (subst (MayAccess u role) same may) in ground arith
      ],
    )
  ]
]
