-- ===== src/Routes/Statuses.antt =====
use meatvo_app.Lifecycle.Transition.{
  enter_state, payment_blocks, transition_order_state, weight_blocks,
}
use meatvo_app.Base.{
  Bool, Bool-cases, List, Option-cases, Result-cases, ap, arith, false, inl, inr, length, lookup,
  none, refl, some, true, ℕ, ◌&&◌, ◌==◌, ◌↔◌, ◌∙◌, ◌≡◌, ◌≢◌,
}
use meatvo_app.Status.Names.{Status, cancelled, includes, packed, status_eq}
use meatvo_app.Machine.Roles.{Role, admin, customer, delivery, role_eq}
use meatvo_app.Machine.Rules.{can_actor_trigger_state, can_transition}
use meatvo_app.Store.{Order, Store}
use meatvo_app.Lifecycle.Guards.{
  IsAllowed, enter_row, orders-enter_state, transition_order_state_iff,
}
use meatvo_app.Packing.Rows.{LineWeight}
use meatvo_app.Packing.Flow.{pack_order_with_weight_reconciliation}
use meatvo_app.Routes.Guard.{actor_of, is_assigned}
use meatvo_app.Routes.Orders.{
  User, check_update, close_assignment, move_update, moved_from, pack_update, rider_statuses,
  update_order_status,
}

-- What `updateOrderStatus` of backend/src/modules/orders/orders.controller.js does to an order.

-- Who may set the status of an order to another.
pub record IsPermitted (u : User) (o : Order) (target : Status) : Type 0 where
  pub own : role_eq u.role customer ≡ true → o.customer_id ≡ u.id
  pub only_cancels : role_eq u.role customer ≡ true → status_eq target cancelled ≡ true
  pub assigned : role_eq u.role delivery ≡ true → is_assigned u.id o ≡ true
  pub only_delivers : role_eq u.role delivery ≡ true → includes rider_statuses target ≡ true

apart : (r : Role) → role_eq r customer ≡ true → role_eq r delivery ≡ false
apart customer h = refl
apart r h = ground arith

check_update-IsPermitted :
    (u : User) (o : Order) (t : Status) → check_update u o t ≡ none → IsPermitted u o t
unfolding check_update
check_update-IsPermitted u o t h = record {
  own = λ e. ground arith;
  only_cancels = λ e. ground arith;
  assigned = λ e. ground (arith, apart u.role);
  only_delivers = λ e. ground (arith, apart u.role);
}

IsPermitted-check_update :
    (u : User) (o : Order) (t : Status) → IsPermitted u o t → check_update u o t ≡ none
unfolding check_update
IsPermitted-check_update u o t h = ground arith

move_update_iff :
    (u : User) (k : ℕ) (t old : Status) (s s' : Store)
    → (move_update u k t s ≡ (s', moved_from old)) ↔ (
        (o : Order) × (lookup k s.orders ≡ some o)
        × IsAllowed o t (actor_of u.role) (role_eq u.role admin)
        × (s' ≡ close_assignment u k t (enter_state k t s))
        × (old ≡ o.status))
unfolding move_update
move_update_iff u k t old s s' = (
  λ h. elim (Result-cases (transition_order_state k t (actor_of u.role) (role_eq u.role admin) s)) [
    | inl (done, e) ↦
        let (o, at, allowed, left, was) =
          (transition_order_state_iff k t done.1 (actor_of u.role) (role_eq u.role admin) s
              done.0).0
            e in
        (o, at, allowed, ground (arith, e, left, h), ground (arith, e, was, h))
    | inr (x, e) ↦ ground arith
  ],
  λ (o, at, allowed, left, was).
      let done =
        (transition_order_state_iff k t o.status (actor_of u.role) (role_eq u.role admin) s
            (enter_state k t s)).1
          (o, at, allowed, refl, refl) in
      rw (done, left, was, move_update) refl,
)

guards-only : (u : User) (o : Order) (t old : Status) → check_update u o t ≢ some (moved_from old)
unfolding check_update
guards-only u o t old h = ground arith

packs-only :
    (u : User) (k : ℕ) (weights : List LineWeight) (s s' : Store) (old : Status)
    → pack_update u k weights s ≢ (s', moved_from old)
packs-only u k weights s s' old h =
    elim (Result-cases
      (pack_order_with_weight_reconciliation k weights (role_eq u.role admin && length weights == 0)
        (actor_of u.role) false s).1) [
          | inl (done, e) ↦ ground (arith, e)
          | inr (x, e) ↦ ground (arith, e)
        ]

-- A request to set an order's status moves it exactly when the order exists in another status, the
-- target is not PACKED, a customer owns the order and cancels it, a delivery partner has its assignment
-- and sets OUT_FOR_DELIVERY or DELIVERED, and all four guards of a transition pass, where an admin
-- counts as overriding the payment; what it writes is then the entry into the state, and for a delivery
-- by a delivery partner the end of the assignment.
pub update_order_status_iff :
    (u : User) (k : ℕ) (t old : Status) (weights : List LineWeight) (s s' : Store)
    → (update_order_status u k t weights s ≡ (s', moved_from old)) ↔ (
        (o : Order) × (lookup k s.orders ≡ some o)
        × (status_eq o.status t ≡ false)
        × (status_eq t packed ≡ false)
        × IsPermitted u o t
        × IsAllowed o t (actor_of u.role) (role_eq u.role admin)
        × (s' ≡ close_assignment u k t (enter_state k t s))
        × (old ≡ o.status))
unfolding update_order_status
update_order_status_iff u k t old weights s s' = (
  λ h. elim (Option-cases (lookup k s.orders)) [
    | inl gone ↦ ground (arith, gone)
    | inr (o, at) ↦ elim (Bool-cases (status_eq o.status t)) [
      | inl same ↦ ground (arith, at, same)
      | inr new ↦ elim (Option-cases (check_update u o t)) [
        | inr (x, stop) ↦
            absurd (guards-only u o t old (stop ∙ ap some (ground (arith, at, new, stop))))
        | inl free ↦ elim (Bool-cases (status_eq t packed)) [
          | inl packs ↦
              absurd (packs-only u k weights s s' old (ground (arith, at, new, free, packs)))
          | inr moves ↦
              let (o', at', allowed, left, was) =
                (move_update_iff u k t old s s').0 (ground (arith, at, new, free, moves)) in
              (
                o,
                at,
                new,
                moves,
                check_update-IsPermitted u o t free,
                ground (arith, at, at'),
                left,
                ground (arith, at, at'),
              )
        ]
      ]
    ]
  ],
  λ (o, at, new, moves, permitted, allowed, left, was).
      let free = IsPermitted-check_update u o t permitted in
      let done = (move_update_iff u k t old s s').1 (o, at, allowed, left, was) in
      rw (at, new, free, moves, update_order_status) done,
)

enter_cancelled :
    (k : ℕ) (s : Store)
    → ((enter_state k cancelled s).products ≡ s.products)
      × ((enter_state k cancelled s).coupons ≡ s.coupons)
unfolding enter_state
enter_cancelled k s = (refl, refl)

cancelled_open : (o : Order) (r : Role) (b : Bool) → payment_blocks o cancelled r b ≡ false
unfolding payment_blocks
cancelled_open o r b = ground arith

cancelled_weightless : (o : Order) → weight_blocks o cancelled ≡ false
unfolding weight_blocks
cancelled_weightless o = ground arith

admin_cancels :
    (r : Role) → role_eq r admin ≡ true → can_actor_trigger_state cancelled (actor_of r) ≡ true
unfolding can_actor_trigger_state
admin_cancels admin h = refl
admin_cancels r h = ground arith

-- An administrator who sets the status of an order to CANCELLED, from a status that leads there and is
-- another, cancels it, and neither the stock of any product nor the use of any coupon is given back.
pub status_cancel_keeps_stock :
    (u : User) (k : ℕ) (weights : List LineWeight) (s : Store) (o : Order)
    → role_eq u.role admin ≡ true
    → lookup k s.orders ≡ some o
    → status_eq o.status cancelled ≡ false
    → can_transition o.status cancelled ≡ true
    → ((update_order_status u k cancelled weights s).1 ≡ moved_from o.status)
      × ((update_order_status u k cancelled weights s).0.products ≡ s.products)
      × ((update_order_status u k cancelled weights s).0.coupons ≡ s.coupons)
      × (lookup k (update_order_status u k cancelled weights s).0.orders
          ≡ some (enter_row cancelled o))
status_cancel_keeps_stock u k weights s o by at new edge =
    let permitted : IsPermitted u o cancelled = record {
      own = λ e. ground arith;
      only_cancels = λ e. refl;
      assigned = λ e. ground arith;
      only_delivers = λ e. ground arith;
    } in
    let done =
      (update_order_status_iff u k cancelled o.status weights s (enter_state k cancelled s)).1 (
        o,
        at,
        new,
        refl,
        permitted,
        record {
          edge = edge;
          actor = admin_cancels u.role by;
          payment = cancelled_open o (actor_of u.role) (role_eq u.role admin);
          weights = cancelled_weightless o;
        },
        refl,
        refl,
      ) in
    rw done (
      refl,
      (enter_cancelled k s).0,
      (enter_cancelled k s).1,
      ground (arith, orders-enter_state k k cancelled s),
    )
