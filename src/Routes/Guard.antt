-- ===== src/Routes/Guard.antt =====
-- backend/src/middlewares/orderState.middleware.js. A guard answers with a failure or passes on what it
-- attaches to the request; an error of the database and the logs are left out. A missing order id is 0,
-- and a missing state is the empty text.
use meatvo_app.Base.{
  Bool, List, Option, [], err, false, if◌then◌else◌, lookup, none, ok, some, true, ℕ, ◌==◌, ◌||◌,
}
use meatvo_app.Base.Result.{Result}
use meatvo_app.Status.Names.{Status, includes, other, status_eq}
use meatvo_app.Machine.Roles.{Role, admin, customer, delivery, rider}
use meatvo_app.Machine.Rules.{can_actor_trigger_state, can_transition}
use meatvo_app.Store.{Order, Store}

pub data Failure : Type 0 where
  bad_request invalid_state_transition not_authenticated role_refused order_not_found : Failure
  no_access not_assigned insufficient_permissions wrong_state : Failure

-- `validateStateTransition`, with the current state that it attaches.
unfoldable pub validate_state_transition : ℕ → Status → Store → Result Failure Status
validate_state_transition order_id new_state s =
    if order_id == 0 || status_eq new_state (other [])
    then err bad_request
    else elim (lookup order_id s.orders) [
      | none ↦ err order_not_found
      | some o ↦
          if can_transition o.status new_state then ok o.status else err invalid_state_transition
    ]

-- `let actorRole = userRole; if (userRole === 'delivery') actorRole = 'rider'`
abbrev pub actor_of : Role → Role
actor_of delivery = rider
actor_of r = r

-- `validateActorPermission`, with the actor's role that it attaches.
unfoldable pub validate_actor_permission : Option Role → Status → Result Failure Role
validate_actor_permission user_role new_state = elim user_role [
  | none ↦ err not_authenticated
  | some r ↦
      if can_actor_trigger_state new_state (actor_of r) then ok (actor_of r) else err role_refused
]

-- Whether a row of the query on `order_assignments` has the user.
abbrev pub is_assigned : ℕ → Order → Bool
is_assigned user_id o = elim o.assignment [ none ↦ false | some a ↦ a.partner_user_id == user_id ]

-- The tests on an order that exists, for a role that is no admin's.
abbrev pub check_access : Option Role → ℕ → Order → Result Failure (Unit {0})
check_access (some customer) user_id o = if o.customer_id == user_id then ok tt else err no_access
check_access (some delivery) user_id o = if is_assigned user_id o then ok tt else err not_assigned
check_access _ user_id o = err insufficient_permissions

abbrev pub is_admin : Option Role → Bool
is_admin (some admin) = true
is_admin _ = false

-- `validateOrderOwnership`
unfoldable pub validate_order_ownership : ℕ → ℕ → Option Role → Store → Result Failure (Unit {0})
validate_order_ownership order_id user_id user_role s =
    if is_admin user_role then ok tt else elim (lookup order_id s.orders) [
      | none ↦ err order_not_found
      | some o ↦ check_access user_role user_id o
    ]

-- `requireOrderState`, with the current state that it attaches.
unfoldable pub require_order_state : List Status → ℕ → Store → Result Failure Status
require_order_state allowed order_id s = elim (lookup order_id s.orders) [
  | none ↦ err order_not_found
  | some o ↦ if includes allowed o.status then ok o.status else err wrong_state
]
