-- ===== src/Routes/Moved.antt =====
use meatvo_app.Lifecycle.Entered.{earned, entered_row}
use meatvo_app.Base.{none, some, update, ℕ, ◌≡◌, ◌⊎◌}
use meatvo_app.Status.Names.{Status, cancelled, delivered, out_for_delivery}
use meatvo_app.Status.Assignment.{AssignmentStatus}
use meatvo_app.Machine.Roles.{Role, customer, delivery}
use meatvo_app.Store.{Assignment, Order, Store}
use meatvo_app.Routes.Orders.{User}
-- What `updateOrderStatus` of backend/src/modules/orders/orders.controller.js asks and writes, in terms
-- of the rows alone.
use mathlib.Core.Option

-- Who may set the status of an order to another.
pub record IsEntitled (u : User) (o : Order) (t : Status) : Type 0 where
  pub by_customer : u.role ≡ customer → (o.customer_id ≡ u.id) × (t ≡ cancelled)
  pub by_rider :
      u.role ≡ delivery
      → ((a : Assignment) × (o.assignment ≡ some a) × (a.partner_user_id ≡ u.id))
        × ((t ≡ out_for_delivery) ⊎ (t ≡ delivered))

-- The row that the request leaves: a delivery partner who delivers also ends the assignment.
abbrev pub moved_row : Role → Status → Order → Order
moved_row delivery delivered o = record o {
  status = delivered;
  assignment = elim o.assignment [
    | none ↦ none
    | some a ↦ some (record a { status = AssignmentStatus.delivered })
  ];
}
moved_row _ t o = entered_row t o

-- The store that the request leaves: only the order's row and the earnings may differ.
abbrev pub moved : User → ℕ → Status → Order → Store → Store
moved u k t o s = record s {
  orders = update k (moved_row u.role t) s.orders;
  earnings = earned k t o s.earnings;
}
