-- ===== src/Lifecycle/Timeline.antt =====
use meatvo_app.Base.{
  Bool, Bool-cases, List, Option, Option-cases, [], ap, arith, err, false, if◌then◌else◌, inl, inr,
  lookup, none, not, ok, refl, some, true, ℕ, ◌&&◌, ◌==◌, ◌∙◌, ◌∷◌, ◌≡◌,
}
use meatvo_app.Base.Result.{Result}
use meatvo_app.Status.Names.{
  Status, confirmed, delivered, includes, out_for_delivery, packed, packing_started,
  payment_pending, payment_verified, placed, rider_accepted, rider_assigned, rider_nearby,
  status_eq,
}
use meatvo_app.Machine.Roles.{Role, customer, role_eq}
use meatvo_app.Machine.Actions.{Action, get_available_actions}
use meatvo_app.Store.{Order, Store}
use meatvo_app.Lifecycle.Transition.{LifecycleError, order_not_found}

-- backend/src/services/orderLifecycle.service.js, `getOrderTimeline` and `getOrderActions`. A time is
-- named by the column it is read from; the name of the rider is left out.

pub data Stamp : Type 0 where
  created_at assigned_at : Stamp

pub record Entry : Type 0 where
  pub state : Status
  pub timestamp : Option Stamp
  pub completed : Bool
  pub current : Bool

-- `statusOrder`
abbrev pub status_order : List Status
status_order =
    payment_pending ∷ payment_verified ∷ confirmed ∷ packing_started ∷ packed ∷ rider_assigned
    ∷ rider_accepted ∷ out_for_delivery ∷ rider_nearby ∷ delivered ∷ []

-- The entries of the states from one on: those up to the current one, if it is among them, are
-- completed.
abbrev pub entries : Status → List Status → List Entry
entries now [] = []
entries now (t ∷ ts) =
    let rest = entries now ts in
    let reached = includes (t ∷ ts) now in
    record {
      state = t;
      timestamp = if reached then some created_at else none;
      completed = reached;
      current = status_eq now t;
    }
    ∷ rest

abbrev pub first_entry : Entry
first_entry = record {
  state = placed;
  timestamp = some created_at;
  completed = true;
  current = false;
}

-- The time of the assignment, at the entry of RIDER_ASSIGNED.
abbrev pub stamp_assigned : List Entry → List Entry
stamp_assigned [] = []
stamp_assigned (e ∷ es) =
    let rest = stamp_assigned es in
    if status_eq e.state rider_assigned
    then record e { timestamp = some assigned_at } ∷ es
    else e ∷ rest

-- `getOrderTimeline`
unfoldable pub get_order_timeline : ℕ → Store → Result LifecycleError (List Entry)
get_order_timeline order_id s = elim (lookup order_id s.orders) [
  | none ↦ err order_not_found
  | some o ↦
      let timeline = first_entry ∷ entries o.status status_order in
      ok (elim o.assignment [ none ↦ timeline | some _ ↦ stamp_assigned timeline ])
]

-- `getOrderActions`
unfoldable pub get_order_actions : ℕ → ℕ → Role → Store → List Action
get_order_actions order_id user_id user_role s = elim (lookup order_id s.orders) [
  | none ↦ []
  | some o ↦
      if role_eq user_role customer && not (o.customer_id == user_id)
      then []
      else get_available_actions o.status user_role
]

abbrev pub completed_states : List Entry → List Status
completed_states [] = []
completed_states (e ∷ es) =
    let rest = completed_states es in if e.completed then e.state ∷ rest else rest

stamp-completed : (es : List Entry) → completed_states (stamp_assigned es) ≡ completed_states es
stamp-completed [] = refl
stamp-completed (e ∷ es) = ground (arith, stamp-completed es)

-- The states up to one.
abbrev pub up_to : Status → List Status → List Status
up_to now [] = []
up_to now (t ∷ ts) = if status_eq now t then t ∷ [] else t ∷ up_to now ts

absent-entries :
    (now : Status) (ts : List Status)
    → includes ts now ≡ false
    → completed_states (entries now ts) ≡ []
absent-entries now [] h = refl
absent-entries now (t ∷ ts) h = ground (arith, absent-entries now ts)

-- No state occurs twice.
abbrev IsDistinct : List Status → Type 0
IsDistinct [] = Unit
IsDistinct (t ∷ ts) = ((u : Status) → status_eq u t ≡ true → includes ts u ≡ false) × IsDistinct ts

present-entries :
    (now : Status) (ts : List Status)
    → IsDistinct ts
    → includes ts now ≡ true
    → completed_states (entries now ts) ≡ up_to now ts
present-entries now [] d h = ground arith
present-entries now (t ∷ ts) d h = elim (Bool-cases (status_eq now t)) [
  | inl here ↦ rw here (ap (λ l. t ∷ l) (absent-entries now ts (d.0 now here)))
  | inr later ↦
      let deeper : includes ts now ≡ true = ground (arith, later, h) in
      rw (later, deeper) (ap (λ l. t ∷ l) (present-entries now ts d.1 deeper))
]

status_order-IsDistinct : IsDistinct status_order
status_order-IsDistinct = ground arith

-- The timeline of an order that exists is never refused. Its completed states are PLACED and those of
-- the list up to the order's status, and PLACED alone where the list does not have the status.
pub get_order_timeline_lem :
    (k : ℕ) (s : Store) (o : Order)
    → lookup k s.orders ≡ some o
    → (l : List Entry) × (get_order_timeline k s ≡ ok l)
      × (includes status_order o.status ≡ true
          → completed_states l ≡ placed ∷ up_to o.status status_order)
      × (includes status_order o.status ≡ false → completed_states l ≡ placed ∷ [])
unfolding get_order_timeline
get_order_timeline_lem k s o at =
    let l = first_entry ∷ entries o.status status_order in
    let known : includes status_order o.status ≡ true
        → completed_states l ≡ placed ∷ up_to o.status status_order =
      λ h.
        ap (λ ts. placed ∷ ts) (present-entries o.status status_order status_order-IsDistinct h) in
    let unknown : includes status_order o.status ≡ false → completed_states l ≡ placed ∷ [] =
      λ h. ap (λ ts. placed ∷ ts) (absent-entries o.status status_order h) in
    elim (Option-cases o.assignment) [
      | inl free ↦ (l, rw (at, free, get_order_timeline) refl, known, unknown)
      | inr (a, given) ↦ (
        stamp_assigned l,
        rw (at, given, get_order_timeline) refl,
        λ h. stamp-completed l ∙ known h,
        λ h. stamp-completed l ∙ unknown h,
      )
    ]
