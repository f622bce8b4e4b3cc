-- ===== src/Lifecycle/Entered.antt =====
use meatvo_app.Base.{
  Bool, Bool-cases, List, Map, Option, Option-cases, [], ap, arith, false, inl, inr, lookup,
  lookup-update, none, refl, some, true, update, ℕ, ◌||◌, ◌∷◌, ◌≡◌, ◌⊎◌,
}
use meatvo_app.Status.Names.{
  Status, cancelled, confirmed, delivered, includes, out_for_delivery, packed, packing_started,
  placed, rider_accepted, rider_assigned, rider_rejected, status_eq,
}
use meatvo_app.Machine.Roles.{Role, admin, role_eq}
use meatvo_app.Machine.Rules.{can_actor_trigger_state, can_transition}
use meatvo_app.Store.{
  Assignment, Order, PaymentMode, PaymentStatus, ReconStatus, Store, completed, not_required,
  online,
}
use meatvo_app.Lifecycle.Transition.{
  cancel_live, enter_state, is_live, is_online, is_settled,
  is_weight_reconciliation_complete_for_dispatch, payment_blocks, post_confirm_states,
  weight_blocks,
}
use meatvo_app.Lifecycle.Guards.{IsAllowed}
use meatvo_app.Status.Assignment.{AssignmentStatus}
use mathlib.Core.Option

-- When `transitionOrderState` of backend/src/services/orderLifecycle.service.js succeeds and what it
-- writes, in terms of the rows alone.

-- The states that an online order enters only once it is settled.
abbrev pub needs_payment : Status → Bool
needs_payment confirmed = true
needs_payment packing_started = true
needs_payment packed = true
needs_payment rider_assigned = true
needs_payment rider_accepted = true
needs_payment out_for_delivery = true
needs_payment delivered = true
needs_payment _ = false

-- What an order, a new state and an actor need.
pub record IsOpen (o : Order) (t : Status) (r : Role) (override : Bool) : Type 0 where
  pub edge : can_transition o.status t ≡ true
  pub actor : can_actor_trigger_state t r ≡ true
  pub payment :
      o.payment_mode ≡ online
      → needs_payment t ≡ true
      → ((o.payment_status ≡ PaymentStatus.paid)
          ⊎ (o.payment_status ≡ PaymentStatus.payment_verified))
        ⊎ ((r ≡ admin) × (override ≡ true))
  pub weights :
      (t ≡ packed) ⊎ (t ≡ out_for_delivery)
      → (o.recon_status ≡ completed) ⊎ (o.recon_status ≡ not_required)

needs_payment-includes :
    (t : Status)
    → (includes post_confirm_states t ≡ needs_payment t)
      × (needs_payment t ≡ true → status_eq t cancelled ≡ false)
needs_payment-includes placed = (refl, λ h. ground arith)
needs_payment-includes _ = (refl, λ h. ground arith)

settled_cases :
    (p : PaymentStatus)
    → is_settled p ≡ true
    → (p ≡ PaymentStatus.paid) ⊎ (p ≡ PaymentStatus.payment_verified)
settled_cases PaymentStatus.paid h = inl refl
settled_cases PaymentStatus.payment_verified h = inr refl
settled_cases p h = absurd (ground arith)

admin_is : (r : Role) → role_eq r admin ≡ true → r ≡ admin
admin_is admin h = refl
admin_is r h = absurd (ground arith)

online_is : (m : PaymentMode) → is_online m ≡ true → m ≡ online
online_is online h = refl
online_is m h = absurd (ground arith)

complete_is :
    (c : ReconStatus)
    → is_weight_reconciliation_complete_for_dispatch c ≡ true
    → (c ≡ completed) ⊎ (c ≡ not_required)
unfolding is_weight_reconciliation_complete_for_dispatch
complete_is completed h = inl refl
complete_is not_required h = inr refl
complete_is c h = absurd (ground arith)

pub IsAllowed-IsOpen :
    (o : Order) (t : Status) (r : Role) (override : Bool)
    → IsAllowed o t r override
    → IsOpen o t r override
unfolding payment_blocks weight_blocks
IsAllowed-IsOpen o t r override h = record {
  edge = h.edge;
  actor = h.actor;
  payment = λ mode late.
      let (same, kept) = needs_payment-includes t in
      let apart = kept late in
      elim (Bool-cases (is_settled o.payment_status)) [
        | inl settled ↦ inl (settled_cases o.payment_status settled)
        | inr unsettled ↦
            let by : role_eq r admin ≡ true = ground (arith, h.payment, same, mode) in
            inr (admin_is r by, ground (arith, h.payment, same, mode))
      ];
  weights = λ dispatch.
      complete_is o.recon_status
        (elim dispatch [ inl e ↦ ground (arith, h.weights) | inr e ↦ ground (arith, h.weights) ]);
}

dispatched :
    (t : Status)
    → status_eq t packed || status_eq t out_for_delivery ≡ true
    → (t ≡ packed) ⊎ (t ≡ out_for_delivery)
dispatched packed h = inl refl
dispatched out_for_delivery h = inr refl
dispatched placed h = absurd (ground arith)
dispatched t h = absurd (ground arith)

pub IsOpen-IsAllowed :
    (o : Order) (t : Status) (r : Role) (override : Bool)
    → IsOpen o t r override
    → IsAllowed o t r override
unfolding payment_blocks weight_blocks is_weight_reconciliation_complete_for_dispatch
IsOpen-IsAllowed o t r override h = record {
  edge = h.edge;
  actor = h.actor;
  payment = elim (Bool-cases (is_online o.payment_mode)) [
    | inr offline ↦ ground arith
    | inl mode ↦ elim (Bool-cases (needs_payment t)) [
      | inr early ↦ ground (arith, needs_payment-includes t)
      | inl late ↦ elim (h.payment (online_is o.payment_mode mode) late) [
        | inl (inl in_full) ↦ ground arith
        | inl (inr verified) ↦ ground arith
        | inr (by, forced) ↦ ground arith
      ]
    ]
  ];
  weights = elim (Bool-cases (status_eq t packed || status_eq t out_for_delivery)) [
    | inr apart ↦ ground arith
    | inl dispatch ↦ elim (h.weights (dispatched t dispatch)) [
      | inl done ↦ ground arith
      | inr needless ↦ ground arith
    ]
  ];
}

-- A rider who holds the order loses it.
abbrev pub released : AssignmentStatus → AssignmentStatus
released AssignmentStatus.assigned = AssignmentStatus.cancelled
released AssignmentStatus.accepted = AssignmentStatus.cancelled
released AssignmentStatus.picked = AssignmentStatus.cancelled
released a = a

abbrev pub release : Assignment → Assignment
release a = record a { status = released a.status }

-- The row that a transition leaves: an order that its rider rejects is PACKED again, and the rider of a
-- cancelled one is released.
abbrev pub entered_row : Status → Order → Order
entered_row rider_rejected o = record o { status = packed }
entered_row cancelled o = record o {
  status = cancelled;
  assignment = Option.map release o.assignment;
}
entered_row t o = record o { status = t }

-- A delivered order is written to the earnings of its rider.
abbrev pub earned : ℕ → Status → Order → List (ℕ × ℕ) → List (ℕ × ℕ)
earned i delivered o earnings = elim o.assignment [
  | none ↦ earnings
  | some a ↦ (i, a.partner_user_id) ∷ earnings
]
earned i t o earnings = earnings

-- The store that a transition leaves: only the order's row and the earnings may differ.
abbrev pub entered : ℕ → Status → Order → Store → Store
entered i t o s = record s {
  orders = update i (entered_row t) s.orders;
  earnings = earned i t o s.earnings;
}

update_twice :
    (i : ℕ) (f g h : Order → Order) (m : Map Order)
    → ((o : Order) → g (f o) ≡ h o)
    → update i g (update i f m) ≡ update i h m
update_twice i f g h [] same = refl
update_twice i f g h ((j, o) ∷ m) same = ground (arith, same o, update_twice i f g h m same)

cancel_live-released : (a : Option Assignment) → Option.map cancel_live a ≡ Option.map release a
cancel_live-released none = refl
cancel_live-released (some a) = elim (Bool-cases (is_live a.status)) [
  | inl held ↦ ground arith
  | inr idle ↦ ground arith
]

pub enter_state-entered :
    (i : ℕ) (t : Status) (s : Store) (o : Order)
    → lookup i s.orders ≡ some o
    → enter_state i t s ≡ entered i t o s
unfolding enter_state
enter_state-entered i rider_rejected s o at =
    ap (λ m. record s { orders = m })
      (update_twice i (λ q. record q { status = rider_rejected })
        (λ q. record q { status = packed }) (entered_row rider_rejected) s.orders (λ q. refl))
enter_state-entered i cancelled s o at =
    ap (λ m. record s { orders = m })
      (update_twice i (λ q. record q { status = cancelled })
        (λ q. record q { assignment = Option.map cancel_live q.assignment }) (entered_row cancelled)
        s.orders
        (λ q.
          ap (λ a. record q { status = cancelled; assignment = a })
            (cancel_live-released q.assignment)))
enter_state-entered i delivered s o at = elim (Option-cases o.assignment) [
  | inl unassigned ↦
      ground (arith, at, lookup-update i i (λ q. record q { status = delivered }) s.orders)
  | inr (a, there) ↦
      ground (arith, at, lookup-update i i (λ q. record q { status = delivered }) s.orders)
]
enter_state-entered i t s o at = refl
