-- ===== src/Lifecycle/Paid.antt =====
-- The relation between an order's payment and its status, and what the transitions of
-- backend/src/services/orderLifecycle.service.js and the payments of
-- backend/src/modules/payments/payment-success.js do to it.
use meatvo_app.Base.{
  ==_iff, Bool, Bool-cases, List, Option-cases, [], ap, arith, false, if◌then◌else◌, inl, inr,
  lookup, lookup-update, some, subst, sym, true, update, ℕ, ◌&&◌, ◌==◌, ◌∷◌, ◌≡◌,
}
use meatvo_app.Status.Names.{
  Status, cancelled, confirmed, delivered, failed_delivery, includes, out_for_delivery, packed,
  packing_started, placed, rider_accepted, rider_assigned, rider_nearby, rider_rejected, status_eq,
}
use meatvo_app.Machine.Rules.{can_transition}
use meatvo_app.Machine.Roles.{Role, admin, role_eq}
use meatvo_app.Store.{Order, Store}
use meatvo_app.Payment.Success.{confirm_row, is_unconfirmed}
use meatvo_app.Lifecycle.Transition.{
  enter_state, is_online, is_settled, payment_blocks, post_confirm_states,
}
use meatvo_app.Lifecycle.Guards.{IsAllowed, enter_row, orders-enter_state}

-- The states that an order takes only once it has been confirmed.
abbrev pub past_confirmation : List Status
past_confirmation =
    confirmed ∷ packing_started ∷ packed ∷ rider_assigned ∷ rider_accepted ∷ rider_rejected
    ∷ out_for_delivery ∷ rider_nearby ∷ delivered ∷ failed_delivery ∷ []

-- An online order past confirmation is settled.
abbrev pub IsPaid : Order → Type 0
IsPaid o =
    is_online o.payment_mode ≡ true
    → includes past_confirmation o.status ≡ true
    → is_settled o.payment_status ≡ true

from_past_confirmation :
    (s t : Status)
    → can_transition s t ≡ true
    → includes past_confirmation t ≡ true
    → includes post_confirm_states t ≡ false
    → includes past_confirmation s ≡ true
unfolding can_transition
from_past_confirmation placed t e p n = ground arith
from_past_confirmation _ t e p n = ground arith

post_confirm-not_cancelled :
    (t : Status) → includes post_confirm_states t ≡ true → status_eq t cancelled ≡ false
post_confirm-not_cancelled placed h = cc
post_confirm-not_cancelled _ h = ground arith

entered-past :
    (t : Status)
    → includes past_confirmation (if status_eq t rider_rejected then packed else t) ≡ true
    → includes past_confirmation t ≡ true
entered-past placed h = cc
entered-past _ h = ground arith

settled-by-guard :
    (o : Order) (t : Status) (r : Role) (override : Bool)
    → payment_blocks o t r override ≡ false
    → role_eq r admin && override ≡ false
    → is_online o.payment_mode ≡ true
    → includes post_confirm_states t ≡ true
    → is_settled o.payment_status ≡ true
unfolding payment_blocks
settled-by-guard o t r override open_guard no_override mode post =
    let live = post_confirm-not_cancelled t post in
    elim (Bool-cases (is_settled o.payment_status)) [
      | inl settled ↦ settled
      | inr unsettled ↦
          let e : true ≡ false = rw (mode, post, unsettled, live, no_override) at open_guard in cc
    ]

enter_row-IsPaid :
    (o : Order) (t : Status) (r : Role) (override : Bool)
    → IsAllowed o t r override
    → role_eq r admin && override ≡ false
    → IsPaid o
    → IsPaid (enter_row t o)
enter_row-IsPaid o t r override allowed no_override paid_before mode past =
    let past_t = entered-past t past in
    elim (Bool-cases (includes post_confirm_states t)) [
      | inl post ↦ settled-by-guard o t r override allowed.payment no_override mode post
      | inr not_post ↦
          paid_before mode (from_past_confirmation o.status t allowed.edge past_t not_post)
    ]

-- Every order of the store.
abbrev pub AllPaid : Store → Type 0
AllPaid s = (j : ℕ) (o : Order) → lookup j s.orders ≡ some o → IsPaid o

pub enter_state-AllPaid :
    (i : ℕ) (t : Status) (r : Role) (override : Bool) (s : Store) (q : Order)
    → lookup i s.orders ≡ some q
    → IsAllowed q t r override
    → role_eq r admin && override ≡ false
    → AllPaid s
    → AllPaid (enter_state i t s)
enter_state-AllPaid i t r override s q at allowed no_override all j o there =
    elim (Bool-cases (i == j)) [
      | inr differ ↦
          let before : lookup j s.orders ≡ some o = ground (arith, orders-enter_state i j t s) in
          all j o before
      | inl same ↦
          let e : i ≡ j = (==_iff i j).0 same in
          let row : o ≡ enter_row t q = ground (arith, e, orders-enter_state i j t s) in
          subst IsPaid (sym row) (enter_row-IsPaid q t r override allowed no_override (all i q at))
    ]

pub confirm_row-IsPaid : (o : Order) → IsPaid o → IsPaid (confirm_row o)
confirm_row-IsPaid o h mode past = elim (Bool-cases (is_unconfirmed o.status)) [
  | inl unconfirmed ↦ rw unconfirmed
  | inr confirmed_before ↦
      rw confirmed_before (h (rw confirmed_before at mode) (rw confirmed_before at past))
]

-- A change of one row that keeps `IsPaid` keeps it for all.
pub update-AllPaid :
    (i : ℕ) (f : Order → Order) (s s' : Store)
    → ((o : Order) → IsPaid o → IsPaid (f o))
    → s'.orders ≡ update i f s.orders
    → AllPaid s
    → AllPaid s'
update-AllPaid i f s s' keep rows all j o there =
    let found = lookup-update i j f s.orders in
    elim (Option-cases (lookup j s.orders)) [
      | inl gone ↦ absurd (ground (arith, ap (lookup j) rows))
      | inr (q, at) ↦ elim (Bool-cases (i == j)) [
        | inl same ↦
            let e : o ≡ f q = ground (arith, ap (lookup j) rows) in
            subst IsPaid (sym e) (keep q (all j q at))
        | inr differ ↦
            let e : o ≡ q = ground (arith, ap (lookup j) rows) in subst IsPaid (sym e) (all j q at)
      ]
    ]
