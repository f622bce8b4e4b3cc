-- ===== src/Dispatch/Nearest.antt =====
use meatvo_app.Dispatch.World.{
  World, count_rider_active_orders, is_rider_at_load_cap, point_or_zero, write_orders,
}
-- The rider that `autoAcceptNearestStoreRider` of backend/src/services/assignment.service.js chooses.
use meatvo_app.Base.{
  All, Bool, Bool-cases, Map, Option, Option-cases, [], ap, arith, false, inl, inr, lookup,
  lookup-erase, lookup-update, none, refl, some, true, update, ℕ, ◌&&◌, ◌∙◌, ◌∷◌, ◌≡◌, ◌≢◌, ◌≤◌,
  ◌⊎◌,
}
use meatvo_app.Status.Names.{packed, status_eq}
use meatvo_app.Store.{Order, Partner, Point}
use meatvo_app.Dispatch.Batch.{Distance}
use meatvo_app.Dispatch.Eligible.{has_location, is_available}
use meatvo_app.Dispatch.Timeout.{
  AutoAccept, accept_order, accepted_by, auto_accept_nearest_store_rider, auto_reason,
  clear_assignment_timeout, is_closer, nearest_rider,
}

-- The rider is available at that distance from the store.
abbrev pub IsAt : Distance → Point → ℕ → ℕ → Map Partner → Type 0
IsAt distance store rider km [] = ⊥
IsAt distance store rider km ((id, p) ∷ m) =
    ((id ≡ rider) × (is_available p ≡ true) × (distance (point_or_zero p.position) store ≡ km))
    ⊎ IsAt distance store rider km m

-- No available rider is nearer to the store.
abbrev pub IsLeast : Distance → Point → ℕ → Map Partner → Type 0
IsLeast distance store km =
    All (λ e. is_available e.1 ≡ true → km ≤ distance (point_or_zero e.1.position) store)

-- The result is the best so far or a rider of the list, and at least as near as both.
abbrev IsBest : Distance → Point → Option (ℕ × ℕ) → ℕ → ℕ → Map Partner → Type 0
IsBest distance store best rider km m =
    ((best ≡ some (rider, km)) ⊎ IsAt distance store rider km m)
    × ((least : ℕ × ℕ) → best ≡ some least → km ≤ least.1)
    × IsLeast distance store km m

not_closer :
    {b : Bool} (best : Option (ℕ × ℕ)) (far km : ℕ)
    → b ≡ true
    → b && is_closer far best ≡ false
    → ((least : ℕ × ℕ) → best ≡ some least → km ≤ least.1)
    → km ≤ far
not_closer none far km free h under = ground arith
not_closer (some (r, least)) far km free h under =
    let le : km ≤ least = under (r, least) refl in ground arith

nearest_rider-IsBest :
    (distance : Distance) (store : Point) (best : Option (ℕ × ℕ)) (rider km : ℕ) (m : Map Partner)
    → nearest_rider distance store best m ≡ some (rider, km)
    → IsBest distance store best rider km m
nearest_rider-IsBest distance store best rider km [] h = (inl h, (λ least e. ground arith), tt)
nearest_rider-IsBest distance store best rider km ((id, p) ∷ m) h =
    let far = distance (point_or_zero p.position) store in
    elim (Bool-cases (is_available p && is_closer far best)) [
      | inl nearer ↦
          let (from, under, rest) =
            nearest_rider-IsBest distance store (some (id, far)) rider km m (ground arith) in
          let le : km ≤ far = under (id, far) refl in
          (
            elim from [
              | inl this ↦ inr (inl (ground arith, ground arith, ground arith))
              | inr later ↦ inr (inr later)
            ],
            λ least e. ground arith,
            (λ free. le, rest),
          )
      | inr further ↦
          let (from, under, rest) =
            nearest_rider-IsBest distance store best rider km m (ground arith) in
          (
            elim from [ inl this ↦ inl this | inr later ↦ inr (inr later) ],
            under,
            (λ free. not_closer best far km free further under, rest),
          )
    ]

auto_reason-refuses :
    (o : Order) (r : AutoAccept) (rider : ℕ) → auto_reason o ≡ some r → r ≢ accepted_by rider
unfolding auto_reason
auto_reason-refuses o r rider h e = ground arith

auto_parts :
    (distance : Distance) (k rider : ℕ) (w w' : World)
    → auto_accept_nearest_store_rider distance k w ≡ (w', accepted_by rider)
    → (o : Order) × (km : ℕ) × (lookup k w.store.orders ≡ some o)
      × (auto_reason o ≡ none)
      × (nearest_rider distance (point_or_zero w.center) none w.store.partners ≡ some (rider, km))
      × (w' ≡ clear_assignment_timeout k (write_orders (update k (accept_order rider)) w))
unfolding auto_accept_nearest_store_rider
auto_parts distance k rider w w' h = elim (Option-cases (lookup k w.store.orders)) [
  | inl gone ↦ ground arith
  | inr (o, at) ↦ elim (Option-cases (auto_reason o)) [
    | inr (r, blocked) ↦ absurd (auto_reason-refuses o r rider blocked (ground arith))
    | inl fine ↦ elim (Bool-cases (has_location (point_or_zero w.center))) [
      | inr nowhere ↦ ground arith
      | inl here ↦
          elim (Option-cases
            (nearest_rider distance (point_or_zero w.center) none w.store.partners)) [
              | inl nobody ↦ ground arith
              | inr ((n, km), best) ↦
                  elim (Bool-cases (is_rider_at_load_cap (count_rider_active_orders n w))) [
                    | inl full ↦ ground arith
                    | inr free ↦ (o, km, at, fine, ground arith, ground arith)
                  ]
            ]
    ]
  ]
]

-- An order whose rider lets the time pass goes, where it is accepted for a rider, to one who is online,
-- approved and at least as near to the store as every other rider who is online and approved; it was
-- PACKED and is then OUT_FOR_DELIVERY with that rider, and no timer of it is set.
pub auto_accept_nearest :
    (distance : Distance) (k rider : ℕ) (w w' : World)
    → auto_accept_nearest_store_rider distance k w ≡ (w', accepted_by rider)
    → (o : Order) × (km : ℕ) × (lookup k w.store.orders ≡ some o)
      × (status_eq o.status packed ≡ true)
      × IsAt distance (point_or_zero w.center) rider km w.store.partners
      × IsLeast distance (point_or_zero w.center) km w.store.partners
      × (lookup k w'.store.orders ≡ some (accept_order rider o))
      × (lookup k w'.timers ≡ none)
unfolding auto_reason
auto_accept_nearest distance k rider w w' h =
    let (o, km, at, fine, best, left) = auto_parts distance k rider w w' h in
    let (from, _, least) =
      nearest_rider-IsBest distance (point_or_zero w.center) none rider km w.store.partners best in
    (
      o,
      km,
      at,
      ground arith,
      elim from [ inl absent ↦ cc | inr there ↦ there ],
      least,
      ap (λ x. lookup k x.store.orders) left
          ∙ lookup-update k k (accept_order rider) w.store.orders
          ∙ ground arith,
      ap (λ x. lookup k x.timers) left ∙ lookup-erase k k w.timers ∙ ground arith,
    )
