-- ===== src/Dispatch/Eligible.antt =====
use meatvo_app.Dispatch.World.{World, is_rider_at_load_cap, point_or_zero}
-- backend/src/services/assignment.service.js, `getFirstApprovedPartner`, `getDeliveryTarget` and
-- `getEligiblePartners`. A rider stands under the id of its user. The score of a rider
-- (backend/src/config/businessRules.js, `computeAssignmentScore`) is floating-point arithmetic on rates
-- and ratings and stays a parameter.
use meatvo_app.Base.{
  Bool, List, Map, Option, [], false, if◌then◌else◌, leb, lookup, ltb, none, not, some, ℕ, ◌&&◌,
  ◌+◌, ◌==◌, ◌∷◌,
}
use meatvo_app.Status.Names.{cancelled, delivered, includes}
use meatvo_app.Store.{Order, Partner, Point}
use meatvo_app.Dispatch.Batch.{Distance}

-- The score of a rider at a distance, with so many open orders.
abbrev pub Score : Type 0
Score = World → ℕ → ℕ → ℕ → ℕ

abbrev pub is_excluded : Option ℕ → ℕ → Bool
is_excluded none rider = false
is_excluded (some x) rider = x == rider

abbrev pub is_available : Partner → Bool
is_available p = p.is_online && p.approved

-- `getFirstApprovedPartner`: those that are online come first.
abbrev pub first_where : (ℕ → Partner → Bool) → Map Partner → Option ℕ
first_where f [] = none
first_where f ((id, p) ∷ m) = let rest = first_where f m in if f id p then some id else rest

unfoldable pub get_first_approved_partner : Option ℕ → World → Option ℕ
get_first_approved_partner exclude w =
    elim (first_where (λ id p. is_available p && not (is_excluded exclude id)) w.store.partners) [
      | some id ↦ some id
      | none ↦ first_where (λ id p. p.approved && not (is_excluded exclude id)) w.store.partners
    ]

-- `getDeliveryTarget`; an order's address that has no coordinates is not a number here.
abbrev pub get_delivery_target : ℕ → World → Point
get_delivery_target order_id w = elim (lookup order_id w.addresses) [
  | some p ↦ p
  | none ↦ point_or_zero w.center
]

-- The rider has the order's row of `order_assignments`, whatever its status, and the order is not over.
abbrev pub is_open_for : ℕ → Order → Bool
is_open_for rider o = elim o.assignment [
  | none ↦ false
  | some a ↦ a.partner_user_id == rider && not (includes (delivered ∷ cancelled ∷ []) o.status)
]

-- `activeOrders` of `getEligiblePartners`
abbrev pub count_open : ℕ → Map Order → ℕ
count_open rider [] = 0
count_open rider ((_, o) ∷ m) = (if is_open_for rider o then 1 else 0) + count_open rider m

pub record Candidate : Type 0 where
  pub rider : ℕ
  pub km : ℕ
  pub score : ℕ

abbrev pub has_location : Point → Bool
has_location p = not (p.lat == 0) && not (p.lng == 0)

-- The tests of the loop of `getEligiblePartners` on a rider at a distance.
unfoldable pub is_eligible : Point → ℕ → Option ℕ → World → ℕ → Partner → ℕ → Bool
is_eligible target max_distance exclude w rider p km =
    is_available p
    && (not (is_excluded exclude rider)
        && (has_location target
            && (leb km max_distance
                && not (is_rider_at_load_cap (count_open rider w.store.orders)))))

-- `filtered.sort((a, b) => b.score - a.score)`
abbrev pub insert_candidate : Candidate → List Candidate → List Candidate
insert_candidate c [] = c ∷ []
insert_candidate c (d ∷ ds) =
    let rest = insert_candidate c ds in if ltb c.score d.score then d ∷ rest else c ∷ d ∷ ds

abbrev pub collect : Distance → Score → Point → ℕ → Option ℕ → World → Map Partner → List Candidate
collect distance score target max_distance exclude w [] = []
collect distance score target max_distance exclude w ((rider, p) ∷ m) =
    let rest = collect distance score target max_distance exclude w m in
    let km = distance (point_or_zero p.position) target in
    if is_eligible target max_distance exclude w rider p km
    then insert_candidate
        (record {
          rider = rider;
          km = km;
          score = score w rider km (count_open rider w.store.orders);
        })
        rest
    else rest

-- `getEligiblePartners`
unfoldable pub get_eligible_partners : Distance → Score → ℕ → ℕ → Option ℕ → World → List Candidate
get_eligible_partners distance score order_id max_distance exclude w =
    collect distance score (get_delivery_target order_id w) max_distance exclude w w.store.partners
