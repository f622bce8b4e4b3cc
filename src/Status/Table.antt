-- ===== src/Status/Table.antt =====
-- backend/src/utils/orderStatus.js, lines 40 to 85: normalisation of a status text, the unified
-- transition table and its test.
use meatvo_app.Base.{
  Bool, List, Option, Text, [], codes, false, if◌then◌else◌, none, or_else, refl, some, text_eq,
  to_upper, trim, true, ◌||◌, ◌∷◌, ◌≡◌,
}
use meatvo_app.Status.Names.{
  Status, cancelled, confirmed, delivered, failed, failed_delivery, includes, named, of_text,
  on_the_way, other, out_for_delivery, packed, packing_started, payment_pending, payment_verified,
  picked_up, placed, refunded, rider_accepted, rider_assigned, rider_nearby, rider_rejected,
  status_eq, to_text,
}

-- LEGACY_STATUS_MIGRATION
abbrev legacy : Text → Option Text
legacy t = if text_eq t (codes "ON_WAY") then some (codes "ON_THE_WAY") else none

-- `normalizeStatus`; the empty text stands for every falsy value.
unfoldable pub normalize_status : Text → Option Status
unfolding trim to_upper of_text
normalize_status [] = none
normalize_status (c ∷ s) =
    let normalized = to_upper (trim (c ∷ s)) in
    some (of_text (or_else (legacy normalized) normalized))

-- ORDER_STATUS_TRANSITIONS
abbrev pub transitions : Status → Option (List Status)
transitions placed = some (payment_pending ∷ confirmed ∷ cancelled ∷ [])
transitions payment_pending = some (payment_verified ∷ cancelled ∷ [])
transitions payment_verified = some (confirmed ∷ [])
transitions confirmed = some (packing_started ∷ packed ∷ cancelled ∷ [])
transitions packing_started = some (packed ∷ cancelled ∷ [])
transitions packed = some (rider_assigned ∷ out_for_delivery ∷ cancelled ∷ [])
transitions rider_assigned = some (rider_accepted ∷ rider_rejected ∷ packed ∷ [])
transitions rider_rejected = some (packed ∷ [])
transitions rider_accepted = some (out_for_delivery ∷ [])
transitions out_for_delivery =
    some (picked_up ∷ on_the_way ∷ rider_nearby ∷ delivered ∷ failed_delivery ∷ [])
transitions picked_up = some (on_the_way ∷ rider_nearby ∷ delivered ∷ failed_delivery ∷ [])
transitions on_the_way = some (rider_nearby ∷ delivered ∷ failed_delivery ∷ [])
transitions rider_nearby = some (delivered ∷ failed_delivery ∷ [])
transitions delivered = some (refunded ∷ [])
transitions failed_delivery = some (packed ∷ refunded ∷ cancelled ∷ [])
transitions cancelled = some (refunded ∷ [])
transitions refunded = some []
transitions failed = some (refunded ∷ [])
transitions (other t) = none

-- `transitions[from]?.has(to) || false`
unfoldable pub has_edge : Status → Status → Bool
has_edge s t = elim (transitions s) [ none ↦ false | some l ↦ includes l t ]

-- `canTransition(ORDER_STATUS_TRANSITIONS, from, to)` on the normalised statuses.
unfoldable pub allows : Status → Status → Bool
unfolding has_edge
allows s t = status_eq s t || has_edge s t

-- `canTransition` itself, on texts.
unfoldable pub can_transition : Text → Text → Bool
unfolding allows
can_transition s t = elim (normalize_status s) [
  | none ↦ false
  | some from ↦ elim (normalize_status t) [ none ↦ false | some to ↦ allows from to ]
]

-- Every named status is the normal form of its own text.
pub normalize_status-to_text :
    (s : Status) → includes named s ≡ true → normalize_status (to_text s) ≡ some s
unfolding normalize_status
normalize_status-to_text (other t) h = cc
normalize_status-to_text placed h = refl
normalize_status-to_text _ h = refl

-- The test on two named texts is the test on the statuses.
pub can_transition-to_text :
    (s t : Status)
    → includes named s ≡ true
    → includes named t ≡ true
    → can_transition (to_text s) (to_text t) ≡ allows s t
unfolding can_transition
can_transition-to_text s t hs ht =
    rw (normalize_status-to_text s hs, normalize_status-to_text t ht, can_transition)
