-- ===== src/Status/Runs.antt =====
-- Sequences of statuses that the unified transition table of backend/src/utils/orderStatus.js admits,
-- and what every such sequence has to pass.
use meatvo_app.Base.{Bool, List, [], arith, false, inl, inr, refl, subst, true, ◌&&◌, ◌∷◌, ◌≡◌, ◌⊎◌}
use meatvo_app.Status.Names.{
  Status, cancelled, confirmed, delivered, failed_delivery, includes, named, on_the_way, other,
  out_for_delivery, packed, packing_started, payment_pending, payment_verified, picked_up, placed,
  refunded, rider_accepted, rider_assigned, rider_nearby, rider_rejected, status_eq, status_eq_iff,
}
use meatvo_app.Status.Table.{allows}

-- A run: from `s`, each status in turn is one that the table lets the last one move to.
unfoldable pub is_run : Status → List Status → Bool
is_run s [] = true
is_run s (t ∷ l) = allows s t && is_run t l

pub run_parts :
    (s t : Status) (l : List Status)
    → is_run s (t ∷ l) ≡ true
    → (allows s t ≡ true) × (is_run t l ≡ true)
unfolding is_run
run_parts s t l h = ground arith

abbrev pub last : Status → List Status → Status
last s [] = s
last s (t ∷ l) = last t l

-- Every edge that leaves the statuses marked by `before` enters `gate`.
abbrev pub IsGate : (Status → Bool) → Status → Type 0
IsGate before gate =
    (s t : Status)
    → before s ≡ true
    → allows s t ≡ true
    → (before t ≡ true) ⊎ (status_eq gate t ≡ true)

-- A run that leaves the marked statuses passes the gate.
pub passes_gate :
    (before : Status → Bool) (gate s : Status) (l : List Status)
    → IsGate before gate
    → before s ≡ true
    → is_run s l ≡ true
    → before (last s l) ≡ false
    → includes l gate ≡ true
passes_gate before gate s [] g b r e = cc
passes_gate before gate s (t ∷ l) g b r e =
    let (edge, rest) = run_parts s t l r in
    elim (g s t b edge) [
      | inr at ↦ rw at
      | inl still ↦ ground (arith, passes_gate before gate t l g still rest e)
    ]

abbrev before_confirm : Status → Bool
before_confirm = includes (placed ∷ payment_pending ∷ payment_verified ∷ cancelled ∷ refunded ∷ [])

abbrev before_pack : Status → Bool
before_pack = includes (
    placed ∷ payment_pending ∷ payment_verified ∷ confirmed ∷ packing_started ∷ cancelled ∷ refunded
    ∷ [])

abbrev before_dispatch : Status → Bool
before_dispatch = includes (
    placed ∷ payment_pending ∷ payment_verified ∷ confirmed ∷ packing_started ∷ packed
    ∷ rider_assigned ∷ rider_accepted ∷ rider_rejected ∷ cancelled ∷ refunded ∷ [])

-- The statuses of an order that has left the store.
abbrev pub left_store : List Status
left_store =
    out_for_delivery ∷ picked_up ∷ on_the_way ∷ rider_nearby ∷ delivered ∷ failed_delivery ∷ []

allows_refunded : (t : Status) → allows refunded t ≡ true → t ≡ refunded
unfolding allows
allows_refunded t h = ground (arith, status_eq_iff refunded t)

-- REFUNDED is final: a run of the unified table that begins there never leaves it.
pub refunded_final : (l : List Status) → is_run refunded l ≡ true → last refunded l ≡ refunded
refunded_final [] r = refl
refunded_final (t ∷ l) r =
    let (edge, rest) = run_parts refunded t l r in
    let e = allows_refunded t edge in
    rw e (refunded_final l (subst (λ u. is_run u l ≡ true) e rest))

named_step : (s t : Status) → includes named s ≡ true → allows s t ≡ true → includes named t ≡ true
unfolding allows
named_step (other u) t h e = cc
named_step placed t h e = ground arith
named_step _ t h e = ground arith

-- A run that begins at a named status ends at one.
pub named_run :
    (s : Status) (l : List Status)
    → includes named s ≡ true
    → is_run s l ≡ true
    → includes named (last s l) ≡ true
named_run s [] h r = h
named_run s (t ∷ l) h r =
    let (edge, rest) = run_parts s t l r in named_run t l (named_step s t h edge) rest
