-- ===== src/Dispatch/Load.antt =====
-- How many orders a rider has while batches are assigned: `assignBatchToRider` of
-- backend/src/services/order-batcher.js and `assignWithBatching` of assignment.service.js.
use meatvo_app.Base.{
  Bool, Bool-cases, IsUnique, List, Map, [], ap, arith, if◌then◌else◌, inl, inr, length, lookup,
  lookup-update, none, refl, subst, suc, sym, take, update, zero, ℕ, ◌+◌, ◌<◌, ◌==◌, ◌∙◌, ◌∷◌, ◌≡◌,
  ◌≤◌,
}
use meatvo_app.Store.{Order}
use meatvo_app.Dispatch.World.{
  World, assigned_to, count_active, count_rider_active_orders, is_active_for, max_active_orders,
  upsert_assignment,
}
use meatvo_app.Dispatch.Batch.{assign_batch_to_rider, distinct, effective_max, upsert_all}
use meatvo_app.Dispatch.Windows.{assign_and_watch, on_assigned, schedule_assignment_timeout}

absent_update : (k : ℕ) (f : Order → Order) (m : Map Order) → lookup k m ≡ none → update k f m ≡ m
absent_update k f [] h = refl
absent_update k f ((j, o) ∷ m) h = elim (Bool-cases (j == k)) [
  | inl same ↦ ground arith
  | inr apart ↦ ground (arith, absent_update k f m)
]

pub update-IsUnique :
    (k : ℕ) (f : Order → Order) (m : Map Order) → IsUnique m → IsUnique (update k f m)
update-IsUnique k f [] h = tt
update-IsUnique k f ((j, o) ∷ m) (fresh, h) =
    (lookup-update k j f m ∙ ground arith, update-IsUnique k f m h)

abbrev pub one_if : Bool → ℕ
one_if b = if b then 1 else 0

-- The rows that a function writes are live for one rider at most.
abbrev pub IsFor : ℕ → (Order → Order) → Type 0
IsFor rider f = (r : ℕ) (o : Order) → one_if (is_active_for r (f o)) ≤ one_if (r == rider)

pub assigned-IsFor : (rider : ℕ) → IsFor rider (assigned_to rider)
assigned-IsFor rider r o = ground arith

-- Giving an order to a rider adds one at most to the rider's count, and none to that of another.
pub count_active-update :
    (k r rider : ℕ) (f : Order → Order) (m : Map Order)
    → IsFor rider f
    → IsUnique m
    → count_active r (update k f m) ≤ one_if (r == rider) + count_active r m
count_active-update k r rider f [] its h = omega arith
count_active-update k r rider f ((j, o) ∷ m) its (fresh, h) = elim (Bool-cases (j == k)) [
  | inr apart ↦ ground (arith, count_active-update k r rider f m its h)
  | inl same ↦
      let e : j ≡ k = ground arith in
      let rest : update k f m ≡ m = absent_update k f m (rw (sym e) fresh) in
      rw (same, rest) (omega (arith, its r o))
]

pub upsert_all-IsUnique :
    (ks : List ℕ) (rider : ℕ) (w : World)
    → IsUnique w.store.orders
    → IsUnique (upsert_all ks rider w).store.orders
upsert_all-IsUnique [] rider w h = h
upsert_all-IsUnique (k ∷ ks) rider w h =
    upsert_all-IsUnique ks rider (upsert_assignment k rider w)
      (update-IsUnique k (assigned_to rider) w.store.orders h)

-- Giving a rider orders adds to the rider's count as many at most as there are.
pub count-upsert_all :
    (r : ℕ) (ks : List ℕ) (rider : ℕ) (w : World)
    → IsUnique w.store.orders
    → count_rider_active_orders r (upsert_all ks rider w)
      ≤ (if r == rider then length ks else 0) + count_rider_active_orders r w
count-upsert_all r [] rider w h = omega arith
count-upsert_all r (k ∷ ks) rider w h =
    let first =
      count_active-update k r rider (assigned_to rider) w.store.orders (assigned-IsFor rider) h in
    let rest =
      count-upsert_all r ks rider (upsert_assignment k rider w)
        (update-IsUnique k (assigned_to rider) w.store.orders h) in
    ground arith

pub length-take : {A : Type 0} (n : ℕ) (xs : List A) → length (take n xs) ≤ n
length-take zero xs = omega arith
length-take (suc n) [] = omega arith
length-take (suc n) (x ∷ xs) = omega (arith, length-take n xs)

effective_max_le : (n : ℕ) → 0 < n → effective_max n ≤ n
effective_max_le n h = ground arith

on_assigned-store : (ks : List ℕ) (rider : ℕ) (w : World) → (on_assigned ks rider w).store ≡ w.store
on_assigned-store [] rider w = refl
on_assigned-store (k ∷ ks) rider w =
    on_assigned-store ks rider (schedule_assignment_timeout k rider w)

-- No rider has more live orders than the cap, and no order stands twice.
pub record IsCapped (w : World) : Type 0 where
  pub unique : IsUnique w.store.orders
  pub capped : (r : ℕ) → count_rider_active_orders r w ≤ max_active_orders

pub same-IsCapped : (w w' : World) → w'.store.orders ≡ w.store.orders → IsCapped w → IsCapped w'
same-IsCapped w w' e h = record {
  unique = subst IsUnique (sym e) h.unique;
  capped = λ r. rw e (h.capped r);
}

pub watch-IsCapped :
    (rider : ℕ) (ids : List ℕ) (size : ℕ) (w : World)
    → IsCapped w
    → effective_max size + count_rider_active_orders rider w ≤ max_active_orders
    → IsCapped (assign_and_watch rider ids size w).0
unfolding assign_batch_to_rider
watch-IsCapped rider ids size w h room =
    let ks = take (effective_max size) (distinct ids) in
    let given = upsert_all ks rider w in
    let after : IsCapped given = record {
      unique = upsert_all-IsUnique ks rider w h.unique;
      capped = λ r. elim (Bool-cases (r == rider)) [
        | inl same ↦
            let e : r ≡ rider = ground arith in
            ground (
              arith,
              count-upsert_all r ks rider w h.unique,
              length-take (effective_max size) (distinct ids),
            )
        | inr apart ↦ ground (arith, count-upsert_all r ks rider w h.unique, h.capped r)
      ];
    } in
    same-IsCapped given (on_assigned ks rider given)
      (ap (λ s. s.orders) (on_assigned-store ks rider given)) after
