-- ===== src/Dispatch/Closed.antt =====
-- What happens to the orders of a batch window when it closes: `finalizeBatchWindow` of
-- backend/src/services/order-batcher.js.
use mathlib.Core.Option
use meatvo_app.Base.{
  Bool, Bool-cases, List, Option, [], ap, arith, erase, false, filter, if◌then◌else◌, inl, inr,
  length, lookup, lookup-erase, lookup-insert, lookup-update, ltb, none, not, refl, some, suc, take,
  true, zero, ℕ, ◌&&◌, ◌++◌, ◌==◌, ◌||◌, ◌∙◌, ◌∷◌, ◌≡◌, ◌≤◌,
}
use meatvo_app.Store.{Order}
use meatvo_app.Dispatch.World.{Window, World, assigned_to, upsert_assignment}
use meatvo_app.Dispatch.Batch.{
  Distance, assign_batch_to_rider, distinct, effective_max, get_batch_for_rider, has, upsert_all,
}
use meatvo_app.Dispatch.Windows.{
  finalize_batch_window, merge, on_assigned, schedule_assignment_timeout,
}

filter-append : (p : ℕ → Bool) (xs ys : List ℕ) → filter p (xs ++ ys) ≡ filter p xs ++ filter p ys
filter-append p [] ys = refl
filter-append p (x ∷ xs) ys = ground (arith, filter-append p xs ys)

append_assoc : (xs ys zs : List ℕ) → (xs ++ ys) ++ zs ≡ xs ++ (ys ++ zs)
append_assoc [] ys zs = refl
append_assoc (x ∷ xs) ys zs = ap (λ l. x ∷ l) (append_assoc xs ys zs)

append_nil : (xs : List ℕ) → xs ≡ xs ++ []
append_nil [] = refl
append_nil (x ∷ xs) = ap (λ l. x ∷ l) (append_nil xs)

distinct-append : (xs ys : List ℕ) → (e : List ℕ) × (distinct (xs ++ ys) ≡ distinct xs ++ e)
distinct-append [] ys = (distinct ys, refl)
distinct-append (x ∷ xs) ys =
    let (e, h) = distinct-append xs ys in
    let p : ℕ → Bool = λ j. not (j == x) in
    (filter p e, ap (λ l. x ∷ l) (ap (filter p) h ∙ filter-append p (distinct xs) e))

merge-append :
    (size : ℕ) (merged scanned : List ℕ) → (e : List ℕ) × (merge size merged scanned ≡ merged ++ e)
merge-append size merged [] = ([], append_nil merged)
merge-append size merged (k ∷ scanned) =
    elim (Bool-cases (not (has merged k) && ltb (length merged) size)) [
      | inl more ↦
          let (e, h) = merge-append size (merged ++ (k ∷ [])) scanned in
          (k ∷ e, rw more (h ∙ append_assoc merged (k ∷ []) e))
      | inr no_more ↦ let (e, h) = merge-append size merged scanned in (e, rw no_more h)
    ]

take-append-has :
    (n k : ℕ) (xs ys : List ℕ) → has (take n xs) k ≡ true → has (take n (xs ++ ys)) k ≡ true
take-append-has zero k xs ys h = h
take-append-has (suc n) k [] ys h = cc
take-append-has (suc n) k (x ∷ xs) ys h = ground (arith, take-append-has n k xs ys)

take-append-front :
    (n k : ℕ) (xs ys : List ℕ)
    → n ≤ length xs
    → has xs k ≡ false
    → has (take n (xs ++ ys)) k ≡ false
take-append-front zero k xs ys le h = refl
take-append-front (suc n) k [] ys le h = absurd (omega arith)
take-append-front (suc n) k (x ∷ xs) ys le h = ground (arith, take-append-front n k xs ys)

upsert_all-rows :
    (j : ℕ) (ks : List ℕ) (rider : ℕ) (w : World)
    → lookup j (upsert_all ks rider w).store.orders ≡ (
        if has ks j
        then Option.map (assigned_to rider) (lookup j w.store.orders)
        else lookup j w.store.orders)
upsert_all-rows j [] rider w = refl
upsert_all-rows j (k ∷ ks) rider w =
    upsert_all-rows j ks rider (upsert_assignment k rider w)
    ∙ again (lookup j w.store.orders) (has ks j) (k == j)
        (lookup-update k j (assigned_to rider) w.store.orders)
  where
    again :
        (row : Option Order) (b c : Bool) {row' : Option Order}
        → row' ≡ (if c then Option.map (assigned_to rider) row else row)
        → (if b then Option.map (assigned_to rider) row' else row')
          ≡ (if c || b then Option.map (assigned_to rider) row else row)
    again none b c e = ground arith
    again (some o) b c e = ground arith

on_assigned-timers :
    (j : ℕ) (ks : List ℕ) (rider : ℕ) (w : World)
    → has ks j ≡ false
    → lookup j (on_assigned ks rider w).timers ≡ lookup j w.timers
on_assigned-timers j [] rider w h = refl
on_assigned-timers j (k ∷ ks) rider w h =
    on_assigned-timers j ks rider (schedule_assignment_timeout k rider w) (ground arith)
    ∙ ground (arith, lookup-insert k j rider w.timers)

-- The orders that a window assigns when it closes, of which those that waited in it come first.
abbrev pub closing : ℕ → List ℕ → List ℕ
closing size ids = take (effective_max size) (distinct ids)

upsert_all-timers :
    (ks : List ℕ) (rider : ℕ) (w : World) → (upsert_all ks rider w).timers ≡ w.timers
upsert_all-timers [] rider w = refl
upsert_all-timers (k ∷ ks) rider w = upsert_all-timers ks rider (upsert_assignment k rider w)

on_assigned-orders :
    (ks : List ℕ) (rider : ℕ) (w : World) → (on_assigned ks rider w).store.orders ≡ w.store.orders
on_assigned-orders [] rider w = refl
on_assigned-orders (k ∷ ks) rider w =
    on_assigned-orders ks rider (schedule_assignment_timeout k rider w)

on_assigned-windows :
    (ks : List ℕ) (rider : ℕ) (w : World) → (on_assigned ks rider w).windows ≡ w.windows
on_assigned-windows [] rider w = refl
on_assigned-windows (k ∷ ks) rider w =
    on_assigned-windows ks rider (schedule_assignment_timeout k rider w)

upsert_all-windows :
    (ks : List ℕ) (rider : ℕ) (w : World) → (upsert_all ks rider w).windows ≡ w.windows
upsert_all-windows [] rider w = refl
upsert_all-windows (k ∷ ks) rider w = upsert_all-windows ks rider (upsert_assignment k rider w)

-- A window that closes assigns orders whose list starts with those that waited.
finalize_parts :
    (distance : Distance) (anchor : ℕ) (w : World) (v : Window)
    → lookup anchor w.windows ≡ some v
    → (e : List ℕ) × ((finalize_batch_window distance anchor w).0 ≡ (
        let w1 : World = record w { windows = erase anchor w.windows } in
        let ks = take (effective_max v.max_size) (distinct v.order_ids ++ e) in
        on_assigned ks v.rider (upsert_all ks v.rider w1)))
unfolding finalize_batch_window assign_batch_to_rider
finalize_parts distance anchor w v at =
    let w1 : World = record w { windows = erase anchor w.windows } in
    let (e, merged) =
      merge-append v.max_size v.order_ids (get_batch_for_rider distance anchor v.max_size w1) in
    let (e', unique) = distinct-append v.order_ids e in
    (
      e',
      rw (at, finalize_batch_window)
          (ap
            (λ l.
              let ks = take (effective_max v.max_size) l in
              on_assigned ks v.rider (upsert_all ks v.rider w1))
            (ap distinct merged ∙ unique)),
    )

-- When a batch window closes, each of the orders that wait in it, as many as its size admits, is
-- assigned to the window's rider, whatever its status and whatever assignment it has by then.
pub finalize_assigns_waiting :
    (distance : Distance) (anchor k : ℕ) (w : World) (v : Window) (o : Order)
    → lookup anchor w.windows ≡ some v
    → has (closing v.max_size v.order_ids) k ≡ true
    → lookup k w.store.orders ≡ some o
    → lookup k (finalize_batch_window distance anchor w).0.store.orders
      ≡ some (assigned_to v.rider o)
finalize_assigns_waiting distance anchor k w v o at waits there =
    let (e, left) = finalize_parts distance anchor w v at in
    let w1 : World = record w { windows = erase anchor w.windows } in
    let ks = take (effective_max v.max_size) (distinct v.order_ids ++ e) in
    let within = take-append-has (effective_max v.max_size) k (distinct v.order_ids) e waits in
    ap (λ x. lookup k x.store.orders) left
    ∙ ap (lookup k) (on_assigned-orders ks v.rider (upsert_all ks v.rider w1))
    ∙ upsert_all-rows k ks v.rider w1
    ∙ ground arith

-- When a batch window closes, an order that waits in it behind as many others as its size admits is left
-- without an assignment: its row is as before, no timer is set for it, and the window is gone.
pub finalize_drops_rest :
    (distance : Distance) (anchor k : ℕ) (front back : List ℕ) (w : World) (v : Window)
    → lookup anchor w.windows ≡ some v
    → distinct v.order_ids ≡ front ++ (k ∷ back)
    → has front k ≡ false
    → effective_max v.max_size ≤ length front
    → (lookup k (finalize_batch_window distance anchor w).0.store.orders ≡ lookup k w.store.orders)
      × (lookup k (finalize_batch_window distance anchor w).0.timers ≡ lookup k w.timers)
      × (lookup anchor (finalize_batch_window distance anchor w).0.windows ≡ none)
finalize_drops_rest distance anchor k front back w v at order fresh full =
    let (e, left) = finalize_parts distance anchor w v at in
    let w1 : World = record w { windows = erase anchor w.windows } in
    let m = effective_max v.max_size in
    let ks = take m (distinct v.order_ids ++ e) in
    let given = upsert_all ks v.rider w1 in
    let out : has ks k ≡ false =
      ap (λ l. has (take m (l ++ e)) k) order
      ∙ ap (λ l. has (take m l) k) (append_assoc front (k ∷ back) e)
      ∙ take-append-front m k front ((k ∷ back) ++ e) full fresh in
    (
      ap (λ x. lookup k x.store.orders) left
          ∙ ap (lookup k) (on_assigned-orders ks v.rider given)
          ∙ upsert_all-rows k ks v.rider w1
          ∙ ground arith,
      ap (λ x. lookup k x.timers) left
          ∙ on_assigned-timers k ks v.rider given out
          ∙ ap (lookup k) (upsert_all-timers ks v.rider w1),
      ap (λ x. lookup anchor x.windows) left
          ∙ ap (lookup anchor) (on_assigned-windows ks v.rider given)
          ∙ ap (lookup anchor) (upsert_all-windows ks v.rider w1)
          ∙ lookup-erase anchor anchor w.windows
          ∙ ground arith,
    )
