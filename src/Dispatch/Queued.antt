-- ===== src/Dispatch/Queued.antt =====
use meatvo_app.Base.{
  Bool, Bool-cases, List, Map, Option, Option-cases, [], ap, arith, false, if◌then◌else◌, inl, inr,
  length, ltb, none, not, refl, some, subst, suc, sym, take, true, zero, ℕ, ◌&&◌, ◌++◌, ◌<◌, ◌==◌,
  ◌∙◌, ◌∷◌, ◌≡◌, ◌≤◌,
}
use meatvo_app.Status.Names.{packed, status_eq}
use meatvo_app.Store.{Order}
use meatvo_app.Dispatch.World.{World, has_live_assignment}
use meatvo_app.Dispatch.Batch.{Distance, min}
use meatvo_app.Dispatch.Eligible.{Score}
use meatvo_app.Dispatch.Queue.{
  Times, ends_queue, get_dispatch_queue_orders, in_order, is_ahead, is_queued, is_trigger,
  process_dispatch_queue, process_orders, put, queue_round, queued_ids, waits_for_resolution,
}
use meatvo_app.Dispatch.Load.{IsCapped}
use meatvo_app.Dispatch.Calls.{assign-IsCapped}

-- The queue of backend/src/services/dispatch.service.js: its order, and the cap on the orders of a rider.

is_ahead-total : (now : ℕ) (a b : Times) → is_ahead now a b ≡ false → is_ahead now b a ≡ true
unfolding is_ahead
is_ahead-total now a b h = ground arith

-- Every order of the list is ahead of the one behind it, or equal to it.
abbrev pub IsInOrder : ℕ → (ℕ → Times) → List ℕ → Type 0
IsInOrder now times [] = Unit
IsInOrder now times (k ∷ []) = Unit
IsInOrder now times (k ∷ j ∷ js) =
    (is_ahead now (times k) (times j) ≡ true) × IsInOrder now times (j ∷ js)

put-IsInOrder :
    (now : ℕ) (times : ℕ → Times) (k : ℕ) (js : List ℕ)
    → IsInOrder now times js
    → IsInOrder now times (put now times k js)
put-IsInOrder now times k [] h = tt
put-IsInOrder now times k (j ∷ []) h = elim (Bool-cases (is_ahead now (times k) (times j))) [
  | inl ahead ↦ rw ahead (ahead, tt)
  | inr behind ↦ rw behind (is_ahead-total now (times k) (times j) behind, tt)
]
put-IsInOrder now times k (j ∷ i ∷ is) h =
    let rest = put-IsInOrder now times k (i ∷ is) h.1 in
    elim (Bool-cases (is_ahead now (times k) (times j))) [
      | inl ahead ↦ rw ahead (ahead, h)
      | inr behind ↦ elim (Bool-cases (is_ahead now (times k) (times i))) [
        | inl before ↦
            rw (behind, before) (is_ahead-total now (times k) (times j) behind, (before, h.1))
        | inr after ↦
            let step : put now times k (i ∷ is) ≡ i ∷ put now times k is = rw after refl in
            rw (behind, after) (h.0, subst (IsInOrder now times) step rest)
      ]
    ]

in_order-IsInOrder :
    (now : ℕ) (times : ℕ → Times) (ks : List ℕ) → IsInOrder now times (in_order now times ks)
in_order-IsInOrder now times [] = tt
in_order-IsInOrder now times (k ∷ ks) =
    put-IsInOrder now times k (in_order now times ks) (in_order-IsInOrder now times ks)

-- The order waits in the table: it is PACKED, has no live assignment and no failure to be resolved.
abbrev pub waits : Order → Bool
waits o =
    status_eq o.status packed
    && (not (has_live_assignment o) && not (waits_for_resolution o.failure.resolution))

queued-waits : (o : Order) → is_queued o ≡ waits o
unfolding is_queued
queued-waits o = refl

length-take : (n : ℕ) (ks : List ℕ) → length (take n ks) ≡ min n (length ks)
length-take zero ks = ground arith
length-take (suc n) [] = ground arith
length-take (suc n) (k ∷ ks) = ground (arith, length-take n ks)

-- Of two orders of the queue the first was packed earlier, is the only one with a time of packing, or
-- has the same time of packing (or none) and was created no later.
pub data IsServedBefore (a b : Times) : Type 0 where
  packed_earlier :
      (p q : ℕ) → a.packed_at ≡ some p → b.packed_at ≡ some q → p < q → IsServedBefore a b
  packed_only : (p : ℕ) → a.packed_at ≡ some p → b.packed_at ≡ none → IsServedBefore a b
  created_earlier : a.packed_at ≡ b.packed_at → a.created_at ≤ b.created_at → IsServedBefore a b

ahead-IsServedBefore : (now : ℕ) (a b : Times) → is_ahead now a b ≡ true → IsServedBefore a b
unfolding is_ahead
ahead-IsServedBefore now a b h = elim (Option-cases a.packed_at) [
  | inl unpacked ↦ elim (Option-cases b.packed_at) [
    | inl both ↦ created_earlier (unpacked ∙ sym both) (ground arith)
    | inr (q, e) ↦ absurd (ground arith)
  ]
  | inr (p, d) ↦ elim (Option-cases b.packed_at) [
    | inl only ↦ packed_only p d only
    | inr (q, e) ↦ elim (Bool-cases (ltb p q)) [
      | inl earlier ↦ packed_earlier p q d e (ground arith)
      | inr later ↦
          let same : p ≡ q = ground arith in
          created_earlier (d ∙ ap some same ∙ sym e) (ground arith)
    ]
  ]
]

-- Every order of the list is served before the one behind it.
abbrev pub IsServed : (ℕ → Times) → List ℕ → Type 0
IsServed times [] = Unit
IsServed times (k ∷ []) = Unit
IsServed times (k ∷ j ∷ js) = IsServedBefore (times k) (times j) × IsServed times (j ∷ js)

order-IsServed :
    (now : ℕ) (times : ℕ → Times) (ks : List ℕ) → IsInOrder now times ks → IsServed times ks
order-IsServed now times [] h = tt
order-IsServed now times (k ∷ []) h = tt
order-IsServed now times (k ∷ j ∷ js) h =
    (ahead-IsServedBefore now (times k) (times j) h.0, order-IsServed now times (j ∷ js) h.1)

-- How often an id stands in a list.
abbrev pub count : ℕ → List ℕ → ℕ
count k [] = 0
count k (j ∷ js) = let rest = count k js in if j == k then suc rest else rest

-- How many rows with an id wait.
abbrev pub count_waiting : ℕ → Map Order → ℕ
count_waiting k [] = 0
count_waiting k ((j, o) ∷ m) =
    let rest = count_waiting k m in if j == k && waits o then suc rest else rest

count-queued : (k : ℕ) (m : Map Order) → count k (queued_ids m) ≡ count_waiting k m
count-queued k [] = refl
count-queued k ((j, o) ∷ m) = elim (Bool-cases (is_queued o)) [
  | inl is ↦
      let ready : waits o ≡ true = sym (queued-waits o) ∙ is in ground (arith, count-queued k m)
  | inr not_so ↦
      let idle : waits o ≡ false = sym (queued-waits o) ∙ not_so in ground (arith, count-queued k m)
]

count-put :
    (now : ℕ) (times : ℕ → Times) (k j : ℕ) (js : List ℕ)
    → count k (put now times j js) ≡ count k (j ∷ js)
count-put now times k j [] = refl
count-put now times k j (i ∷ is) = ground (arith, count-put now times k j is)

count-in_order :
    (now : ℕ) (times : ℕ → Times) (k : ℕ) (js : List ℕ)
    → count k (in_order now times js) ≡ count k js
count-in_order now times k [] = refl
count-in_order now times k (j ∷ js) =
    ground (arith, count-put now times k j (in_order now times js), count-in_order now times k js)

take-rest : (n : ℕ) (ks : List ℕ) → (rest : List ℕ) × (take n ks ++ rest ≡ ks)
take-rest zero ks = (ks, refl)
take-rest (suc n) [] = ([], refl)
take-rest (suc n) (k ∷ ks) = let (rest, e) = take-rest n ks in (rest, ap (λ l. k ∷ l) e)

-- With the orders that its limit leaves out standing behind it, the queue holds every PACKED order
-- without a live assignment and without a failure to be resolved exactly once for its row, and nothing
-- else, in the order of the times of packing, orders without one last, and then of creation; and it
-- holds as many of them as the limit lets it.
pub get_dispatch_queue_orders_lem :
    (now : ℕ) (times : ℕ → Times) (limit : ℕ) (w : World)
    → (rest : List ℕ) × ((k : ℕ)
        → count k (get_dispatch_queue_orders now times limit w ++ rest)
          ≡ count_waiting k w.store.orders)
      × IsServed times (get_dispatch_queue_orders now times limit w ++ rest)
      × (length (get_dispatch_queue_orders now times limit w)
          ≡ min limit (length (get_dispatch_queue_orders now times limit w ++ rest)))
unfolding get_dispatch_queue_orders
get_dispatch_queue_orders_lem now times limit w =
    let ids = queued_ids w.store.orders in
    let sorted = in_order now times ids in
    let (rest, e) = take-rest limit sorted in
    (
      rest,
      λ k. ap (count k) e ∙ count-in_order now times k ids ∙ count-queued k w.store.orders,
      subst (IsServed times) (sym e)
          (order-IsServed now times sorted (in_order-IsInOrder now times ids)),
      length-take limit sorted ∙ ap (λ l. min limit (length l)) (sym e),
    )

round-IsCapped :
    (distance : Distance) (score : Score) (trigger : Option ℕ) (k : ℕ) (w : World)
    → IsCapped w
    → IsCapped (queue_round distance score trigger k w).0
round-IsCapped distance score trigger k w h = elim (Bool-cases (is_trigger trigger k)) [
  | inl skip ↦ rw skip h
  | inr go ↦ rw go (assign-IsCapped distance score k none w h)
]

orders-IsCapped :
    (distance : Distance) (score : Score) (trigger : Option ℕ) (ks : List ℕ) (w : World)
    → IsCapped w
    → IsCapped (process_orders distance score trigger ks w).0
unfolding process_orders
orders-IsCapped distance score trigger [] w h = h
orders-IsCapped distance score trigger (k ∷ ks) w h =
    let (w1, done) = queue_round distance score trigger k w in
    let h1 = round-IsCapped distance score trigger k w h in
    let rest = orders-IsCapped distance score trigger ks w1 h1 in
    elim (Option-cases (queue_round distance score trigger k w).1) [
      | inl skipped ↦ rw (skipped, process_orders) rest
      | inr (r, e) ↦ elim (Bool-cases (ends_queue r)) [
        | inl stop ↦ rw (e, stop, process_orders) h1
        | inr on ↦ rw (e, on, process_orders) rest
      ]
    ]

pub queue-IsCapped :
    (distance : Distance) (score : Score) (now : ℕ) (times : ℕ → Times) (trigger : Option ℕ)
    (w : World)
    → IsCapped w
    → IsCapped (process_dispatch_queue distance score now times trigger w).0
unfolding process_dispatch_queue
queue-IsCapped distance score now times trigger w h =
    orders-IsCapped distance score trigger (get_dispatch_queue_orders now times 10 w) w h
