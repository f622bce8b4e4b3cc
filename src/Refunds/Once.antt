-- ===== src/Refunds/Once.antt =====
-- What holds of the refunds and of the requests to the gateway in every run of
-- backend/src/services/cashfreeRefund.service.js.
use meatvo_app.Base.{
  All, Bool-cases, List, Map, Option, Option-cases, [], arith, filter, if◌then◌else◌, inl, inr,
  length, lookup, none, refl, some, subst, suc, sym, ℕ, ◌&&◌, ◌<◌, ◌==◌, ◌∙◌, ◌∷◌, ◌≡◌, ◌⊎◌,
}
use meatvo_app.Refunds.Rows.{PartialRefund}
use meatvo_app.Refunds.Gateway.{Post}
use meatvo_app.Refunds.Submit.{Call, Desk, key_of, submit_partial_refund_to_gateway}
use meatvo_app.Refunds.Effect.{Effect, IsWritten, asked, has_name, idle, noted, submit_effect}
use meatvo_app.Refunds.Batch.{
  due_ids, find_failed_delivery, full_refund, insert_refund, is_unnamed,
  process_failed_delivery_refund, process_pending_refunds_for_order, retry_each, submit_all,
}
use meatvo_app.Lifecycle.Transition.{is_online}
use meatvo_app.Store.{PaymentMode}

-- No row has a number above how many there are.
abbrev pub IsNumbered : Map PartialRefund → Type 0
IsNumbered m = (j : ℕ) → length m < j → lookup j m ≡ none

-- How often the gateway has accepted a row.
abbrev pub accepted_count : ℕ → List Call → ℕ
accepted_count id calls = length (filter (λ c. c.row_id == id && c.accepted) calls)

abbrev pub name_count : Option PartialRefund → ℕ
name_count none = 0
name_count (some r) = if has_name r then 1 else 0

-- The row of a call has its key.
abbrev pub HasKey : Map PartialRefund → Call → Type 0
HasKey m c = (r : PartialRefund) × (lookup c.row_id m ≡ some r) × (r.key ≡ some c.key)

pub record IsOrderly (d : Desk) : Type 0 where
  pub numbered : IsNumbered d.store.refunds
  pub once : (j : ℕ) → accepted_count j d.calls ≡ name_count (lookup j d.store.refunds)
  pub keyed : All (HasKey d.store.refunds) d.calls

-- The keys of the calls are kept where the row written has the key of each of its calls.
All-HasKey :
    (id : ℕ) (r r' : PartialRefund) (d d' : Desk)
    → lookup id d.store.refunds ≡ some r
    → (r'.key ≡ r.key) ⊎ (r'.key ≡ some (key_of id r))
    → IsWritten id r' d.store.refunds d'.store.refunds
    → (calls : List Call) → All (HasKey d.store.refunds) calls
    → All (HasKey d'.store.refunds) calls
All-HasKey id r r' d d' at key wrote [] h = tt
All-HasKey id r r' d d' at key wrote (c ∷ calls) (h, hs) =
    (row h, All-HasKey id r r' d d' at key wrote calls hs)
  where
    row : HasKey d.store.refunds c → HasKey d'.store.refunds c
    row (x, there, keyed) = elim (Bool-cases (id == c.row_id)) [
      | inr apart ↦ (x, ground (arith, wrote.rows c.row_id), keyed)
      | inl same ↦
          let e : id ≡ c.row_id = ground arith in
          let this : x ≡ r = ground arith in
          let its : r'.key ≡ some c.key = elim key [
            | inl kept ↦ kept ∙ rw (sym this) keyed
            | inr made ↦ made ∙ ground arith
          ] in
          (r', ground (arith, wrote.rows c.row_id), its)
    ]

effect-IsOrderly : (id : ℕ) (d d' : Desk) → Effect id d d' → IsOrderly d → IsOrderly d'
effect-IsOrderly id d d' (idle e) h = subst IsOrderly (sym e) h
effect-IsOrderly id d d' (noted r r' at unnamed still key wrote silent) h = record {
  numbered = λ j more. ground (arith, wrote.rows j, h.numbered j, wrote.many);
  once = λ j. ground (arith, wrote.rows j, h.once j);
  keyed = rw silent (All-HasKey id r r' d d' at key wrote d.calls h.keyed);
}
effect-IsOrderly id d d' (asked r r' i p b at free funded pos le unnamed name key wrote call) h =
    record {
      numbered = λ j more. ground (arith, wrote.rows j, h.numbered j, wrote.many);
      once = λ j. elim (Bool-cases (id == j)) [
        | inr apart ↦ ground (arith, wrote.rows j, h.once j)
        | inl same ↦
            let e : id ≡ j = ground arith in
            let before : accepted_count j d.calls ≡ 0 = h.once j ∙ ground arith in
            ground (arith, wrote.rows j)
      ];
      keyed = rw call (
        (r', wrote.rows id ∙ ground arith, key),
        All-HasKey id r r' d d' at (inr key) wrote d.calls h.keyed,
      );
    }

All-HasKey-insert :
    (r : PartialRefund) (m : Map PartialRefund) (calls : List Call)
    → IsNumbered m
    → All (HasKey m) calls
    → All (HasKey ((suc (length m), r) ∷ m)) calls
All-HasKey-insert r m [] n h = tt
All-HasKey-insert r m (c ∷ calls) n ((x, there, keyed), hs) =
    let kept : lookup c.row_id ((suc (length m), r) ∷ m) ≡ some x = ground (arith, n c.row_id) in
    ((x, kept, keyed), All-HasKey-insert r m calls n hs)

insert-IsOrderly :
    (r : PartialRefund) (d : Desk)
    → r.gateway_refund_id ≡ none
    → IsOrderly d
    → IsOrderly (insert_refund r d)
insert-IsOrderly r d unnamed h = record {
  numbered = λ j more. ground (arith, h.numbered j);
  once = λ j. ground (arith, h.once j, h.numbered j);
  keyed = All-HasKey-insert r d.store.refunds d.calls h.numbered h.keyed;
}

pub submit-IsOrderly :
    (post : Post) (id : ℕ) (d : Desk)
    → IsOrderly d
    → IsOrderly (submit_partial_refund_to_gateway post id d).0
submit-IsOrderly post id d h =
    effect-IsOrderly id d (submit_partial_refund_to_gateway post id d).0 (submit_effect post id d) h

pub submit_all-IsOrderly :
    (post : Post) (ids : List ℕ) (d : Desk) → IsOrderly d → IsOrderly (submit_all post ids d).0
submit_all-IsOrderly post [] d h = h
submit_all-IsOrderly post (id ∷ ids) d h =
    submit_all-IsOrderly post ids (submit_partial_refund_to_gateway post id d).0
      (submit-IsOrderly post id d h)

pub failed_delivery-IsOrderly :
    (post : Post) (o n : ℕ) (mode : PaymentMode) (d : Desk)
    → IsOrderly d
    → IsOrderly (process_failed_delivery_refund post o n mode d).0
unfolding process_failed_delivery_refund
failed_delivery-IsOrderly post o n mode d h = elim (Bool-cases (is_online mode)) [
  | inr cash ↦ rw (cash, process_failed_delivery_refund) h
  | inl card ↦ elim (Bool-cases (n == 0)) [
    | inl nothing ↦ rw (card, nothing, process_failed_delivery_refund) h
    | inr something ↦ elim (Option-cases (find_failed_delivery o d.store.refunds)) [
      | inl fresh ↦
          rw (card, something, fresh, process_failed_delivery_refund)
            (submit-IsOrderly post (suc (length d.store.refunds))
              (insert_refund (full_refund o n) d) (insert-IsOrderly (full_refund o n) d refl h))
      | inr ((id, r), there) ↦ elim (Bool-cases (is_unnamed r)) [
        | inl open_row ↦
            rw (card, something, there, open_row, process_failed_delivery_refund)
              (submit-IsOrderly post id d h)
        | inr closed ↦ rw (card, something, there, closed, process_failed_delivery_refund) h
      ]
    ]
  ]
]

pub retry-IsOrderly :
    (post : Post) (orders : List ℕ) (d : Desk)
    → IsOrderly d
    → IsOrderly (retry_each post orders d).0
unfolding process_pending_refunds_for_order
retry-IsOrderly post [] d h = h
retry-IsOrderly post (o ∷ orders) d h =
    retry-IsOrderly post orders (process_pending_refunds_for_order post o d).0
      (submit_all-IsOrderly post (due_ids o d.store.refunds) d h)
