-- ===== src/Refunds/Effect.antt =====
use meatvo_app.Store.{Payment, TransactionStatus}
use meatvo_app.Base.{
  Bool, Bool-cases, Map, Option-cases, [], ap, arith, false, if◌then◌else◌, inl, inr, length,
  lookup, lookup-update, ltb, none, refl, some, subst, suc, sym, true, update, ℕ, ◌&&◌, ◌<◌, ◌==◌,
  ◌∙◌, ◌∷◌, ◌≡◌, ◌≤◌, ◌⊎◌,
}
-- What one submission changes: `submitPartialRefundToGateway` of
-- backend/src/services/cashfreeRefund.service.js.
use meatvo_app.Refunds.Rows.{PartialRefund, RefundKey}
use meatvo_app.Refunds.Gateway.{Post, create_refund, refund_name}
use meatvo_app.Refunds.Submit.{
  Call, Desk, failed_row, find_successful_cashfree_payment, is_failed_delivery, is_success, key_of,
  refusal, request_refund, submit_partial_refund_to_gateway, submitted_row, write_refund,
}

-- The rows but for one of them, which is now `r`.
pub record IsWritten (id : ℕ) (r : PartialRefund) (m : Map PartialRefund) (m' : Map PartialRefund)
    : Type 0 where
  pub many : length m' ≡ length m
  pub rows : (j : ℕ) → lookup j m' ≡ (if id == j then some r else lookup j m)

abbrev pub has_name : PartialRefund → Bool
has_name r = elim r.gateway_refund_id [ none ↦ false | some _ ↦ true ]

-- The request for a row.
abbrev pub call_of : ℕ → PartialRefund → Bool → Call
call_of id r b = record {
  row_id = id;
  order_id = r.order_id;
  amount = r.amount;
  key = key_of id r;
  accepted = b;
}

-- The payments have the row `i`, which is a payment of the order through Cashfree with status SUCCESS.
pub data IsFunded (order_id : ℕ) : ℕ → Payment → Map Payment → Type 0 where
  here :
      (i : ℕ) (p : Payment) (m : Map Payment)
      → p.order_id ≡ order_id
      → p.is_cashfree ≡ true
      → p.status ≡ TransactionStatus.success
      → IsFunded order_id i p ((i, p) ∷ m)
  further :
      (i j : ℕ) (p q : Payment) (m : Map Payment)
      → IsFunded order_id i p m
      → IsFunded order_id i p ((j, q) ∷ m)

is_success-success : (t : TransactionStatus) → is_success t ≡ true → t ≡ TransactionStatus.success
is_success-success TransactionStatus.success h = refl
is_success-success t h = ground arith

found-IsFunded :
    (order_id i : ℕ) (p : Payment) (m : Map Payment)
    → find_successful_cashfree_payment order_id m ≡ some (i, p)
    → IsFunded order_id i p m
unfolding find_successful_cashfree_payment
found-IsFunded order_id i p [] h = absurd (ground arith)
found-IsFunded order_id i p ((j, q) ∷ m) h =
    elim (Bool-cases (q.order_id == order_id && (q.is_cashfree && is_success q.status))) [
      | inl this ↦
          let same_id : j ≡ i = ground (arith, this) in
          let same : q ≡ p = ground (arith, this) in
          let own : q.order_id ≡ order_id = ground arith in
          let cashfree : q.is_cashfree ≡ true = ground arith in
          let done : is_success q.status ≡ true = ground arith in
          subst (λ k. IsFunded order_id k p ((j, q) ∷ m)) same_id
            (subst (λ r. IsFunded order_id j r ((j, q) ∷ m)) same
              (here j q m own cashfree (is_success-success q.status done)))
      | inr apart ↦ further i j p q m (found-IsFunded order_id i p m (ground (arith, apart)))
    ]

pub data Effect (id : ℕ) (d : Desk) (d' : Desk) : Type 0 where
  idle : d' ≡ d → Effect id d d'
  noted :
      (r r' : PartialRefund)
      → lookup id d.store.refunds ≡ some r
      → has_name r ≡ false
      → has_name r' ≡ false
      → (r'.key ≡ r.key) ⊎ (r'.key ≡ some (key_of id r))
      → IsWritten id r' d.store.refunds d'.store.refunds
      → d'.calls ≡ d.calls
      → Effect id d d'
  asked :
      (r r' : PartialRefund) (i : ℕ) (p : Payment) (b : Bool)
      → lookup id d.store.refunds ≡ some r
      → refusal r ≡ none
      → IsFunded r.order_id i p d.store.payments
      → 0 < r.amount
      → r.amount ≤ p.amount
      → has_name r ≡ false
      → has_name r' ≡ b
      → r'.key ≡ some (key_of id r)
      → IsWritten id r' d.store.refunds d'.store.refunds
      → d'.calls ≡ call_of id r b ∷ d.calls
      → Effect id d d'

refusal-name : (r : PartialRefund) → refusal r ≡ none → has_name r ≡ false
unfolding refusal
refusal-name r h = ground arith

update_at :
    (id j : ℕ) (f : PartialRefund → PartialRefund) (m : Map PartialRefund) (r : PartialRefund)
    → lookup id m ≡ some r
    → lookup j (update id f m) ≡ (if id == j then some (f r) else lookup j m)
update_at id j f m r at = elim (Bool-cases (id == j)) [
  | inl same ↦
      let e : id ≡ j = ground arith in
      let there : lookup j m ≡ some r = rw (sym e) at in ground (arith, lookup-update id j f m)
  | inr apart ↦ ground (arith, lookup-update id j f m)
]

length-update :
    (id : ℕ) (f : PartialRefund → PartialRefund) (m : Map PartialRefund)
    → length (update id f m) ≡ length m
length-update id f [] = refl
length-update id f ((j, r) ∷ m) = ap suc (length-update id f m)

written :
    (id : ℕ) (f : PartialRefund → PartialRefund) (m : Map PartialRefund) (r : PartialRefund)
    → lookup id m ≡ some r
    → IsWritten id (f r) m (update id f m)
written id f m r at = record { many = length-update id f m; rows = λ j. update_at id j f m r at }

written_twice :
    (id : ℕ) (f g : PartialRefund → PartialRefund) (m : Map PartialRefund) (r : PartialRefund)
    → lookup id m ≡ some r
    → IsWritten id (g (f r)) m (update id g (update id f m))
written_twice id f g m r at = record {
  many = length-update id g (update id f m) ∙ length-update id f m;
  rows = λ j.
      let there : lookup id (update id f m) ≡ some (f r) =
        update_at id id f m r at ∙ ground arith in
      update_at id j g (update id f m) (f r) there ∙ ground (arith, update_at id j f m r at);
}

failed_row-name : (r : PartialRefund) → has_name r ≡ false → has_name (failed_row r) ≡ false
failed_row-name r h = ground arith

failed_row-key : (r : PartialRefund) → (failed_row r).key ≡ r.key
failed_row-key r = elim (Option-cases r.gateway_refund_id) [
  | inl unnamed ↦ ground arith
  | inr (g, named) ↦ ground arith
]

abbrev set_key : RefundKey → PartialRefund → PartialRefund
set_key key r = record r { key = some key }

request_effect :
    (post : Post) (id i : ℕ) (d : Desk) (r : PartialRefund) (p : Payment)
    → lookup id d.store.refunds ≡ some r
    → refusal r ≡ none
    → IsFunded r.order_id i p d.store.payments
    → 0 < r.amount
    → r.amount ≤ p.amount
    → Effect id d
        (request_refund post id r i (key_of id r) (write_refund id (set_key (key_of id r)) d)).0
unfolding request_refund
request_effect post id i d r p at free funded positive covered =
    let r1 = set_key (key_of id r) r in
    elim (Option-cases (create_refund post r.order_id r.amount (key_of id r))) [
      | inl broken ↦
          rw (broken, request_refund)
            (asked r (failed_row r1) i p false at free funded positive covered (refusal-name r free)
              (failed_row-name r1 (refusal-name r free)) (failed_row-key r1)
              (written_twice id (set_key (key_of id r)) failed_row d.store.refunds r at) refl)
      | inr (g, answered) ↦
          let wrote =
            written_twice id (set_key (key_of id r)) (submitted_row (refund_name g) g.status)
              d.store.refunds r at in
          let r2 = submitted_row (refund_name g) g.status r1 in
          elim (Bool-cases (is_failed_delivery r.reason)) [
            | inl whole ↦
                rw (answered, whole, request_refund)
                  (asked r r2 i p true at free funded positive covered (refusal-name r free) refl
                    refl wrote refl)
            | inr part ↦
                rw (answered, part, request_refund)
                  (asked r r2 i p true at free funded positive covered (refusal-name r free) refl
                    refl wrote refl)
          ]
    ]

-- A submission either changes nothing; or notes on a row that the gateway has not named, sending
-- nothing, that row's failure or key; or sends the gateway one request for such a row, whose amount is
-- positive and at most that of a payment of its order through Cashfree that has the status SUCCESS.
pub submit_effect :
    (post : Post) (id : ℕ) (d : Desk) → Effect id d (submit_partial_refund_to_gateway post id d).0
unfolding submit_partial_refund_to_gateway
submit_effect post id d = elim (Option-cases (lookup id d.store.refunds)) [
  | inl gone ↦ rw (gone, submit_partial_refund_to_gateway) (idle refl)
  | inr (r, at) ↦ elim (Option-cases (refusal r)) [
    | inr (x, refused) ↦ rw (at, refused, submit_partial_refund_to_gateway) (idle refl)
    | inl free ↦
        let unnamed = refusal-name r free in
        elim (Option-cases (find_successful_cashfree_payment r.order_id d.store.payments)) [
          | inl unpaid ↦
              rw (at, free, unpaid, submit_partial_refund_to_gateway)
                (noted r (failed_row r) at unnamed (failed_row-name r unnamed)
                  (inl (failed_row-key r)) (written id failed_row d.store.refunds r at) refl)
          | inr ((i, p), funded) ↦ elim (Bool-cases (r.amount == 0)) [
            | inl nothing ↦
                rw (at, free, funded, nothing, submit_partial_refund_to_gateway)
                  (noted r (set_key (key_of id r) r) at unnamed unnamed (inr refl)
                    (written id (set_key (key_of id r)) d.store.refunds r at) refl)
            | inr something ↦ elim (Bool-cases (ltb p.amount r.amount)) [
              | inl above ↦
                  let r1 = set_key (key_of id r) r in
                  rw (at, free, funded, something, above, submit_partial_refund_to_gateway)
                    (noted r (failed_row r1) at unnamed (failed_row-name r1 unnamed)
                      (inr (failed_row-key r1))
                      (written_twice id (set_key (key_of id r)) failed_row d.store.refunds r at)
                      refl)
              | inr within ↦
                  rw (at, free, funded, something, within, submit_partial_refund_to_gateway)
                    (request_effect post id i d r p at free
                      (found-IsFunded r.order_id i p d.store.payments funded) (ground arith)
                      (ground arith))
            ]
          ]
        ]
  ]
]
