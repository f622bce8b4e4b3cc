-- ===== src/Packing/Flow.antt =====
-- `packOrderWithWeightReconciliation` of backend/src/services/packingWeightReconciliation.service.js:
-- the reconciliation commits before the transition to PACKED is tried.
use meatvo_app.Base.{Bool, List, ap, arith, err, false, lookup, ok, refl, some, true, ℕ, ◌∙◌, ◌≡◌}
use meatvo_app.Base.Result.{Result}
use meatvo_app.Status.Names.{Status, includes, packed, placed}
use meatvo_app.Store.{Order, Store}
use meatvo_app.Machine.Roles.{Role}
use meatvo_app.Machine.Rules.{can_actor_trigger_state, can_transition}
use meatvo_app.Packing.Rows.{LineWeight, PackError, normalize_line_weights, packable_statuses}
use meatvo_app.Packing.Lines.{
  execute_packing_weight_reconciliation, is_completed, is_empty, item_rows, total_after,
}
use meatvo_app.Packing.Packed.{IsGiven, execute_packing_weight_reconciliation_succeeds}
use meatvo_app.Lifecycle.Transition.{
  LifecycleError, enter_state, is_online, is_settled,
  is_weight_reconciliation_complete_for_dispatch, payment_blocks, transition_order_state,
  weight_blocks,
}
use meatvo_app.Lifecycle.Guards.{
  IsAllowed, enter_row, orders-enter_state, transition_order_state_iff,
}

pub data FlowError : Type 0 where
  not_reconciled : PackError → FlowError
  not_moved : LifecycleError → FlowError

-- The transition behind a reconciliation that succeeded.
abbrev pub move_to_packed : ℕ → Role → Bool → Store × ℕ → Store × Result FlowError (ℕ × Status)
move_to_packed order_id actor_role override (s, total) =
    elim (transition_order_state order_id packed actor_role override s) [
      | err e ↦ (s, err (not_moved e))
      | ok (s', old) ↦ (s', ok (total, old))
    ]

-- `packOrderWithWeightReconciliation`: the store that it leaves, and the refund in all with the old
-- status, or what it threw.
unfoldable pub pack_order_with_weight_reconciliation :
    ℕ → List LineWeight → Bool → Role → Bool → Store → Store × Result FlowError (ℕ × Status)
pack_order_with_weight_reconciliation order_id line_weights skip actor_role override s =
    elim (execute_packing_weight_reconciliation order_id line_weights skip s) [
      | err e ↦ (s, err (not_reconciled e))
      | ok done ↦ move_to_packed order_id actor_role override done
    ]

packable_edge : (t : Status) → includes packable_statuses t ≡ true → can_transition t packed ≡ true
unfolding can_transition
packable_edge placed h = ground arith
packable_edge _ h = ground arith

settled_open :
    (o : Order) (t : Status) (r : Role) (override : Bool)
    → (is_online o.payment_mode ≡ true → is_settled o.payment_status ≡ true)
    → payment_blocks o t r override ≡ false
unfolding payment_blocks
settled_open o t r override h = ground arith

dispatchable_open :
    (o : Order) (t : Status)
    → is_weight_reconciliation_complete_for_dispatch o.recon_status ≡ true
    → weight_blocks o t ≡ false
unfolding weight_blocks
dispatchable_open o t h = ground arith

-- The packing of an order that is CONFIRMED or PACKING_STARTED, has not been reconciled and has lines,
-- by an actor who may pack, with a weight for each weight-based line or their validation skipped, and
-- settled if it is paid online, succeeds: it reports the old status, and the order is then PACKED, its
-- total less the refund reported.
pub pack_order_succeeds :
    (k : ℕ) (request : List LineWeight) (skip : Bool) (r : Role) (override : Bool) (s : Store)
    (o : Order)
    → lookup k s.orders ≡ some o
    → includes packable_statuses o.status ≡ true
    → is_completed o.recon_status ≡ false
    → is_empty (item_rows o.items s.products) ≡ false
    → IsGiven skip (normalize_line_weights request) (item_rows o.items s.products)
    → can_actor_trigger_state packed r ≡ true
    → (is_online o.payment_mode ≡ true → is_settled o.payment_status ≡ true)
    → (total : ℕ) × ((pack_order_with_weight_reconciliation k request skip r override s).1
        ≡ ok (total, o.status))
      × ((q : Order) × (lookup k
              (pack_order_with_weight_reconciliation k request skip r override s).0.orders
            ≡ some q)
          × (q.status ≡ packed)
          × (q.total_amount ≡ total_after o.total_amount total))
unfolding pack_order_with_weight_reconciliation
pack_order_succeeds k request skip r override s o at packable fresh lines given actor settled =
    let (s1, total, e, left) =
      execute_packing_weight_reconciliation_succeeds k request skip s o at packable fresh lines
        given in
    let o1 : Order = record o {
      items = left.items;
      total_amount = total_after o.total_amount total;
      recon_status = left.recon;
      weight_refund = total;
    } in
    let allowed : IsAllowed o1 packed r override = record {
      edge = packable_edge o.status packable;
      actor = actor;
      payment = settled_open o1 packed r override settled;
      weights = dispatchable_open o1 packed left.dispatchable;
    } in
    let moved =
      (transition_order_state_iff k packed o.status r override s1 (enter_state k packed s1)).1
        (o1, left.row, allowed, refl, refl) in
    let result : pack_order_with_weight_reconciliation k request skip r override s
        ≡ (enter_state k packed s1, ok (total, o.status)) =
      rw (e, moved, pack_order_with_weight_reconciliation, move_to_packed) refl in
    (
      total,
      ap (λ x. x.1) result,
      (
        enter_row packed o1,
        ap (λ x. lookup k x.0.orders) result
            ∙ (orders-enter_state k k packed s1 ∙ ground (arith, left.row)),
        refl,
        refl,
      ),
    )
