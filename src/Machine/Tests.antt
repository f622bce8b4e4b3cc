-- ===== src/Machine/Tests.antt =====
-- The state machine and its notifications at concrete inputs.
use meatvo_app.Base.{All, Option, Text, codes, if◌then◌else◌, none, refl, some, text_eq, true, ◌≡◌}
use meatvo_app.Status.Names.{cancelled, out_for_delivery, packed}
use meatvo_app.Machine.Roles.{customer}
use meatvo_app.Machine.Rules.{can_actor_trigger_state, can_transition}
use meatvo_app.Status.Table.{allows}
use meatvo_app.Machine.Laws.{can_transition-allows}
use meatvo_app.Machine.Interpolate.{interpolate, is_word}
use meatvo_app.Machine.Notifications.{get_state_notifications, normal, of_role}

packed_leaves : can_transition packed out_for_delivery ≡ true
unfolding can_transition
packed_leaves = refl

packed_cancels : can_transition packed cancelled ≡ true
unfolding can_transition
packed_cancels = refl

customer_may_cancel : can_actor_trigger_state cancelled customer ≡ true
unfolding can_actor_trigger_state
customer_may_cancel = refl

can_transition-allows_example : allows packed out_for_delivery ≡ true
can_transition-allows_example = can_transition-allows packed out_for_delivery packed_leaves

-- A context that knows the order's number.
abbrev order_context : Text → Option Text
order_context key = if text_eq key (codes "orderId") then some (codes "42") else none

key_words : All (λ c. is_word c ≡ true) (codes "orderId")
unfolding is_word
key_words = (refl, (refl, (refl, (refl, (refl, (refl, (refl, tt)))))))

packed_title :
    of_role customer (get_state_notifications packed order_context)
    ≡ some (record {
      title = codes "Preparing Your Order";
      body = codes "Your order is being prepared";
      priority = normal;
    })
unfolding get_state_notifications interpolate
packed_title = refl
