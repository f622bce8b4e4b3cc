-- ===== src/Cashfree/Webhook.antt =====
use meatvo_app.Base.{
  Bool, Option, Text, [], codes, false, if◌then◌else◌, none, not, some, text_eq, to_upper, true, ℕ,
  ◌++◌, ◌||◌, ◌∷◌,
}

-- backend/src/utils/cashfreeWebhook.js. The keyed hash and the reading of a JSON text are parameters; in a
-- payload and in the environment the empty text stands for every falsy value.

-- `Number(x)` of an amount, in paise; `nan` is no number.
pub data Amount : Type 0 where
  nan : Amount
  paise : ℕ → Amount

-- What is read of a payload; a NULL is `none`, and an order's id is a number.
pub record Payload : Type 0 where
  pub type_name : Text
  pub event_name : Text
  pub order_id : Option ℕ
  pub payment_amount : Option Amount
  pub order_amount : Option Amount
  pub payment_status : Text

-- SUPPORTED_EVENT_TYPES
pub data EventType : Type 0 where
  payment_success payment_failed payment_user_dropped : EventType

pub record Event : Type 0 where
  pub event_type : EventType
  pub order_id : Option ℕ
  pub status : Text
  pub amount : Option ℕ  -- paise

pub record WebhookRequest : Type 0 where
  pub signature : Text
  pub timestamp : Text  -- of either header
  pub raw_body : Text

abbrev pub Hmac : Type 0
Hmac = Text → Text → Text

abbrev is_empty : Text → Bool
is_empty [] = true
is_empty (c ∷ t) = false

-- `verifyCashfreeWebhook`, with the secret of the environment: the payload, or `none` where it is invalid.
unfoldable pub verify_cashfree_webhook :
    Hmac → (Text → Option Payload) → Text → WebhookRequest → Option Payload
verify_cashfree_webhook hmac parse secret_key r =
    if is_empty secret_key
    then none
    else if is_empty r.signature || (is_empty r.timestamp || is_empty r.raw_body)
    then none
    else if not (text_eq (hmac secret_key (r.timestamp ++ r.raw_body)) r.signature)
    then none
    else parse r.raw_body

-- `mapEventStatus`
abbrev map_event_status : EventType → Text → Text
map_event_status e (c ∷ t) = to_upper (c ∷ t)
map_event_status payment_success [] = codes "SUCCESS"
map_event_status payment_failed [] = codes "FAILED"
map_event_status payment_user_dropped [] = codes "USER_DROPPED"

abbrev event_type_of : Text → Option EventType
event_type_of t =
    if text_eq t (codes "PAYMENT_SUCCESS_WEBHOOK")
    then some payment_success
    else if text_eq t (codes "PAYMENT_FAILED_WEBHOOK")
    then some payment_failed
    else if text_eq t (codes "PAYMENT_USER_DROPPED_WEBHOOK")
    then some payment_user_dropped
    else none

-- `Number.isFinite(amount) ? amount : null`
abbrev finite : Option Amount → Option ℕ
finite (some (paise n)) = some n
finite _ = none

abbrev pub first_amount : Option Amount → Option Amount → Option Amount
first_amount (some a) _ = some a
first_amount none b = b

-- `parseCashfreeWebhookEvent`; `none` where it throws.
unfoldable pub parse_cashfree_webhook_event : Payload → Option Event
parse_cashfree_webhook_event p =
    let name = if is_empty p.type_name then p.event_name else p.type_name in
    elim (event_type_of name) [
      | none ↦ none
      | some e ↦ some (record {
        event_type = e;
        order_id = p.order_id;
        status = map_event_status e p.payment_status;
        amount = finite (first_amount p.payment_amount p.order_amount);
      })
    ]
