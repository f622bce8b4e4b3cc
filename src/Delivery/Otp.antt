-- ===== src/Delivery/Otp.antt =====
-- The one-time codes of backend/src/services/deliveryProof.service.js, which stand in Redis. The keyed
-- hash (HMAC-SHA256) is a parameter, and the random code is an argument; that a code expires after ten
-- minutes is left out.
use meatvo_app.Base.{Map, Text, erase, if◌then◌else◌, insert, lookup, none, some, text_eq, ℕ}
use meatvo_app.Dispatch.World.{World}

abbrev pub Hash : Type 0
Hash = ℕ → Text → Text

-- `delivery_otp:<order>` and `delivery_otp_display:<order>`, which are written and deleted together.
pub record Otp : Type 0 where
  pub hash : Text
  pub display : Text

-- What the handlers read and write.
pub record Site : Type 0 where
  pub world : World
  pub otps : Map Otp

-- `createDeliveryOTP`
unfoldable pub create_delivery_otp : Hash → ℕ → Text → Site → Site
create_delivery_otp hash order_id otp s = record s {
  otps = insert order_id (record { hash = hash order_id otp; display = otp }) s.otps;
}

-- `ensureDeliveryOTP`
unfoldable pub ensure_delivery_otp : Hash → ℕ → Text → Site → Site
unfolding create_delivery_otp
ensure_delivery_otp hash order_id otp s = elim (lookup order_id s.otps) [
  | some _ ↦ s
  | none ↦ create_delivery_otp hash order_id otp s
]

-- `resendDeliveryOTP`
unfoldable pub resend_delivery_otp : Hash → ℕ → Text → Site → Site
unfolding create_delivery_otp
resend_delivery_otp hash order_id otp s =
    create_delivery_otp hash order_id otp (record s { otps = erase order_id s.otps })

pub data OtpCheck : Type 0 where
  valid expired invalid : OtpCheck

-- `verifyDeliveryOTP`: a code that is right is deleted.
unfoldable pub verify_delivery_otp : Hash → ℕ → Text → Site → Site × OtpCheck
verify_delivery_otp hash order_id otp s = elim (lookup order_id s.otps) [
  | none ↦ (s, expired)
  | some o ↦
      if text_eq (hash order_id otp) o.hash
      then (record s { otps = erase order_id s.otps }, valid)
      else (s, invalid)
]
