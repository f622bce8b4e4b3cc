-- ===== src/Delivery/Handed.antt =====
-- When the requests of a rider succeed: `acceptOrder` and `updateDeliveryOrderStatus` of
-- backend/src/modules/delivery/delivery.controller.js.
use meatvo_app.Base.{
  Bool, Option, Text, arith, erase, false, lookup, lookup-erase, none, some, text_eq, true, ℕ, ◌∙◌,
  ◌≡◌,
}
use meatvo_app.FailedDelivery.Handlers.{has_profile}
use meatvo_app.Delivery.Otp.{Hash, Otp, Site, verify_delivery_otp}
use meatvo_app.Delivery.Handlers.{
  bad_proof, check_code, move_site, otp_expired, to_delivered, update_delivery_order_status,
}

-- The proof that came with a delivery is none or a valid one.
abbrev pub is_proved : (ℕ → Text → Bool) → ℕ → Option Text → Bool
is_proved valid_proof rider none = true
is_proved valid_proof rider (some url) = valid_proof rider url

-- The site after a delivery.
abbrev pub delivered_site : ℕ → ℕ → Text → Option Text → Site → Site
delivered_site rider k otp proof s =
    move_site rider k (to_delivered otp proof) (record s { otps = erase k s.otps })

codeless :
    (hash : Hash) (valid_proof : ℕ → Text → Bool) (rider k : ℕ) (otp : Text) (proof : Option Text)
    (s : Site)
    → has_profile rider s.world.store ≡ true
    → lookup k s.otps ≡ none
    → update_delivery_order_status hash valid_proof rider k (to_delivered otp proof) s
      ≡ (s, some otp_expired)
unfolding update_delivery_order_status check_code verify_delivery_otp
codeless hash valid_proof rider k otp proof s known gone = ground arith

-- A right code that comes with an invalid proof is used up although nothing is delivered: the order and
-- all else are as before, and the same code, sent again with any proof, is refused as expired.
pub bad_proof_spends_code :
    (hash : Hash) (valid_proof : ℕ → Text → Bool) (rider k : ℕ) (otp url : Text)
    (again : Option Text) (s : Site) (c : Otp)
    → has_profile rider s.world.store ≡ true
    → lookup k s.otps ≡ some c
    → text_eq (hash k otp) c.hash ≡ true
    → valid_proof rider url ≡ false
    → let s1 : Site = record s { otps = erase k s.otps } in
      (update_delivery_order_status hash valid_proof rider k (to_delivered otp (some url)) s
        ≡ (s1, some bad_proof))
      × (update_delivery_order_status hash valid_proof rider k (to_delivered otp again) s1
          ≡ (s1, some otp_expired))
unfolding update_delivery_order_status check_code verify_delivery_otp
bad_proof_spends_code hash valid_proof rider k otp url again s c known at right bad =
    let s1 : Site = record s { otps = erase k s.otps } in
    (
      ground arith,
      codeless hash valid_proof rider k otp again s1 known (lookup-erase k k s.otps ∙ ground arith),
    )
