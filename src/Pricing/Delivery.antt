-- ===== src/Pricing/Delivery.antt =====
-- backend/src/utils/orderPricing.util.js, the defaults of backend/src/config/businessRules.js and the
-- settings that backend/src/utils/storeSettings.util.js, `buildMergedSettings`, hands to it.
use meatvo_app.Base.{
  Bool, Option, arith, false, if◌then◌else◌, leb, ltb, none, or_else, some, true, ℕ, ◌≡◌, ◌≤◌,
}

-- The value of `Number(x)`: not a number, -(n + 1) paise, or n paise.
pub data Number : Type 0 where
  nan : Number
  below : ℕ → Number
  num : ℕ → Number

abbrev pub default_delivery_fee : ℕ
default_delivery_fee = 3000

abbrev pub default_free_delivery_threshold : ℕ
default_free_delivery_threshold = 50000

-- The keys that `resolveDeliveryCharge` reads; a key that is absent or null is `none`.
pub record ChargeSettings : Type 0 where
  pub delivery_fee : Option Number
  pub delivery_fee_camel : Option Number
  pub delivery_charge : Option Number
  pub delivery_charge_camel : Option Number
  pub free_delivery_threshold : Option Number
  pub free_delivery_threshold_camel : Option Number

-- `n >= m` for a number that is not negative.
reaches : ℕ → Number → Bool
reaches n nan = false
reaches n (below m) = true
reaches n (num m) = leb m n

-- `fee >= 0 ? fee : DEFAULT_DELIVERY_FEE`
abbrev pub fee_or_default : Number → ℕ
fee_or_default (num n) = n
fee_or_default _ = default_delivery_fee

-- `resolveDeliveryCharge`
unfoldable pub resolve_delivery_charge : ℕ → ChargeSettings → ℕ
unfolding reaches
resolve_delivery_charge subtotal settings =
    let fee = or_else settings.delivery_fee (
      or_else settings.delivery_fee_camel (
        or_else settings.delivery_charge
          (or_else settings.delivery_charge_camel (num default_delivery_fee)))) in
    let threshold =
      or_else settings.free_delivery_threshold
        (or_else settings.free_delivery_threshold_camel (num default_free_delivery_threshold)) in
    if reaches subtotal threshold then 0 else fee_or_default fee

-- The operational settings and the settings row that `buildMergedSettings` reads for a charge.
pub record StoredSettings : Type 0 where
  pub operational_delivery_charge : Option Number
  pub row_delivery_fee : Option Number
  pub operational_free_delivery_above : Option Number

-- The two charges among the merged settings.
pub record MergedSettings : Type 0 where
  pub delivery_fee : Number
  pub free_delivery_above : Number

unfoldable pub build_merged_settings : StoredSettings → MergedSettings
build_merged_settings stored = record {
  delivery_fee =
      or_else stored.operational_delivery_charge
        (or_else stored.row_delivery_fee (num default_delivery_fee));
  free_delivery_above =
      or_else stored.operational_free_delivery_above (num default_free_delivery_threshold);
}

-- What `resolveDeliveryCharge` finds in the merged settings, which have none of its other keys.
abbrev pub as_charge_settings : MergedSettings → ChargeSettings
as_charge_settings merged = record {
  delivery_fee = some merged.delivery_fee;
  delivery_fee_camel = none;
  delivery_charge = none;
  delivery_charge_camel = none;
  free_delivery_threshold = none;
  free_delivery_threshold_camel = none;
}

-- The charge at checkout.
unfoldable pub checkout_charge : ℕ → StoredSettings → ℕ
unfolding resolve_delivery_charge build_merged_settings
checkout_charge subtotal stored =
    resolve_delivery_charge subtotal (as_charge_settings (build_merged_settings stored))

-- The charge at checkout is the same for every stored free-delivery threshold: 0 from 500 rupees
-- on, and below that the configured fee, or the row's, where it is a number that is not negative,
-- else 30 rupees.
pub checkout_charge_lem :
    (subtotal : ℕ) (stored : StoredSettings)
    → checkout_charge subtotal stored ≡ (
        if ltb subtotal 50000
        then fee_or_default (
            or_else stored.operational_delivery_charge (or_else stored.row_delivery_fee (num 3000)))
        else 0)
unfolding checkout_charge
checkout_charge_lem subtotal stored = ground arith

-- A higher subtotal is never charged more for delivery, under the same settings.
pub resolve_delivery_charge_antitone :
    (a b : ℕ) (settings : ChargeSettings)
    → a ≤ b
    → resolve_delivery_charge b settings ≤ resolve_delivery_charge a settings
unfolding resolve_delivery_charge
resolve_delivery_charge_antitone a b settings h = ground arith
