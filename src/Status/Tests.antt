-- ===== src/Status/Tests.antt =====
-- Statuses at concrete inputs.
use meatvo_app.Base.{List, [], codes, refl, some, true, ◌∷◌, ◌≡◌}
use meatvo_app.Status.Names.{
  Status, confirmed, delivered, of_text, out_for_delivery, packed, packing_started, refunded,
}
use meatvo_app.Status.Table.{normalize_status}
use meatvo_app.Status.Runs.{is_run}

-- From PLACED to the customer's door.
abbrev delivery_run : List Status
delivery_run = confirmed ∷ packing_started ∷ packed ∷ out_for_delivery ∷ delivered ∷ []

refunded_stays : is_run refunded [] ≡ true
unfolding is_run
refunded_stays = refl

-- Lower case and spaces are normalized.
normalized : normalize_status (codes " packed ") ≡ some packed
unfolding normalize_status of_text
normalized = refl
