-- ===== src/Hours/Tests.antt =====
-- Opening hours at concrete inputs.
use meatvo_app.Base.{codes, none, refl, some, trim, true, ◌≡◌}
use meatvo_app.Hours.Availability.{
  is_within_store_hours, manual, normalize_acceptance_mode, normalize_time, parse_time_to_minutes,
  resolve_store_availability,
}

nine : parse_time_to_minutes (some (codes " 9:30 ")) ≡ some 570
unfolding parse_time_to_minutes trim
nine = refl

evening : parse_time_to_minutes (some (codes "18:00")) ≡ some 1080
unfolding parse_time_to_minutes trim
evening = refl

two_at_night : parse_time_to_minutes (some (codes "02:00")) ≡ some 120
unfolding parse_time_to_minutes trim
two_at_night = refl

-- Closed by hand inside the default hours.
by_hand :
    (resolve_store_availability true (codes "Closed") none none 600).closed_reason ≡ some manual
unfolding resolve_store_availability normalize_time is_within_store_hours parse_time_to_minutes
    normalize_acceptance_mode trim
by_hand = refl
