-- ===== src/Hours/Circle.antt =====
-- The opening hours as an arc of the day's circle (backend/src/utils/storeHours.util.js).
use meatvo_app.Base.{
  Option, Text, [], arith, none, some, trim, true, ℕ, ◌%◌, ◌*◌, ◌+◌, ◌-◌, ◌<◌, ◌↔◌, ◌∷◌, ◌≡◌,
}
use meatvo_app.Hours.Availability.{
  after_hours, is_within_store_hours, minutes_of, parse_time_to_minutes, read_time, within,
}

-- The minutes from one time of the day to the next occurrence of another.
abbrev pub minutes_until : ℕ → ℕ → ℕ
minutes_until a b = (b + 1440 - a) % 1440

minutes_of-bound : (h m n : ℕ) → minutes_of h m ≡ some n → n < 1440
minutes_of-bound h m n e = ground arith

after_hours-bound : (h : ℕ) (t : Text) (n : ℕ) → after_hours h t ≡ some n → n < 1440
after_hours-bound h [] n e = absurd (ground arith)
after_hours-bound h (x ∷ []) n e = absurd (ground arith)
after_hours-bound h (x ∷ a ∷ []) n e = absurd (ground arith)
after_hours-bound h (x ∷ a ∷ b ∷ rest) n e =
    ground (arith, minutes_of-bound h ((a - 48) * 10 + (b - 48)) n)

read_time-bound : (t : Text) (n : ℕ) → read_time t ≡ some n → n < 1440
read_time-bound [] n e = absurd (ground arith)
read_time-bound (a ∷ []) n e = absurd (ground arith)
read_time-bound (a ∷ b ∷ rest) n e = ground (
  arith,
  after_hours-bound ((a - 48) * 10 + (b - 48)) rest n,
  after_hours-bound (a - 48) (b ∷ rest) n,
)

parsed-bound : (t : Option Text) (n : ℕ) → parse_time_to_minutes t ≡ some n → n < 1440
unfolding parse_time_to_minutes
parsed-bound none n h = absurd (ground arith)
parsed-bound (some t) n h = read_time-bound (trim t) n h

within_iff :
    (o c now : ℕ)
    → o < 1440
    → c < 1440
    → now < 1440
    → (within o c now ≡ true) ↔ (minutes_until o now < minutes_until o c)
unfolding within
within_iff o c now ho hc hn = (λ h. ground arith, λ h. ground arith)

-- For opening hours that can be read, also such that pass midnight, the store is within its hours
-- exactly when the minutes since the last opening are fewer than those from opening to closing; so it
-- never is where both times are the same.
pub is_within_store_hours_iff :
    (open_time close_time : Text) (o c now : ℕ)
    → parse_time_to_minutes (some open_time) ≡ some o
    → parse_time_to_minutes (some close_time) ≡ some c
    → now < 1440
    → (is_within_store_hours open_time close_time now ≡ true)
      ↔ (minutes_until o now < minutes_until o c)
unfolding is_within_store_hours
is_within_store_hours_iff open_time close_time o c now ho hc hn =
    let law =
      within_iff o c now (parsed-bound (some open_time) o ho) (parsed-bound (some close_time) c hc)
        hn in
    (λ h. law.0 (ground arith), λ h. let inside = law.1 h in ground arith)
