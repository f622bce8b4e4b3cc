-- ===== src/Hours/Availability.antt =====
-- backend/src/utils/storeHours.util.js and backend/src/constants/storeAcceptanceMode.constants.js. The
-- minutes since midnight in India, which the Intl library computes, are a parameter; the messages to
-- the customer are left out.
use meatvo_app.Base.{
  Bool, Option, Text, [], codes, false, if◌then◌else◌, leb, ltb, map, none, not, some, text_eq,
  trim, true, ℕ, ◌%◌, ◌&&◌, ◌*◌, ◌++◌, ◌+◌, ◌-◌, ◌/◌, ◌==◌, ◌||◌, ◌∷◌,
}

abbrev is_digit : ℕ → Bool
is_digit c = leb 48 c && leb c 57

-- The hours and minutes that the pattern has found, if they are in range.
abbrev pub minutes_of : ℕ → ℕ → Option ℕ
minutes_of h m = if ltb 23 h || ltb 59 m then none else some (h * 60 + m)

-- `:(\d{2})`, for hours that have been read.
abbrev pub after_hours : ℕ → Text → Option ℕ
after_hours h (colon ∷ a ∷ b ∷ rest) =
    if (colon == 58) && (is_digit a && is_digit b)
    then minutes_of h ((a - 48) * 10 + (b - 48))
    else none
after_hours h _ = none

-- `/^(\d{1,2}):(\d{2})/`
abbrev pub read_time : Text → Option ℕ
read_time (a ∷ b ∷ rest) =
    if not (is_digit a)
    then none
    else if is_digit b
    then after_hours ((a - 48) * 10 + (b - 48)) rest
    else after_hours (a - 48) (b ∷ rest)
read_time _ = none

-- `parseTimeToMinutes`
unfoldable pub parse_time_to_minutes : Option Text → Option ℕ
parse_time_to_minutes none = none
parse_time_to_minutes (some t) = read_time (trim t)

abbrev two_digits : ℕ → Text
two_digits n = (48 + n / 10) ∷ (48 + n % 10) ∷ []

-- `normalizeTimeHHMM`
unfoldable pub normalize_time : Option Text → Text → Text
normalize_time t fallback = elim (parse_time_to_minutes t) [
  | none ↦ fallback
  | some n ↦ two_digits (n / 60) ++ (58 ∷ two_digits (n % 60))
]

-- The test on minutes of `isWithinStoreHours`.
unfoldable pub within : ℕ → ℕ → ℕ → Bool
within opens closes now =
    if opens == closes
    then false
    else if ltb opens closes
    then leb opens now && ltb now closes
    else leb opens now || ltb now closes

-- `isWithinStoreHours`; hours that cannot be read leave the store open.
unfoldable pub is_within_store_hours : Text → Text → ℕ → Bool
unfolding within
is_within_store_hours open_time close_time now = elim (parse_time_to_minutes (some open_time)) [
  | none ↦ true
  | some opens ↦ elim (parse_time_to_minutes (some close_time)) [
    | none ↦ true
    | some closes ↦ within opens closes now
  ]
]

-- STORE_ACCEPTANCE_MODE
pub data AcceptanceMode : Type 0 where
  accepting limited_capacity not_accepting : AcceptanceMode

abbrev lower : ℕ → ℕ
lower c = if leb 65 c && leb c 90 then c + 32 else c

-- `normalizeAcceptanceMode`
unfoldable pub normalize_acceptance_mode : Text → AcceptanceMode
unfolding trim
normalize_acceptance_mode value =
    let raw = map lower (trim value) in
    if text_eq raw (codes "limited_capacity")
    then limited_capacity
    else if text_eq raw (codes "not_accepting")
        || (text_eq raw (codes "closed") || text_eq raw (codes "busy_off"))
    then not_accepting
    else if text_eq raw (codes "busy")
    then limited_capacity
    else accepting

pub data ClosedReason : Type 0 where
  manual_and_hours manual outside_hours : ClosedReason

pub record Availability : Type 0 where
  pub is_open : Bool
  pub manual_open : Bool
  pub within_hours : Bool
  pub acceptance_mode : AcceptanceMode
  pub closed_reason : Option ClosedReason

abbrev takes_orders : AcceptanceMode → Bool
takes_orders not_accepting = false
takes_orders _ = true

abbrev reason_of : Bool → Bool → Option ClosedReason
reason_of true true = none
reason_of false false = some manual_and_hours
reason_of false true = some manual
reason_of true false = some outside_hours

-- `resolveStoreAvailability`
unfoldable pub resolve_store_availability :
    Bool → Text → Option Text → Option Text → ℕ → Availability
resolve_store_availability manual_open mode open_time close_time now =
    let opens = normalize_time open_time (codes "09:00") in
    let closes = normalize_time close_time (codes "22:00") in
    let hours = is_within_store_hours opens closes now in
    let normalized = normalize_acceptance_mode mode in
    let by_hand = manual_open && takes_orders normalized in
    record {
      is_open = by_hand && hours;
      manual_open = by_hand;
      within_hours = hours;
      acceptance_mode = if not hours || not by_hand then not_accepting else normalized;
      closed_reason = reason_of by_hand hours;
    }
