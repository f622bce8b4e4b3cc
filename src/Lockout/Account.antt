-- ===== src/Lockout/Account.antt =====
-- backend/src/security/account-lockout.service.js. The service keeps two maps with the same keys,
-- `type:identifier`, and each operation reads and writes the entries of one key: the model is of the
-- two entries of one key. Times are milliseconds, and an operation reads the clock once. Logs and
-- breadcrumbs are left out.
use mathlib.Core.Option
use meatvo_app.Base.{
  Bool, List, Option, [], filter, if◌then◌else◌, leb, length, ltb, none, or_else, some, suc, true,
  ℕ, ◌*◌, ◌++◌, ◌+◌, ◌-◌, ◌/◌, ◌==◌, ◌^◌, ◌∷◌,
}

-- The constructor's settings, which `updateConfiguration` changes.
pub record Config : Type 0 where
  pub lockout_duration : ℕ
  pub max_failed_attempts : ℕ
  pub failed_attempt_window : ℕ
  pub incremental_lockout : Bool

-- `new AccountLockoutService()`
abbrev pub default_config : Config
default_config = record {
  lockout_duration = 15 * 60 * 1000;
  max_failed_attempts = 5;
  failed_attempt_window = 15 * 60 * 1000;
  incremental_lockout = true;
}

pub record ConfigUpdate : Type 0 where
  pub new_duration : Option ℕ
  pub new_max : Option ℕ
  pub new_window : Option ℕ
  pub new_incremental : Option Bool

-- `updateConfiguration`
unfoldable pub update_configuration : ConfigUpdate → Config → Config
update_configuration u c = record {
  lockout_duration = or_else u.new_duration c.lockout_duration;
  max_failed_attempts = or_else u.new_max c.max_failed_attempts;
  failed_attempt_window = or_else u.new_window c.failed_attempt_window;
  incremental_lockout = or_else u.new_incremental c.incremental_lockout;
}

-- An entry of `failedAttempts`.
pub record Attempts : Type 0 where
  pub count : ℕ
  pub attempts : List ℕ
  pub lockout_level : ℕ

pub data LockReason : Type 0 where
  too_many_failed_attempts admin_action : LockReason

-- An entry of `lockedAccounts`.
pub record Lock : Type 0 where
  pub locked_at : ℕ
  pub expires_at : ℕ
  pub level : ℕ
  pub reason : LockReason
  pub duration : ℕ

-- The entries of one key.
pub record Account : Type 0 where
  pub failed : Option Attempts
  pub lock : Option Lock

pub data Recorded : Type 0 where
  open_account : ℕ → Recorded  -- attempts remaining
  locked_account : Lock → Recorded

abbrev pub no_attempts : Attempts
no_attempts = record { count = 0; attempts = []; lockout_level = 0 }

-- The attempts inside the window: `now - timestamp < this.failedAttemptWindow`.
abbrev pub recent : Config → ℕ → List ℕ → List ℕ
recent c now = filter (λ t. ltb now (t + c.failed_attempt_window))

-- The lock of `lockAccount`.
unfoldable pub lock_of : Config → ℕ → Attempts → Lock
lock_of c now a =
    let level = if c.incremental_lockout then suc a.lockout_level else 1 in
    let duration =
      if c.incremental_lockout then c.lockout_duration * 2 ^ (level - 1) else c.lockout_duration in
    record {
      locked_at = now;
      expires_at = now + duration;
      level = level;
      reason = too_many_failed_attempts;
      duration = duration;
    }

-- `lockAccount`
unfoldable pub lock_account : Config → ℕ → Attempts → Account → Account × Recorded
lock_account c now a acc =
    let l = lock_of c now a in
    (
      record { failed = some (record a { lockout_level = l.level }); lock = some l },
      locked_account l,
    )

-- The attempts that `recordFailedAttempt` writes.
abbrev pub with_attempt : Config → ℕ → Option Attempts → Attempts
with_attempt c now failed =
    let before = or_else failed no_attempts in
    let times = recent c now before.attempts ++ (now ∷ []) in
    record { count = length times; attempts = times; lockout_level = before.lockout_level }

-- `recordFailedAttempt`
unfoldable pub record_failed_attempt : Config → ℕ → Account → Account × Recorded
record_failed_attempt c now acc =
    let a = with_attempt c now acc.failed in
    let recorded = record acc { failed = some a } in
    if leb c.max_failed_attempts a.count
    then lock_account c now a recorded
    else (recorded, open_account (c.max_failed_attempts - a.count))

abbrev pub reset : Attempts → Attempts
reset a = no_attempts

-- `unlockAccount`
unfoldable pub unlock_account : Account → Account
unlock_account acc = elim acc.lock [
  | none ↦ acc
  | some l ↦ record { failed = Option.map reset acc.failed; lock = none }
]

pub data LockState : Type 0 where
  not_locked : LockState
  locked : Lock → ℕ → LockState  -- with the remaining seconds

-- `isAccountLocked`
unfoldable pub is_account_locked : ℕ → Account → Account × LockState
is_account_locked now acc = elim acc.lock [
  | none ↦ (acc, not_locked)
  | some l ↦
      if ltb l.expires_at now
      then (unlock_account acc, not_locked)
      else (acc, locked l ((l.expires_at - now + 999) / 1000))
]

-- `clearFailedAttempts`
unfoldable pub clear_failed_attempts : Account → Account
clear_failed_attempts acc = record acc { failed = none }

-- `manualLockAccount`; a duration that is missing or 0 is the configured one.
unfoldable pub manual_lock_account : Config → ℕ → Option ℕ → Account → Account
manual_lock_account c now duration acc =
    let asked = or_else duration 0 in
    let d = if asked == 0 then c.lockout_duration else asked in
    record acc {
      lock = some (record {
        locked_at = now;
        expires_at = now + d;
        level = 1;
        reason = admin_action;
        duration = d;
      });
    }

abbrev pub keep_recent : Config → ℕ → Attempts → Option Attempts
keep_recent c now a =
    let times = recent c now a.attempts in
    if length times == 0 then none else some (record a { attempts = times; count = length times })

abbrev pub expire : ℕ → Account → Account
expire now acc = elim acc.lock [
  | none ↦ acc
  | some l ↦ if ltb l.expires_at now then unlock_account acc else acc
]

-- `cleanupExpiredData`, for one key.
unfoldable pub cleanup_expired_data : Config → ℕ → Account → Account
cleanup_expired_data c now acc =
    let expired = expire now acc in
    record expired { failed = elim expired.failed [ none ↦ none | some a ↦ keep_recent c now a ] }
