-- ===== src/Lockout/Tests.antt =====
-- The lockout at concrete inputs.
use meatvo_app.Base.{List, [], arith, none, refl, some, ℕ, ◌++◌, ◌∷◌, ◌≡◌}
use meatvo_app.Lockout.Account.{
  Account, Lock, admin_action, clear_failed_attempts, default_config, is_account_locked, locked,
  manual_lock_account, too_many_failed_attempts, update_configuration,
}
use meatvo_app.Lockout.BruteForce.{IsBurst, burst_is_locked, record_all}

abbrev fresh : Account
fresh = record { failed = none; lock = none }

-- Four failures, one second apart; the fifth comes at 5000.
abbrev four : List ℕ
four = 1000 ∷ 2000 ∷ 3000 ∷ 4000 ∷ []

four-IsBurst : IsBurst default_config 1000 four
four-IsBurst = ground arith

abbrev five_minutes_lock : Lock
five_minutes_lock = record {
  locked_at = 0;
  expires_at = 300000;
  level = 3;
  reason = too_many_failed_attempts;
  duration = 300000;
}

abbrev locked_before : Account
locked_before = record {
  failed = some (record { count = 7; attempts = []; lockout_level = 3 });
  lock = some five_minutes_lock;
}

burst_is_locked_example :
    (l : Lock) × (n : ℕ) × ((is_account_locked 600000
        (record_all default_config (four ++ (5000 ∷ [])) fresh)).1
      ≡ locked l n)
burst_is_locked_example =
    burst_is_locked default_config 1000 four 5000 600000 fresh refl four-IsBurst
      (ground arith, ground arith) refl (ground arith) (ground arith) (ground arith)

-- A manual lock without a duration takes the configured one.
manual :
    (manual_lock_account default_config 1000 none fresh).lock
    ≡ some (record {
      locked_at = 1000;
      expires_at = 901000;
      level = 1;
      reason = admin_action;
      duration = 900000;
    })
unfolding manual_lock_account
manual = refl

-- Clearing the failures keeps the lock.
cleared : (clear_failed_attempts locked_before).lock ≡ some five_minutes_lock
unfolding clear_failed_attempts
cleared = refl

-- A setting that is not given stays.
reconfigured :
    update_configuration
      (record { new_duration = none; new_max = some 3; new_window = none; new_incremental = none })
      default_config
    ≡ record default_config { max_failed_attempts = 3 }
unfolding update_configuration
reconfigured = refl
