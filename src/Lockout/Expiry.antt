-- ===== src/Lockout/Expiry.antt =====
-- What an expired lockout leaves (backend/src/security/account-lockout.service.js).
use meatvo_app.Base.{
  List, Option-cases, [], arith, inl, inr, length, some, suc, true, ℕ, ◌++◌, ◌+◌, ◌-◌, ◌<◌, ◌∷◌,
  ◌≡◌, ◌≤◌,
}
use meatvo_app.Lockout.Account.{
  Account, Config, Lock, cleanup_expired_data, is_account_locked, no_attempts, unlock_account,
}
use meatvo_app.Lockout.BruteForce.{IsBurst, burst_lock_level, entry, record_all}

-- Cleaning up at one time changes no later answer of `isAccountLocked`.
pub cleanup_expired_data_answers :
    (c : Config) (now later : ℕ) (acc : Account)
    → now ≤ later
    → (is_account_locked later (cleanup_expired_data c now acc)).1 ≡ (is_account_locked later acc).1
unfolding cleanup_expired_data is_account_locked unlock_account
cleanup_expired_data_answers c now later acc h = elim (Option-cases acc.lock) [
  | inl free ↦ ground arith
  | inr (l, e) ↦ ground arith
]

expired-entry :
    (now : ℕ) (acc : Account) (l : Lock)
    → acc.lock ≡ some l
    → l.expires_at < now
    → entry (is_account_locked now acc).0 ≡ no_attempts
unfolding is_account_locked unlock_account
expired-entry now acc l e h = elim (Option-cases acc.failed) [
  | inl gone ↦ ground arith
  | inr (a, at) ↦ ground arith
]

-- Once a check has found a lock expired, whatever its level, a run of failures inside one window whose
-- number `n` reaches the limit leads to the level n - max + 1 again, as for an account that was never
-- locked (with progressive lockout).
pub level_restarts :
    (c : Config) (a now : ℕ) (ts : List ℕ) (t : ℕ) (acc : Account) (old : Lock)
    → acc.lock ≡ some old
    → old.expires_at < now
    → IsBurst c a ts
    → (a ≤ t) × (t < a + c.failed_attempt_window)
    → c.incremental_lockout ≡ true
    → 0 < c.max_failed_attempts
    → c.max_failed_attempts ≤ suc (length ts)
    → (l : Lock) × ((record_all c (ts ++ (t ∷ [])) (is_account_locked now acc).0).lock ≡ some l)
      × (l.level ≡ suc (suc (length ts) - c.max_failed_attempts))
level_restarts c a now ts t acc old e expired run h inc pos reached =
    let (l, locks, (level, _, _)) =
      burst_lock_level c a ts t (is_account_locked now acc).0 (expired-entry now acc old e expired)
        run h inc pos reached in
    (l, locks, level)
