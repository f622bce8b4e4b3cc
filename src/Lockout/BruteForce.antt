-- ===== src/Lockout/BruteForce.antt =====
-- The lockout against a run of failed logins (backend/src/security/account-lockout.service.js).
use meatvo_app.Base.{
  All, Bool, List, [], ap, arith, filter, length, length-append, ltb, or_else, refl, some, subst,
  suc, sym, true, zero, ℕ, ◌*◌, ◌++◌, ◌+◌, ◌-◌, ◌/◌, ◌<◌, ◌^◌, ◌∙◌, ◌∷◌, ◌≡◌, ◌≤◌,
}
use meatvo_app.Lockout.Account.{
  Account, Attempts, Config, Lock, is_account_locked, lock_account, lock_of, locked, no_attempts,
  recent, record_failed_attempt, with_attempt,
}

-- The failed logins of a run, one after the other.
abbrev pub record_all : Config → List ℕ → Account → Account
record_all c [] acc = acc
record_all c (t ∷ ts) acc = record_all c ts (record_failed_attempt c t acc).0

-- The run falls into one window that starts at `a`.
abbrev pub IsBurst : Config → ℕ → List ℕ → Type 0
IsBurst c a = All (λ t. (a ≤ t) × (t < a + c.failed_attempt_window))

recent-burst :
    (c : Config) (a now : ℕ) (ts : List ℕ)
    → now < a + c.failed_attempt_window
    → IsBurst c a ts
    → recent c now ts ≡ ts
recent-burst c a now [] h burst = refl
recent-burst c a now (t ∷ ts) h burst = ground (arith, recent-burst c a now ts h burst.1)

length-filter-≤ : (p : ℕ → Bool) (ts : List ℕ) → length (filter p ts) ≤ length ts
length-filter-≤ p [] = omega arith
length-filter-≤ p (t ∷ ts) = ground (arith, length-filter-≤ p ts)

-- The entry of an account, which a missing one starts as.
abbrev pub entry : Account → Attempts
entry acc = or_else acc.failed no_attempts

length-snoc : (ts : List ℕ) (t : ℕ) → length (ts ++ (t ∷ [])) ≡ suc (length ts)
length-snoc ts t = length-append ts (t ∷ []) ∙ omega arith

All-snoc :
    (c : Config) (a t : ℕ) (ts : List ℕ)
    → IsBurst c a ts
    → (a ≤ t) × (t < a + c.failed_attempt_window)
    → IsBurst c a (ts ++ (t ∷ []))
All-snoc c a t [] burst h = (h, tt)
All-snoc c a t (u ∷ ts) burst h = (burst.0, All-snoc c a t ts burst.1 h)

-- One more failure in the run.
step-times :
    (c : Config) (a t : ℕ) (acc : Account)
    → IsBurst c a (entry acc).attempts
    → (a ≤ t) × (t < a + c.failed_attempt_window)
    → (entry (record_failed_attempt c t acc).0).attempts ≡ (entry acc).attempts ++ (t ∷ [])
unfolding record_failed_attempt lock_account
step-times c a t acc burst h = ground (arith, recent-burst c a t (entry acc).attempts h.1 burst)

-- How many locks a run of `n` failures has made.
abbrev pub locks_after : Config → ℕ → ℕ
locks_after c n = n - (c.max_failed_attempts - 1)

step-level :
    (c : Config) (a t : ℕ) (acc : Account)
    → IsBurst c a (entry acc).attempts
    → (a ≤ t) × (t < a + c.failed_attempt_window)
    → c.incremental_lockout ≡ true
    → 0 < c.max_failed_attempts
    → (entry acc).lockout_level ≡ locks_after c (length (entry acc).attempts)
    → (entry (record_failed_attempt c t acc).0).lockout_level
      ≡ locks_after c (suc (length (entry acc).attempts))
unfolding record_failed_attempt lock_account lock_of
step-level c a t acc burst h inc pos e =
    ground
      (arith, recent-burst c a t (entry acc).attempts h.1 burst, length-snoc (entry acc).attempts t)

-- The lock that a failure at `t` makes, the `n`-th of its run.
abbrev pub IsLockOf : Config → ℕ → ℕ → Lock → Type 0
IsLockOf c t n l =
    (l.level ≡ suc (n - c.max_failed_attempts))
    × (l.duration ≡ c.lockout_duration * 2 ^ (n - c.max_failed_attempts))
    × (l.expires_at ≡ t + l.duration)

step-lock :
    (c : Config) (a t : ℕ) (acc : Account)
    → IsBurst c a (entry acc).attempts
    → (a ≤ t) × (t < a + c.failed_attempt_window)
    → c.incremental_lockout ≡ true
    → 0 < c.max_failed_attempts
    → (entry acc).lockout_level ≡ locks_after c (length (entry acc).attempts)
    → c.max_failed_attempts ≤ suc (length (entry acc).attempts)
    → (l : Lock) × ((record_failed_attempt c t acc).0.lock ≡ some l)
      × IsLockOf c t (suc (length (entry acc).attempts)) l
unfolding record_failed_attempt lock_account lock_of
step-lock c a t acc burst h inc pos e reached =
    let n = length (entry acc).attempts in
    let level : (entry acc).lockout_level ≡ suc n - c.max_failed_attempts = omega arith in
    (
      lock_of c t (with_attempt c t acc.failed),
      ground (
        arith,
        recent-burst c a t (entry acc).attempts h.1 burst,
        length-snoc (entry acc).attempts t,
      ),
      (ground arith, ground arith, ground arith),
    )

-- The failures of a run up to one that reaches the limit: the lock is the last failure's.
run_lock :
    (c : Config) (a : ℕ) (ts : List ℕ) (t : ℕ) (acc : Account)
    → IsBurst c a (entry acc).attempts
    → IsBurst c a ts
    → (a ≤ t) × (t < a + c.failed_attempt_window)
    → c.incremental_lockout ≡ true
    → 0 < c.max_failed_attempts
    → (entry acc).lockout_level ≡ locks_after c (length (entry acc).attempts)
    → c.max_failed_attempts ≤ suc (length (entry acc).attempts + length ts)
    → (l : Lock) × ((record_all c (ts ++ (t ∷ [])) acc).lock ≡ some l)
      × IsLockOf c t (suc (length (entry acc).attempts + length ts)) l
run_lock c a [] t acc burst run h inc pos e reached =
    let (l, locks, is) = step-lock c a t acc burst h inc pos e (omega arith) in
    (l, locks, subst (λ n. IsLockOf c t (suc n) l) (omega arith) is)
run_lock c a (u ∷ ts) t acc burst run h inc pos e reached =
    let next = (record_failed_attempt c u acc).0 in
    let times = step-times c a u acc burst run.0 in
    let n : length (entry next).attempts ≡ suc (length (entry acc).attempts) =
      ap length times ∙ length-snoc (entry acc).attempts u in
    let level : (entry next).lockout_level ≡ locks_after c (length (entry next).attempts) =
      step-level c a u acc burst run.0 inc pos e ∙ ap (locks_after c) (sym n) in
    let (l, locks, is) =
      run_lock c a ts t next
        (subst (IsBurst c a) (sym times) (All-snoc c a u (entry acc).attempts burst run.0)) run.1 h
        inc pos level (omega arith) in
    (l, locks, subst (λ n. IsLockOf c t (suc n) l) (omega arith) is)

-- An account without failed attempts, after a run of failures inside one window whose number `n`
-- reaches the limit, with progressive lockout: the lock in force was made by the last failure, its
-- level is the number of failures from the limit on (n - max + 1), and its duration is the configured
-- one doubled for each failure beyond the limit (times 2 ^ (n - max)).
pub burst_lock_level :
    (c : Config) (a : ℕ) (ts : List ℕ) (t : ℕ) (acc : Account)
    → entry acc ≡ no_attempts
    → IsBurst c a ts
    → (a ≤ t) × (t < a + c.failed_attempt_window)
    → c.incremental_lockout ≡ true
    → 0 < c.max_failed_attempts
    → c.max_failed_attempts ≤ suc (length ts)
    → (l : Lock) × ((record_all c (ts ++ (t ∷ [])) acc).lock ≡ some l)
      × IsLockOf c t (suc (length ts)) l
burst_lock_level c a ts t acc fresh run h inc pos reached =
    let none_yet : (entry acc).attempts ≡ [] = ap (λ a. a.attempts) fresh in
    let zero_level : (entry acc).lockout_level ≡ 0 = ap (λ a. a.lockout_level) fresh in
    let n : length (entry acc).attempts ≡ 0 = ap length none_yet in
    let (l, locks, is) =
      run_lock c a ts t acc (subst (IsBurst c a) (sym none_yet) tt) run h inc pos (omega arith)
        (omega arith) in
    (l, locks, subst (λ n. IsLockOf c t (suc n) l) (omega arith) is)

pow_pos : (k : ℕ) → 0 < 2 ^ k
pow_pos zero = omega arith
pow_pos (suc k) = omega (arith, pow_pos k)

longer : (d k : ℕ) → d ≤ d * 2 ^ k
longer d k = grind (arith, pow_pos k)

-- An account without failed attempts, after a run of failures inside one window whose number reaches
-- the limit, with progressive lockout, is reported as locked at every time up to the configured
-- duration after the last failure.
pub burst_is_locked :
    (c : Config) (a : ℕ) (ts : List ℕ) (t now : ℕ) (acc : Account)
    → entry acc ≡ no_attempts
    → IsBurst c a ts
    → (a ≤ t) × (t < a + c.failed_attempt_window)
    → c.incremental_lockout ≡ true
    → 0 < c.max_failed_attempts
    → c.max_failed_attempts ≤ suc (length ts)
    → now ≤ t + c.lockout_duration
    → (l : Lock) × (n : ℕ) × ((is_account_locked now (record_all c (ts ++ (t ∷ [])) acc)).1
        ≡ locked l n)
unfolding is_account_locked
burst_is_locked c a ts t now acc fresh run h inc pos reached soon =
    let (l, locks, (_, length_of, until)) =
      burst_lock_level c a ts t acc fresh run h inc pos reached in
    let more = longer c.lockout_duration (suc (length ts) - c.max_failed_attempts) in
    (l, (l.expires_at - now + 999) / 1000, ground arith)

few-step :
    (c : Config) (t : ℕ) (acc : Account)
    → suc (length (entry acc).attempts) < c.max_failed_attempts
    → ((record_failed_attempt c t acc).0.lock ≡ acc.lock)
      × (length (entry (record_failed_attempt c t acc).0).attempts
          ≤ suc (length (entry acc).attempts))
unfolding record_failed_attempt lock_account
few-step c t acc h =
    let times = recent c t (entry acc).attempts in
    let fewer = length-filter-≤ (λ u. ltb t (u + c.failed_attempt_window)) (entry acc).attempts in
    let n = length-snoc times t in ground arith

-- Failures whose number, with the attempts on record, stays below the limit lock nothing, whenever
-- they happen.
pub few_failures_lock_nothing :
    (c : Config) (ts : List ℕ) (acc : Account)
    → length (entry acc).attempts + length ts < c.max_failed_attempts
    → (record_all c ts acc).lock ≡ acc.lock
few_failures_lock_nothing c [] acc h = refl
few_failures_lock_nothing c (t ∷ ts) acc h =
    let (same, n) = few-step c t acc (omega arith) in
    few_failures_lock_nothing c ts (record_failed_attempt c t acc).0 (omega arith) ∙ same
