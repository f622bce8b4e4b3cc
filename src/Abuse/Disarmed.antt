-- ===== src/Abuse/Disarmed.antt =====
use meatvo_app.Base.{
  Bool, Bool-cases, List, Result-cases, Text, [], arith, err, false, inl, inr, leb, none, ok, refl,
  some, text_eq, text_eq_refl, ℕ, ◌+◌, ◌<◌, ◌∷◌, ◌≡◌,
}
use meatvo_app.Base.Result.{Result}
use meatvo_app.Abuse.Requests.{
  Request, Score, Thrown, analyze_payload, analyze_rate_patterns, analyze_request_pattern,
  analyze_user_agent, not_defined,
}
use meatvo_app.Abuse.Blocks.{
  Block, Service, analyze_ip, analyze_request, block_duration, block_ip, get, harmless,
  is_ip_blocked, remove, set, total_score, unblock_ip,
}

-- What the analysis of a request in backend/src/security/api-abuse.service.js comes to, and how long a
-- block lasts.

total_score-fails :
    (r : Request) (t : Result Thrown Score) → (e : Thrown) × (total_score r t ≡ err e)
unfolding total_score analyze_rate_patterns
total_score-fails r (err e) = (e, refl)
total_score-fails r (ok a) = elim (Result-cases (analyze_user_agent r.user_agent)) [
  | inr (e, x) ↦ (e, ground (arith, x))
  | inl (b, x) ↦ elim (Result-cases (analyze_request_pattern r)) [
    | inr (e, y) ↦ (e, ground (arith, x, y))
    | inl (c, y) ↦ elim (Result-cases (analyze_payload r)) [
      | inr (e, z) ↦ (e, ground (arith, x, y, z))
      | inl (d, z) ↦ (not_defined, ground (arith, x, y, z))
    ]
  ]
]

-- Whatever a request holds and wherever it comes from, a blocked address included, its analysis finds a
-- score of 0, a low risk, no pattern and no reason to block it, and it records nothing: of the service
-- only an expired block of the address is dropped.
pub analyze_request_lem :
    (now : ℕ) (r : Request) (s : Service)
    → ((analyze_request now r s).1 ≡ harmless)
      × ((analyze_request now r s).0 ≡ (is_ip_blocked now r.ip s).0)
unfolding analyze_request analyze_ip
analyze_request_lem now r s =
    let (e, fails) = total_score-fails r (analyze_ip now r.ip s).1 in
    (rw (fails, analyze_request) refl, rw (fails, analyze_request) refl)

get-set : (V : Type 0) (k : Text) (v : V) (m : List (Text × V)) → get k (set k v m) ≡ some v
get-set V k v [] = rw (text_eq_refl k) refl
get-set V k v ((j, w) ∷ m) = elim (Bool-cases (text_eq j k)) [
  | inl same ↦ rw same (rw (text_eq_refl k) refl)
  | inr apart ↦ rw apart (rw apart (get-set V k v m))
]

get-remove : (V : Type 0) (k : Text) (m : List (Text × V)) → get k (remove k m) ≡ none
get-remove V k [] = refl
get-remove V k ((j, w) ∷ m) = elim (Bool-cases (text_eq j k)) [
  | inl same ↦ rw same (get-remove V k m)
  | inr apart ↦ rw apart (rw apart (get-remove V k m))
]

-- An address that is blocked at one time is found blocked at another until 24 hours later and not
-- afterwards, when its block is dropped; unblocking it ends the block at once.
pub block_ip_lem :
    (now later score : ℕ) (ip : Text) (is_manual : Bool) (s : Service)
    → ((is_ip_blocked later ip (block_ip now ip is_manual score s)).1
        ≡ leb later (now + block_duration))
      × (now + block_duration < later
          → get ip (is_ip_blocked later ip (block_ip now ip is_manual score s)).0.blocked_ips
            ≡ none)
      × ((is_ip_blocked later ip (unblock_ip ip (block_ip now ip is_manual score s))).1 ≡ false)
unfolding is_ip_blocked block_ip unblock_ip
block_ip_lem now later score ip is_manual s =
    let b : Block = record {
      blocked_at = now;
      expires_at = now + block_duration;
      is_manual = is_manual;
      block_score = score;
    } in
    let at : get ip (set ip b s.blocked_ips) ≡ some b = get-set Block ip b s.blocked_ips in
    let gone : get ip (remove ip (set ip b s.blocked_ips)) ≡ none =
      get-remove Block ip (set ip b s.blocked_ips) in
    (ground (arith, at), λ h. ground (arith, at, gone), ground (arith, gone))
