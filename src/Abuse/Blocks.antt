-- ===== src/Abuse/Blocks.antt =====
use meatvo_app.Base.{
  Bool, List, Option, Text, [], err, false, filter, if◌then◌else◌, leb, length, ltb, none, ok,
  or_else, some, text_eq, true, ℕ, ◌*◌, ◌++◌, ◌+◌, ◌==◌, ◌>>=◌, ◌||◌, ◌∷◌,
}
use meatvo_app.Base.Result.{Result}
use meatvo_app.Abuse.Requests.{
  Pattern, Request, Score, Thrown, analyze_payload, analyze_rate_patterns, analyze_request_pattern,
  analyze_user_agent, blocked_ip, has_suspicious_ip_pattern, is_private_ip, is_proxy_ip,
  unless_found,
}

-- backend/src/security/api-abuse.service.js: the maps `blockedIPs` and `abuseAttempts`, and
-- `analyzeRequest`. Times are milliseconds; an operation reads the clock once.

pub data RiskLevel : Type 0 where
  low medium high critical : RiskLevel

-- The result of `analyzeRequest`.
pub record Analysis : Type 0 where
  pub abuse_score : ℕ
  pub risk_level : RiskLevel
  pub detected_patterns : List Pattern
  pub should_block : Bool

-- What the exception handler of `analyzeRequest` returns.
abbrev pub harmless : Analysis
harmless = record {
  abuse_score = 0;
  risk_level = low;
  detected_patterns = [];
  should_block = false;
}

-- An entry of `blockedIPs`.
pub record Block : Type 0 where
  pub blocked_at : ℕ
  pub expires_at : ℕ
  pub is_manual : Bool
  pub block_score : ℕ

-- The attempts under `abuse:<ip>` stand under the address, each with its time.
pub record Service : Type 0 where
  pub blocked_ips : List (Text × Block)
  pub abuse_attempts : List (Text × List (ℕ × Analysis))

-- The methods of a `Map` with texts as keys.
module _ {V : Type 0} where
  abbrev pub get : Text → List (Text × V) → Option V
  get k [] = none
  get k ((j, v) ∷ m) = if text_eq j k then some v else get k m

  abbrev pub set : Text → V → List (Text × V) → List (Text × V)
  set k v [] = (k, v) ∷ []
  set k v ((j, w) ∷ m) = if text_eq j k then (k, v) ∷ m else (j, w) ∷ set k v m

  abbrev pub remove : Text → List (Text × V) → List (Text × V)
  remove k [] = []
  remove k ((j, w) ∷ m) = let rest = remove k m in if text_eq j k then rest else (j, w) ∷ rest

abbrev pub abuse_window : ℕ
abuse_window = 60 * 60 * 1000

abbrev pub block_duration : ℕ
block_duration = 24 * 60 * 60 * 1000

-- `blockIP`
unfoldable pub block_ip : ℕ → Text → Bool → ℕ → Service → Service
block_ip now ip is_manual score s = record s {
  blocked_ips =
      set ip
        (record {
          blocked_at = now;
          expires_at = now + block_duration;
          is_manual = is_manual;
          block_score = score;
        })
        s.blocked_ips;
}

-- `unblockIP`
unfoldable pub unblock_ip : Text → Service → Service
unblock_ip ip s = record s { blocked_ips = remove ip s.blocked_ips }

-- `isIPBlocked`
unfoldable pub is_ip_blocked : ℕ → Text → Service → Service × Bool
is_ip_blocked now ip s = elim (get ip s.blocked_ips) [
  | none ↦ (s, false)
  | some b ↦ if ltb b.expires_at now then (unblock_ip ip s, false) else (s, true)
]

-- `getRiskLevel`
unfoldable pub get_risk_level : ℕ → RiskLevel
get_risk_level score =
    if leb 100 score
    then critical
    else if leb 80 score
    then high
    else if leb 50 score
    then medium
    else low

-- `recordAbuseAttempt`
unfoldable pub record_abuse_attempt : ℕ → Text → Analysis → Service → Service
record_abuse_attempt now ip a s =
    let before = or_else (get ip s.abuse_attempts) [] in
    let recent = filter (λ (t, x). ltb now (t + abuse_window)) (before ++ (now, a) ∷ []) in
    let s1 : Service = record s { abuse_attempts = set ip recent s.abuse_attempts } in
    if a.should_block then block_ip now ip false a.abuse_score s1 else s1

-- `analyzeIP`
unfoldable pub analyze_ip : ℕ → Text → Service → Service × Result Thrown Score
analyze_ip now ip s =
    let (s1, blocked) = is_ip_blocked now ip s in
    (
      s1,
      if blocked
          then ok (record { score = 100; patterns = blocked_ip ∷ [] })
          else unless_found (is_private_ip ip || (is_proxy_ip ip || has_suspicious_ip_pattern ip)),
    )

abbrev plus : Score → Score → Score
plus a b = record { score = a.score + b.score; patterns = a.patterns ++ b.patterns }

abbrev pub analysis_of : Score → Analysis
analysis_of t = record {
  abuse_score = t.score;
  risk_level = get_risk_level t.score;
  detected_patterns = t.patterns;
  should_block = leb 100 t.score;
}

-- The five analyses of `analyzeRequest`, in turn.
unfoldable pub total_score : Request → Result Thrown Score → Result Thrown Score
total_score r of_ip = of_ip >>= λ a. analyze_user_agent r.user_agent >>= λ b.
    analyze_request_pattern r >>= λ c. analyze_payload r >>= λ d.
    analyze_rate_patterns r.ip r.path >>= λ e. ok (plus (plus (plus (plus a b) c) d) e)

-- `analyzeRequest`
unfoldable pub analyze_request : ℕ → Request → Service → Service × Analysis
analyze_request now r s =
    let (s1, of_ip) = analyze_ip now r.ip s in
    elim (total_score r of_ip) [
      | err _ ↦ (s1, harmless)
      | ok t ↦ (record_abuse_attempt now r.ip (analysis_of t) s1, analysis_of t)
    ]

-- The two loops of `cleanupExpiredData`.
abbrev keep_blocks : ℕ → List (Text × Block) → List (Text × Block)
keep_blocks now [] = []
keep_blocks now ((ip, b) ∷ m) =
    let rest = keep_blocks now m in if ltb b.expires_at now then rest else (ip, b) ∷ rest

abbrev keep_attempts : ℕ → List (Text × List (ℕ × Analysis)) → List (Text × List (ℕ × Analysis))
keep_attempts now [] = []
keep_attempts now ((ip, l) ∷ m) =
    let recent = filter (λ (t, x). ltb now (t + abuse_window)) l in
    let rest = keep_attempts now m in if length recent == 0 then rest else (ip, recent) ∷ rest

-- `cleanupExpiredData`
unfoldable pub cleanup_expired_data : ℕ → Service → Service
cleanup_expired_data now s = record {
  blocked_ips = keep_blocks now s.blocked_ips;
  abuse_attempts = keep_attempts now s.abuse_attempts;
}
