-- ===== src/Abuse/Requests.antt =====
use Prim.Native.Nat.{max}
use meatvo_app.Base.{
  Bool, List, Text, [], any, codes, err, false, if◌then◌else◌, length, ltb, ok, suc, text_eq,
  to_upper, ℕ, ◌&&◌, ◌*◌, ◌++◌, ◌||◌, ◌∷◌,
}
use meatvo_app.Base.Result.{Result}
use meatvo_app.Abuse.Patterns.{
  Part, any_occurs, any_starts, between, is_blank, is_digit, is_not_newline, is_word_code, many,
  occurs, one, word,
}

-- backend/src/security/api-abuse.service.js: `analyzeUserAgent`, `analyzeRequestPattern`,
-- `analyzePayload`, `analyzeRatePatterns` and the tests on an address. Each function declares
-- `const score = 0`, so that `score += n` throws.

-- A value of JSON; an array is an object whose names are its indices.
mutual
  pub data Json : Type 0 where
    leaf : Json
    object : Members → Json

  pub data Members : Type 0 where
    end : Members
    member : Text → Json → Members → Members

-- What is read of a request: `request_text` is the JSON of the path, the query and the headers, and
-- `body_length` the length of the body's.
pub record Request : Type 0 where
  pub ip : Text
  pub user_agent : Text
  pub path : Text
  pub request_text : Text
  pub has_forwarded_for : Bool
  pub has_real_ip : Bool
  pub body : Json
  pub body_length : ℕ
  pub query : List Text  -- the names of its parameters

-- The patterns that an analysis which does not throw returns.
pub data Pattern : Type 0 where
  blocked_ip missing_or_short_ua : Pattern

pub data Thrown : Type 0 where
  assignment_to_constant not_defined : Thrown

-- `{ score, patterns }`
pub record Score : Type 0 where
  pub score : ℕ
  pub patterns : List Pattern

abbrev pub no_score : Score
no_score = record { score = 0; patterns = [] }

-- The patterns are tried in turn, and the first that is found adds to the score.
abbrev pub unless_found : Bool → Result Thrown Score
unless_found found = if found then err assignment_to_constant else ok no_score

-- `isPrivateIP`
abbrev private_ranges : List (List Part)
private_ranges =
    word (codes "10.")
    ∷ (word (codes "172.1") ++ between b'6' b'9' ∷ word (codes "."))
    ∷ (word (codes "172.2") ++ between b'0' b'9' ∷ word (codes "."))
    ∷ (word (codes "172.3") ++ between b'0' b'1' ∷ word (codes "."))
    ∷ word (codes "192.168.")
    ∷ word (codes "127.")
    ∷ word (codes "169.254.")
    ∷ word (codes "fc00:")
    ∷ word (codes "fe80:")
    ∷ []

unfoldable pub is_private_ip : Text → Bool
is_private_ip ip = any_starts private_ranges ip || text_eq ip (codes "::1")

-- `isProxyIP`
abbrev pub is_proxy_ip : Text → Bool
is_proxy_ip ip = false

-- `hasSuspiciousIPPattern`; a digit that is repeated four times is found by the first expression.
unfoldable pub has_suspicious_ip_pattern : Text → Bool
has_suspicious_ip_pattern = occurs (one is_digit ∷ one is_digit ∷ one is_digit ∷ one is_digit ∷ [])

abbrev bot_patterns : List (List Part)
bot_patterns =
    word (codes "BOT")
    ∷ word (codes "CRAWLER")
    ∷ word (codes "SPIDER")
    ∷ word (codes "SCRAPER")
    ∷ word (codes "CURL")
    ∷ word (codes "WGET")
    ∷ word (codes "PYTHON")
    ∷ word (codes "JAVA")
    ∷ word (codes "GO-HTTP")
    ∷ word (codes "POSTMAN")
    ∷ word (codes "INSOMNIA")
    ∷ []

abbrev tool_patterns : List (List Part)
tool_patterns =
    word (codes "AXIOS")
    ∷ word (codes "FETCH")
    ∷ word (codes "HTTPIE")
    ∷ word (codes "HTTP-CLIENT")
    ∷ []

-- `analyzeUserAgent`
unfoldable pub analyze_user_agent : Text → Result Thrown Score
analyze_user_agent user_agent =
    if ltb (length user_agent) 10
    then ok (record { score = 25; patterns = missing_or_short_ua ∷ [] })
    else unless_found (
        any_occurs bot_patterns (to_upper user_agent)
        || (any_occurs tool_patterns (to_upper user_agent) || ltb 500 (length user_agent)))

abbrev gap : Text → Text → List Part
gap a b = word a ++ many is_not_newline ∷ word b

abbrev sql_patterns : List (List Part)
sql_patterns =
    gap (codes "UNION") (codes "SELECT")
    ∷ gap (codes "DROP") (codes "TABLE")
    ∷ gap (codes "INSERT") (codes "INTO")
    ∷ gap (codes "DELETE") (codes "FROM")
    ∷ gap (codes "UPDATE") (codes "SET")
    ∷ (word (codes "EXEC") ++ many is_blank ∷ word (codes "("))
    ∷ word (codes "XP_CMDSHELL")
    ∷ []

abbrev xss_patterns : List (List Part)
xss_patterns =
    word (codes "<SCRIPT")
    ∷ word (codes "JAVASCRIPT:")
    ∷ (word (codes "ON") ++ one is_word_code ∷ many is_word_code ∷ many is_blank ∷ word (codes "="))
    ∷ word (codes "<IFRAME")
    ∷ word (codes "DATA:TEXT/HTML")
    ∷ []

abbrev command : Text → Text → List Part
command operator name = word operator ++ many is_blank ∷ (word name ++ one is_blank ∷ [])

abbrev cmd_patterns : List (List Part)
cmd_patterns =
    command (codes "|") (codes "rm")
    ∷ command (codes "|") (codes "cat")
    ∷ command (codes "|") (codes "ls")
    ∷ command (codes ";") (codes "rm")
    ∷ command (codes ";") (codes "cat")
    ∷ command (codes ";") (codes "ls")
    ∷ command (codes "&&") (codes "rm")
    ∷ command (codes "&&") (codes "cat")
    ∷ command (codes "&&") (codes "ls")
    ∷ []

-- `analyzeRequestPattern`
unfoldable pub analyze_request_pattern : Request → Result Thrown Score
analyze_request_pattern r = unless_found (
    occurs (word (codes "..")) r.path
    || (any_occurs sql_patterns (to_upper r.request_text)
        || (any_occurs xss_patterns (to_upper r.request_text)
            || (any_occurs cmd_patterns r.request_text || (r.has_forwarded_for && r.has_real_ip)))))

-- `getObjectDepth`
unfoldable mutual
  pub get_object_depth : Json → ℕ
  get_object_depth leaf = 0
  get_object_depth (object ms) = suc (deepest ms)

  pub deepest : Members → ℕ
  deepest end = 0
  deepest (member name v ms) = max (get_object_depth v) (deepest ms)

abbrev has_name : Text → Members → Bool
has_name name end = false
has_name name (member n v ms) = text_eq name n || has_name name ms

abbrev suspicious_fields : List Text
suspicious_fields =
    codes "admin"
    ∷ codes "root"
    ∷ codes "password"
    ∷ codes "secret"
    ∷ codes "key"
    ∷ codes "token"
    ∷ []

abbrev suspicious_params : List Text
suspicious_params =
    codes "id" ∷ codes "user" ∷ codes "admin" ∷ codes "debug" ∷ codes "test" ∷ codes "exec" ∷ []

abbrev pub is_suspicious_body : ℕ → Json → Bool
is_suspicious_body size leaf = false
is_suspicious_body size (object ms) =
    ltb (1024 * 1024) size
    || (ltb 10 (get_object_depth (object ms)) || any (λ f. has_name f ms) suspicious_fields)

-- `analyzePayload`
unfoldable pub analyze_payload : Request → Result Thrown Score
analyze_payload r = unless_found (
    is_suspicious_body r.body_length r.body
    || (ltb 50 (length r.query) || any (λ p. any (text_eq p) r.query) suspicious_params))

-- `analyzeRatePatterns`, which reads `req`, a name that is not defined there, before it writes.
unfoldable pub analyze_rate_patterns : Text → Text → Result Thrown Score
analyze_rate_patterns ip path = err not_defined
