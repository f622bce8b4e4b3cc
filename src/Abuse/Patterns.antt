-- ===== src/Abuse/Patterns.antt =====
use meatvo_app.Base.{
  Bool, List, Text, [], any, false, leb, map, not, true, ℕ, ◌&&◌, ◌==◌, ◌||◌, ◌∷◌,
}

-- The regular expressions of backend/src/security/api-abuse.service.js. An expression with the flag `i`
-- is written in capitals and tried on the text in capitals.

-- A part of an expression: one character of a set, or any number of them.
pub data Part : Type 0 where
  one many : (ℕ → Bool) → Part

abbrev skip : (ℕ → Bool) → (Text → Bool) → Text → Bool
skip p rest [] = rest []
skip p rest (c ∷ s) = rest (c ∷ s) || (p c && skip p rest s)

abbrev step_over : (ℕ → Bool) → (Text → Bool) → Text → Bool
step_over p rest [] = false
step_over p rest (c ∷ s) = p c && rest s

-- `/^.../.test(s)`
abbrev pub starts : List Part → Text → Bool
starts [] s = true
starts (one p ∷ ps) s = step_over p (starts ps) s
starts (many p ∷ ps) s = skip p (starts ps) s

-- `/.../.test(s)`
abbrev pub occurs : List Part → Text → Bool
occurs ps [] = starts ps []
occurs ps (c ∷ s) = starts ps (c ∷ s) || occurs ps s

abbrev exactly : ℕ → Part
exactly c = one (λ d. d == c)

abbrev pub word : Text → List Part
word = map exactly

-- `[a-b]`
abbrev pub between : ℕ → ℕ → Part
between a b = one (λ c. leb a c && leb c b)

-- `\d`, `\w`, `\s` and `.`
abbrev pub is_digit : ℕ → Bool
is_digit c = leb b'0' c && leb c b'9'

abbrev pub is_word_code : ℕ → Bool
is_word_code c =
    is_digit c || ((leb b'a' c && leb c b'z') || ((leb b'A' c && leb c b'Z') || c == b'_'))

abbrev pub is_blank : ℕ → Bool
is_blank c = c == 32 || (leb 9 c && leb c 13)

abbrev pub is_not_newline : ℕ → Bool
is_not_newline c = not (c == 10 || c == 13)

-- `patterns.some((p) => p.test(s))`
abbrev pub any_occurs : List (List Part) → Text → Bool
any_occurs ps s = any (λ p. occurs p s) ps

abbrev pub any_starts : List (List Part) → Text → Bool
any_starts ps s = any (λ p. starts p s) ps
