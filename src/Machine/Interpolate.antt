-- ===== src/Machine/Interpolate.antt =====
-- backend/src/utils/enhancedOrderStateMachine.js, `interpolate`: `{key}` in a text is replaced by the
-- context's value, where the key is one or more word characters and the value is not empty.
use mathlib.Core.List.{append-nil, append_assoc}
use meatvo_app.Base.{
  ==_iff, All, Bool, Bool-cases, Option, Text, [], ap, arith, false, if◌then◌else◌, inl, inr, leb,
  none, not, refl, some, text_eq, text_eq_iff, true, ℕ, ◌&&◌, ◌++◌, ◌==◌, ◌||◌, ◌∷◌, ◌≡◌, ◌≢◌,
}

-- `\w`
unfoldable pub is_word : ℕ → Bool
is_word c =
    (leb b'a' c && leb c b'z')
    || (leb b'A' c && leb c b'Z')
    || (leb b'0' c && leb c b'9')
    || c == b'_'

-- `context[key] || match`, where the match is `{key}`.
value_or_match : (Text → Option Text) → Text → Text
value_or_match context key =
    let match = b'{' ∷ (key ++ b'}' ∷ []) in
    elim (context key) [ none ↦ match | some v ↦ if text_eq v [] then match else v ]

mutual
  unfolding is_word value_or_match

  -- Outside a candidate key.
  scan : (Text → Option Text) → Text → Text
  scan context [] = []
  scan context (c ∷ s) =
      let inside = scan_key context [] s in
      let outside = c ∷ scan context s in if c == b'{' then inside else outside

  -- Behind a `{` and the word characters `key`.
  scan_key : (Text → Option Text) → Text → Text → Text
  scan_key context key [] = b'{' ∷ key
  scan_key context key (c ∷ s) =
      let more = scan_key context (key ++ c ∷ []) s in
      let replaced = value_or_match context key ++ scan context s in
      let restarted = (b'{' ∷ key) ++ scan_key context [] s in
      let given_up = (b'{' ∷ key) ++ (c ∷ scan context s) in
      if is_word c
      then more
      else if c == b'}' && not (text_eq key [])
      then replaced
      else if c == b'{'
      then restarted
      else given_up

unfoldable pub interpolate : Text → (Text → Option Text) → Text
unfolding scan scan_key
interpolate str context = scan context str

-- A context that has a value for no key.
abbrev pub blank : Text → Option Text
blank key = none

mutual
  unfolding scan scan_key value_or_match

  scan-blank : (s : Text) → scan blank s ≡ s
  scan-blank [] = refl
  scan-blank (c ∷ s) = elim (Bool-cases (c == b'{')) [
    | inl brace ↦ rw brace (rw (scan_key-blank [] s) (ground arith))
    | inr plain ↦ rw plain (ap (λ t. c ∷ t) (scan-blank s))
  ]

  scan_key-blank : (key s : Text) → scan_key blank key s ≡ b'{' ∷ (key ++ s)
  scan_key-blank key [] = rw append-nil
  scan_key-blank key (c ∷ s) = elim (Bool-cases (is_word c)) [
    | inl word ↦ rw word (rw (scan_key-blank (key ++ c ∷ []) s) (rw append_assoc))
    | inr other ↦ rw other (elim (Bool-cases (c == b'}' && not (text_eq key []))) [
      | inl closed ↦ let e : c ≡ b'}' = ground arith in rw (closed, e, scan-blank s, append_assoc)
      | inr open_key ↦ rw open_key (elim (Bool-cases (c == b'{')) [
        | inl brace ↦
            let e : c ≡ b'{' = (==_iff c b'{').0 brace in rw (brace, e, scan_key-blank [] s)
        | inr plain ↦ rw (plain, scan-blank s)
      ])
    ])
  ]

-- A text is left as it is where the context has no value for any key.
pub interpolate-blank : (str : Text) → interpolate str blank ≡ str
unfolding interpolate
interpolate-blank str = scan-blank str

scan_key-word :
    (context : Text → Option Text) (d : ℕ) (done key rest : Text)
    → All (λ c. is_word c ≡ true) key
    → scan_key context (d ∷ done) (key ++ b'}' ∷ rest)
      ≡ value_or_match context (d ∷ (done ++ key)) ++ scan context rest
unfolding scan scan_key
scan_key-word context d done [] rest w = rw append-nil
scan_key-word context d done (c ∷ key) rest w =
    rw (w.0) (rw (scan_key-word context d (done ++ c ∷ []) key rest w.1) (rw append_assoc))

value-some :
    (context : Text → Option Text) (key v : Text)
    → context key ≡ some v
    → v ≢ []
    → value_or_match context key ≡ v
unfolding value_or_match
value-some context key v e nv = ground (arith, text_eq_iff v [])

scan-plain :
    (context : Text → Option Text) (pre rest : Text)
    → All (λ c. (c == b'{') ≡ false) pre
    → scan context (pre ++ rest) ≡ pre ++ scan context rest
unfolding scan
scan-plain context [] rest h = refl
scan-plain context (c ∷ pre) rest h = rw (h.0) (ap (λ t. c ∷ t) (scan-plain context pre rest h.1))

scan_placeholder :
    (context : Text → Option Text) (k : ℕ) (key v rest : Text)
    → All (λ c. is_word c ≡ true) (k ∷ key)
    → context (k ∷ key) ≡ some v
    → v ≢ []
    → scan context (b'{' ∷ k ∷ (key ++ b'}' ∷ rest)) ≡ v ++ scan context rest
unfolding scan scan_key
scan_placeholder context k key v rest hk e nv = rw (hk.0) (
    rw (scan_key-word context k [] key rest hk.1)
      (ap (λ t. t ++ scan context rest) (value-some context (k ∷ key) v e nv)))

-- A key of one or more word characters that stands in braces, behind a text with no opening brace,
-- is replaced by its value where the context has one that is not empty; what follows the key is
-- interpolated in turn.
pub interpolate_key :
    (context : Text → Option Text) (pre : Text) (k : ℕ) (key v rest : Text)
    → All (λ c. (c == b'{') ≡ false) pre
    → All (λ c. is_word c ≡ true) (k ∷ key)
    → context (k ∷ key) ≡ some v
    → v ≢ []
    → interpolate (pre ++ (b'{' ∷ k ∷ (key ++ b'}' ∷ rest))) context
      ≡ pre ++ (v ++ interpolate rest context)
unfolding interpolate
interpolate_key context pre k key v rest hp hk e nv =
    rw (scan-plain context pre (b'{' ∷ k ∷ (key ++ b'}' ∷ rest)) hp)
      (ap (λ t. pre ++ t) (scan_placeholder context k key v rest hk e nv))
