-- ===== src/Diagnostics.antt =====
-- Error messages: `escapeUnsafeDiagnosticCharacters`, `safeQuote` and the capped list of
-- `createErrorList`, which both validators declare in the same words.
-- (dot_agents/skills/security-audit/validate-coverage-ledger.cjs, validate-findings.cjs)
pub mod Reports
pub mod Safety
use dotfiles_ai.Base.{
  ℕ, zero, suc, ◌+◌, ◌-◌, ◌/◌, ◌%◌, Bool, true, false, ◌&&◌, List, [], ◌∷◌, ◌++◌, map, none, some,
  ltb, leb, ◌==◌, if◌then◌else◌, within,
}
use dotfiles_ai.Base.Lists.{length, take}
use dotfiles_ai.Js.Text.{Text, lit, hex_digit, hex4}
use dotfiles_ai.Js.Text.Points.{code_points, from_point, from_points}
use dotfiles_ai.Js.Number.{is_finite}
use dotfiles_ai.Js.Json.{Json, null, boolean, number, string, array, object, Value}
use dotfiles_ai.Js.Runtime.{Runtime, is_unsafe, is_surrogate}

-- `LIMITS.validationErrors`
abbrev pub max_errors : ℕ
max_errors = 100

-- `MAX_DIAGNOSTIC_STRING_LENGTH`
abbrev max_quoted : ℕ
max_quoted = 256

-- `codePoint.toString(16)`; the fuel is above the number of digits.
unfoldable pub hex_onto : ℕ → ℕ → Text → Text
hex_onto zero n out = out
hex_onto (suc fuel) n out =
    let longer = hex_onto fuel (n / 16) (hex_digit (n % 16) ∷ out) in
    if ltb n 16 then hex_digit n ∷ out else longer

-- The replacement of one unsafe character.
unfoldable pub escape_point : ℕ → List ℕ
unfolding hex_onto hex4
escape_point c =
    if leb c 0xffff
    then b'\\' ∷ b'u' ∷ hex4 c
    else b'\\' ∷ b'u' ∷ b'{' ∷ (hex_onto (c + 1) c [] ++ b'}' ∷ [])

-- One character as the body of a JSON string.
unfoldable pub quote_point : ℕ → List ℕ
unfolding hex4
quote_point c =
    if c == 8
    then b'\\' ∷ b'b' ∷ []
    else if c == 9
    then b'\\' ∷ b't' ∷ []
    else if c == 10
    then b'\\' ∷ b'n' ∷ []
    else if c == 12
    then b'\\' ∷ b'f' ∷ []
    else if c == 13
    then b'\\' ∷ b'r' ∷ []
    else if c == b'"'
    then b'\\' ∷ b'"' ∷ []
    else if c == b'\\'
    then b'\\' ∷ b'\\' ∷ []
    else if ltb c 32
    then b'\\' ∷ b'u' ∷ hex4 c
    else if is_surrogate c
    then b'\\' ∷ b'u' ∷ hex4 c
    else c ∷ []

quote_points : List ℕ → List ℕ
unfolding quote_point
quote_points [] = []
quote_points (c ∷ cs) = quote_point c ++ quote_points cs

-- `JSON.stringify` of a string.
unfoldable pub quote : Text → Text
unfolding quote_points code_points from_points
quote s = b'"' ∷ (from_points (quote_points (code_points s)) ++ b'"' ∷ [])

abbrev pub Errors : Type 0
Errors = List Text

module _ ⦃rt : Runtime⦄ where
  unfoldable pub escape_points : List ℕ → List ℕ
  escape_points [] = []
  escape_points (c ∷ cs) = (if is_unsafe c then escape_point c else c ∷ []) ++ escape_points cs

  -- `escapeUnsafeDiagnosticCharacters`
  unfoldable pub escape : Text → Text
  unfolding escape_points
  escape s = from_points (escape_points (code_points s))

  -- what `safeQuote` serializes, before it is escaped
  serialized : Value → Text
  unfolding quote lit
  serialized none = lit "\"<undefined>\""
  serialized (some null) = lit "null"
  serialized (some (boolean true)) = lit "true"
  serialized (some (boolean false)) = lit "false"
  serialized (some (number n)) = if is_finite n then rt.number_text n else lit "\"<number>\""
  serialized (some (string s)) =
      quote (if ltb max_quoted (length s) then take max_quoted s ++ lit "..." else s)
  serialized (some (array vs)) = lit "\"<array>\""
  serialized (some (object fs)) = lit "\"<object>\""

  -- `safeQuote`
  unfoldable pub safe_quote : Value → Text
  unfolding serialized
  safe_quote v = escape (serialized v)

  -- `push(...messages)` of the list that `createErrorList` returns.
  unfoldable pub push : Errors → List Text → Errors
  push errors messages =
      let remaining = max_errors - length errors in
      if ltb 0 remaining then errors ++ map escape (take remaining messages) else errors
