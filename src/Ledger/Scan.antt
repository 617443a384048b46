-- ===== src/Ledger/Scan.antt =====
-- `preflightJsonText`: the scan of the raw text, before `JSON.parse` builds anything from it.
-- (dot_agents/skills/security-audit/validate-coverage-ledger.cjs)
use dotfiles_ai.Base.{ℕ, suc, Bool, true, false, not, ◌&&◌, ◌||◌, List, [], ◌∷◌, ltb, leb, ◌==◌}
use dotfiles_ai.Base.Lists.{length}
use dotfiles_ai.Js.Text.{Text, lit}
use dotfiles_ai.Ledger.Preflight.{max_units, max_items, max_fields, max_depth, max_values}

-- `container.state`
pub data Place : Type 0 where
  first_value_or_end : Place
  value : Place
  comma_or_end : Place
  first_key_or_end : Place
  key : Place
  colon : Place

-- An entry of `containers`; the innermost one stands first.
pub data Container : Type 0 where
  open_array : (place : Place) → (count : ℕ) → (top_level : Bool) → Container
  open_object : (place : Place) → (count : ℕ) → Container

-- `inString` and `escaped`, and the inner `while` over the rest of a token.
pub data Mode : Type 0 where
  outside : Mode
  in_string : Mode
  after_backslash : Mode
  in_token : Mode

-- The variables of the scan; `has_root` is `rootState === "end"`.
pub record Scan : Type 0 where
  pub containers : List Container
  pub has_root : Bool
  pub mode : Mode
  pub total : ℕ

-- What a step gives, or the message of the JsonStructureError.
pub data Outcome : Type 0 where
  fail : (message : Text) → Outcome
  go : (scan : Scan) → Outcome

abbrev pub and_then : (Scan → Outcome) → Outcome → Outcome
and_then next (fail message) = fail message
and_then next (go scan) = next scan

-- `if (test) fail(message)`, and what follows it
unfoldable pub fail_if : Bool → Text → Outcome → Outcome
fail_if true message rest = fail message
fail_if false message rest = rest

-- `if … else …`
unfoldable pub either : Bool → Outcome → Outcome → Outcome
either true a b = a
either false a b = b

abbrev pub start : Scan
start = record { containers = []; has_root = false; mode = outside; total = 0 }

abbrev pub is_place : Place → Place → Bool
is_place first_value_or_end first_value_or_end = true
is_place value value = true
is_place comma_or_end comma_or_end = true
is_place first_key_or_end first_key_or_end = true
is_place key key = true
is_place colon colon = true
is_place _ _ = false

-- `countValue`, with the containers as the value leaves them
unfoldable pub count_value : List Container → Scan → Outcome
count_value containers scan =
    fail_if (ltb max_values (suc scan.total)) (lit "input exceeds 500000 total value limit")
      (go (record scan { containers = containers; total = suc scan.total }))

abbrev pub unit_limit : Bool → ℕ
unit_limit true = max_units
unit_limit false = max_items

abbrev pub too_many : Bool → Text
too_many true = lit "input exceeds 10000 top-level unit limit"
too_many false = lit "input exceeds 1000 item array limit"

-- `beginValue`
unfoldable pub begin_value : List Container → Scan → Outcome
unfolding count_value
begin_value [] scan =
    fail_if scan.has_root (lit "input has malformed JSON structure")
      (count_value [] (record scan { has_root = true }))
begin_value (open_array place count top_level ∷ outer) scan =
    fail_if (not (is_place place first_value_or_end) && not (is_place place value))
      (lit "input has malformed JSON array structure")
      (fail_if (ltb (unit_limit top_level) (suc count)) (too_many top_level)
        (count_value (open_array comma_or_end (suc count) top_level ∷ outer) scan))
begin_value (open_object place count ∷ outer) scan =
    fail_if (not (is_place place value)) (lit "input has malformed JSON object structure")
      (count_value (open_object comma_or_end count ∷ outer) scan)

abbrev pub open_string : Scan → Outcome
open_string scan = go (record scan { mode = in_string })

-- `beginString`
unfoldable pub begin_string : List Container → Scan → Outcome
unfolding begin_value
begin_string (open_object place count ∷ outer) scan =
    either (is_place place first_key_or_end || is_place place key)
      (fail_if (ltb max_fields (suc count)) (lit "input exceeds 1000 field object limit")
        (open_string (record scan { containers = open_object colon (suc count) ∷ outer })))
      (and_then open_string (begin_value (open_object place count ∷ outer) scan))
begin_string containers scan = and_then open_string (begin_value containers scan)

-- the end of `beginContainer`
unfoldable pub push_container : (List Container → Container) → Scan → Outcome
push_container new scan =
    fail_if (leb max_depth (length scan.containers)) (lit "input exceeds nesting depth limit 64")
      (go (record scan { containers = new scan.containers ∷ scan.containers }))

abbrev pub new_array : List Container → Container
new_array outer = open_array first_value_or_end 0 (length outer == 0)

abbrev pub new_object : List Container → Container
new_object outer = open_object first_key_or_end 0

-- `closeContainer("array")`
unfoldable pub close_array : List Container → Scan → Outcome
close_array (open_array place count top_level ∷ outer) scan =
    fail_if (not (is_place place first_value_or_end || is_place place comma_or_end))
      (lit "input has malformed JSON array structure") (go (record scan { containers = outer }))
close_array _ scan = fail (lit "input has mismatched JSON containers")

-- `closeContainer("object")`
unfoldable pub close_object : List Container → Scan → Outcome
close_object (open_object place count ∷ outer) scan =
    fail_if (not (is_place place first_key_or_end || is_place place comma_or_end))
      (lit "input has malformed JSON object structure") (go (record scan { containers = outer }))
close_object _ scan = fail (lit "input has mismatched JSON containers")

-- the branch on `:`
unfoldable pub see_colon : List Container → Scan → Outcome
see_colon (open_object place count ∷ outer) scan =
    fail_if (not (is_place place colon)) (lit "input has malformed JSON object structure")
      (go (record scan { containers = open_object value count ∷ outer }))
see_colon _ scan = fail (lit "input has malformed JSON object structure")

-- the branch on `,`
unfoldable pub see_comma : List Container → Scan → Outcome
see_comma (open_array place count top_level ∷ outer) scan =
    fail_if (not (is_place place comma_or_end))
      (lit "input has malformed JSON collection structure")
      (go (record scan { containers = open_array value count top_level ∷ outer }))
see_comma (open_object place count ∷ outer) scan =
    fail_if (not (is_place place comma_or_end))
      (lit "input has malformed JSON collection structure")
      (go (record scan { containers = open_object key count ∷ outer }))
see_comma [] scan = fail (lit "input has malformed JSON collection structure")

-- `isWhitespace`
unfoldable pub is_blank : ℕ → Bool
is_blank c = c == b' ' || c == 9 || c == 13 || c == 10

-- `isTokenDelimiter`
unfoldable pub is_delimiter : ℕ → Bool
is_delimiter c =
    is_blank c
    || c == b','
    || c == b':'
    || c == b'['
    || c == b']'
    || c == b'{'
    || c == b'}'
    || c == b'"'

abbrev pub in_mode : Mode → Scan → Outcome
in_mode mode scan = go (record scan { mode = mode })

-- the branches on a character that is in no string
unfoldable pub see : ℕ → Scan → Outcome
unfolding begin_string begin_value push_container close_array close_object see_colon see_comma
    is_blank
see c scan =
    let containers = scan.containers in
    either (is_blank c) (go scan) (
      either (c == b'"') (begin_string containers scan) (
        either (c == b'[') (and_then (push_container new_array) (begin_value containers scan)) (
          either (c == b'{') (and_then (push_container new_object) (begin_value containers scan)) (
            either (c == b']') (close_array containers scan) (
              either (c == b'}') (close_object containers scan) (
                either (c == b':') (see_colon containers scan) (
                  either (c == b',') (see_comma containers scan)
                    (and_then (in_mode in_token) (begin_value containers scan)))))))))

-- The body of the `for` loop. A token ends before the first delimiter.
unfoldable pub step : Mode → ℕ → Scan → Outcome
unfolding see is_delimiter
step after_backslash c scan = in_mode in_string scan
step in_string c scan =
    either (c == b'\\') (in_mode after_backslash scan)
      (either (c == b'"') (in_mode outside scan) (go scan))
step in_token c scan = either (is_delimiter c) (see c (record scan { mode = outside })) (go scan)
step outside c scan = see c scan

unfoldable pub scan_text : Text → Scan → Outcome
unfolding step
scan_text [] scan = go scan
scan_text (c ∷ cs) scan = and_then (scan_text cs) (step scan.mode c scan)

abbrev pub in_a_string : Mode → Bool
in_a_string in_string = true
in_a_string after_backslash = true
in_a_string _ = false

-- the three tests after the loop
unfoldable pub finish : Scan → Outcome
finish scan = fail_if (in_a_string scan.mode) (lit "input has an unterminated JSON string") (
    fail_if (ltb 0 (length scan.containers)) (lit "input has truncated JSON structure")
      (fail_if (not scan.has_root) (lit "input has no JSON value") (go scan)))

-- `preflightJsonText`
unfoldable pub preflight_json_text : Text → Outcome
unfolding scan_text finish
preflight_json_text contents = and_then finish (scan_text contents start)
