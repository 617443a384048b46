-- ===== src/Findings/Document.antt =====
-- `collect`, `validateDocument`, `loadSchema` and `run`. The file is read by the function that the
-- validator of ledgers has too; the schema that stands beside the program is an argument.
-- (dot_agents/skills/security-audit/validate-findings.cjs)
pub mod Correct
pub mod Exit
pub mod Bounded
use dotfiles_ai.Base.{
  ℕ, Bool, true, false, List, [], ◌∷◌, ◌++◌, map, Option, none, some, ltb, ◌==◌, if◌then◌else◌,
}
use dotfiles_ai.Base.Lists.{length}
use dotfiles_ai.Js.Text.{Text, lit, decimal}
use dotfiles_ai.Js.Json.{Json, array, string, items}
use dotfiles_ai.Js.Runtime.{Runtime}
use dotfiles_ai.Diagnostics.{Errors, max_errors, push, escape}
use dotfiles_ai.Ledger.Run.{
  System, Read, unsafe, failed, contents, read_file, Finished, stop, capped,
}
use dotfiles_ai.Findings.Schema.{Patterns, collect_schema_errors}
use dotfiles_ai.Findings.Validate.{collect_unchecked}
use dotfiles_ai.Findings.Verdict.{collect_finding_semantic_errors}
use dotfiles_ai.Findings.DataLimits.{collect_data_limit_errors}
use dotfiles_ai.Findings.TextLimits.{Limited, throws, passes, Scanner, enforce_json_text_limits}

-- An exception with its message, or a schema.
pub data Load : Type 0 where
  thrown : (message : Text) → Load
  loaded : (schema : Json) → Load

-- `errors.join("\n")`
unfoldable pub join_lines : List Text → Text
join_lines [] = []
join_lines (s ∷ []) = s
join_lines (s ∷ t ∷ ss) = s ++ (10 ∷ join_lines (t ∷ ss))

-- `findings.length`; only arrays pass the report schema of the repository.
abbrev pub length_text : Json → Text
unfolding lit
length_text (array vs) = decimal (length (items vs))
length_text (string s) = decimal (length s)
length_text _ = lit "undefined"

module _ ⦃rt : Runtime⦄ (patterns : Patterns) where
  -- `if (errors.length < LIMITS.validationErrors) errors.push(…)`
  unfoldable pub add_semantic : Json → Errors → Errors
  unfolding collect_finding_semantic_errors push
  add_semantic findings errors =
      if ltb (length errors) max_errors
      then push errors (collect_finding_semantic_errors findings)
      else errors

  -- from the test on `limitErrors` on
  unfoldable pub validate_limited : Json → Json → Option Errors → Option Errors
  unfolding add_semantic collect_unchecked lit
  validate_limited findings schema none = none
  validate_limited findings schema (some (m ∷ errors)) = some (m ∷ errors)
  validate_limited findings schema (some []) =
      some (add_semantic findings (collect_unchecked patterns findings schema (lit "$")))

  -- from the test on `schemaErrors` on
  unfoldable pub validate_checked : Json → Json → Errors → Option Errors
  unfolding validate_limited collect_data_limit_errors lit
  validate_checked findings schema (m ∷ errors) = some (m ∷ errors)
  validate_checked findings schema [] =
      validate_limited findings schema (collect_data_limit_errors findings (lit "$"))

  -- `validateDocument`; `none` would be a walk that ran out of fuel.
  unfoldable pub validate_findings : Json → Json → Option Errors
  unfolding validate_checked collect_schema_errors
  validate_findings findings schema =
      validate_checked findings schema (collect_schema_errors patterns schema)

  -- `collect`
  unfoldable pub collect_limited : Json → Json → Text → Option Errors → Option Errors
  unfolding collect_unchecked
  collect_limited v schema p none = none
  collect_limited v schema p (some (m ∷ errors)) = some (m ∷ errors)
  collect_limited v schema p (some []) = some (collect_unchecked patterns v schema p)

  unfoldable pub collect : Json → Json → Text → Option Errors
  unfolding collect_limited collect_data_limit_errors
  collect v schema p = collect_limited v schema p (collect_data_limit_errors v p)

  -- `loadSchema`, on what `JSON.parse(fs.readFileSync(…))` gives
  unfoldable pub checked_schema : Json → Errors → Load
  unfolding join_lines lit
  checked_schema schema [] = loaded schema
  checked_schema schema (m ∷ errors) =
      thrown (lit "unsupported or invalid report schema:" ++ (10 ∷ join_lines (m ∷ errors)))

  unfoldable pub load_schema : Load → Load
  unfolding checked_schema collect_schema_errors
  load_schema (thrown message) = thrown message
  load_schema (loaded schema) = checked_schema schema (collect_schema_errors patterns schema)

  -- from the loop over `errors` on
  unfoldable pub finish_findings : Json → Errors → Finished
  unfolding lit escape
  finish_findings findings [] = record {
    status = 0;
    lines = (lit "PASS: " ++ (length_text findings ++ lit " findings valid")) ∷ [];
  }
  finish_findings findings (m ∷ errors) =
      let n = length (m ∷ errors) in
      record {
        status = 1;
        lines =
            map (λ message. lit "ERROR: " ++ escape message) (m ∷ errors)
            ++ (lit "FAIL: " ++ (decimal n ++ (lit " validation error(s)" ++ capped n))) ∷ [];
      }

  -- from `validateDocument` on
  unfoldable pub finish_validated : Json → Option Errors → Option Finished
  unfolding finish_findings
  finish_validated findings none = none
  finish_validated findings (some errors) = some (finish_findings findings errors)

  -- from `JSON.parse` on
  unfoldable pub run_findings : Json → Option Json → Option Finished
  unfolding finish_validated validate_findings lit
  run_findings schema none = stop (lit "Failed to parse findings JSON: invalid JSON syntax")
  run_findings schema (some findings) =
      finish_validated findings (validate_findings findings schema)

  -- from `enforceJsonTextLimits` on
  unfoldable pub run_limited : System → Json → Text → Limited Scanner → Option Finished
  unfolding run_findings lit
  run_limited sys schema text (throws message) =
      stop (lit "Failed to parse findings JSON: " ++ message)
  run_limited sys schema text (passes s) = run_findings schema (sys.parse text)

  -- from `readFileWithinLimit` on
  unfoldable pub run_read : System → Json → Option (Read Text) → Option Finished
  unfolding run_limited enforce_json_text_limits lit
  run_read sys schema none = none
  run_read sys schema (some (unsafe message)) =
      stop (lit "Failed to read findings JSON: " ++ message)
  run_read sys schema (some failed) =
      stop (lit "Failed to read findings JSON: input could not be opened or read safely")
  run_read sys schema (some (contents text)) =
      run_limited sys schema text (enforce_json_text_limits text)

  -- from `loadSchema` on
  unfoldable pub run_with_schema : System → Text → Load → Option Finished
  unfolding run_read read_file lit
  run_with_schema sys file (thrown message) =
      stop (lit "Failed to load report-schema.json: " ++ message)
  run_with_schema sys file (loaded schema) = run_read sys schema (read_file sys file)

  -- `run`, on the argument of the command, if there is one, and the parsed schema
  unfoldable pub run_validator : System → Load → Option Text → Option Finished
  unfolding run_with_schema load_schema lit
  run_validator sys schema none =
      stop (lit "Usage: node validate-findings.cjs <path-to-findings.json>")
  run_validator sys schema (some []) =
      stop (lit "Usage: node validate-findings.cjs <path-to-findings.json>")
  run_validator sys schema (some (c ∷ file)) = run_with_schema sys (c ∷ file) (load_schema schema)
