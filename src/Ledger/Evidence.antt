-- ===== src/Ledger/Evidence.antt =====
-- `validateChecks` and `validateReviewedPathOwnership`.
-- (dot_agents/skills/security-audit/validate-coverage-ledger.cjs)
pub mod Correct
pub mod Ownership
use dotfiles_ai.Base.{
  ℕ, Bool, true, false, not, ◌&&◌, ◌||◌, List, [], ◌∷◌, ◌++◌, none, some, if◌then◌else◌,
}
use dotfiles_ai.Js.Text.{Text, lit, contains}
use dotfiles_ai.Js.Json.{Json, string, array, object, items, get, is_text, is_null, is_array, Value}
use dotfiles_ai.Js.Runtime.{Runtime}
use dotfiles_ai.Diagnostics.{safe_quote}
use dotfiles_ai.Diagnostics.Reports.{
  Check, pass, ◌>>◌, report, report_if, for_each, at_index, at_field,
}
use dotfiles_ai.Ledger.Values.{
  is_safe_agent_id, is_visible_text, is_safe_relative_path, is_owned_artifact_path,
}
use dotfiles_ai.Ledger.StringArray.{max_text_length, some_paths, validate_string_array}
use dotfiles_ai.Ledger.Arrays.{validate_list, require_fields}

unfoldable pub check_fields : List Text
check_fields =
    lit "agent_id"
    ∷ lit "reviewed_paths"
    ∷ lit "invariant"
    ∷ lit "method"
    ∷ lit "result"
    ∷ lit "artifact"
    ∷ []

-- `if (typeof value === "string") set.add(value)`, in insertion order
unfoldable pub add_string : List Text → Json → List Text
add_string set (string s) = if contains s set then set else set ++ s ∷ []
add_string set _ = set

unfoldable pub add_strings : List Text → List Json → List Text
unfolding add_string
add_strings set [] = set
add_strings set (v ∷ vs) = add_strings (add_string set v) vs

-- the paths of one check: `if (!isObject(check) || !Array.isArray(check.reviewed_paths)) continue`
unfoldable pub checked_paths : Json → List Json
checked_paths (object fs) = elim (get (lit "reviewed_paths") (object fs)) [
  | some (array vs) ↦ items vs
  | _ ↦ []
]
checked_paths _ = []

unfoldable pub owned_paths : List Text → List Json → List Text
unfolding add_strings checked_paths
owned_paths set [] = set
owned_paths set (check ∷ checks) = owned_paths (add_strings set (checked_paths check)) checks

module _ ⦃rt : Runtime⦄ where
  -- the branches on `check.artifact`
  unfoldable pub validate_artifact : Json → Text → Check
  validate_artifact check base =
      let method = get (lit "method") check in
      let artifact = get (lit "artifact") check in
      let agent_id = get (lit "agent_id") check in
      if is_text (lit "source") method && not (is_null artifact)
      then report (at_field base (lit "artifact") ++ lit ": source-only check must use null")
      else if is_text (lit "local") method
      then report_if (not (is_owned_artifact_path artifact agent_id)) (
          at_field base (lit "artifact")
          ++ (lit ": local check requires an artifact owned by agent "
              ++ safe_quote (
                  if is_safe_agent_id agent_id
                  then agent_id
                  else some (string (lit "<agent-id>")))))
      else report_if
          (not (is_text (lit "source") method)
            && not (is_text (lit "local") method)
            && not (is_null artifact)
            && not (is_safe_relative_path artifact))
          (at_field base (lit "artifact") ++ lit ": expected null or a safe output-relative path")

  unfoldable pub validate_check_fields : Json → Text → Check
  validate_check_fields check base = do
    require_fields check_fields check base
    report_if (not (is_safe_agent_id (get (lit "agent_id") check)))
        (at_field base (lit "agent_id") ++ lit ": expected a canonical lowercase agent ID")
    validate_string_array (get (lit "reviewed_paths") check) (at_field base (lit "reviewed_paths"))
        some_paths
    report_if (not (is_visible_text (get (lit "invariant") check) max_text_length))
        (at_field base (lit "invariant") ++ lit ": invalid text")
    report_if
        (not (is_text (lit "source") (get (lit "method") check))
          && not (is_text (lit "local") (get (lit "method") check)))
        (at_field base (lit "method") ++ lit ": expected \"source\" or \"local\"")
    report_if (not (is_visible_text (get (lit "result") check) max_text_length))
        (at_field base (lit "result") ++ lit ": invalid text")
    validate_artifact check base

  -- the body of the loop of `validateChecks`
  unfoldable pub validate_check : Text → ℕ → Json → Check
  validate_check location index (object fs) =
      validate_check_fields (object fs) (at_index location index)
  validate_check location index _ = report (at_index location index ++ lit ": expected object")

  -- `validateChecks`
  unfoldable pub validate_checks : Value → Text → Check
  validate_checks value location =
      validate_list (λ checks. for_each (validate_check location) 0 checks) value location

  unfoldable pub compare_paths : List Text → List Text → Text → Check
  compare_paths aggregate owned base = do
    for_each
        (λ i path. report_if (not (contains path owned)) (
          at_field base (lit "reviewed_paths")
          ++ (lit ": " ++ (safe_quote (some (string path)) ++ lit " has no check owner"))))
        0 aggregate
    for_each
        (λ i path. report_if (not (contains path aggregate)) (
          at_field base (lit "local_checks")
          ++ (lit ": owned path "
              ++ (safe_quote (some (string path))
                  ++ lit " is absent from aggregate reviewed_paths"))))
        0 owned

  unfoldable pub compare_values : Value → Value → Text → Check
  compare_values (some (array reviewed)) (some (array checks)) base =
      compare_paths (add_strings [] (items reviewed)) (owned_paths [] (items checks)) base
  compare_values _ _ base = pass

  -- `validateReviewedPathOwnership`
  unfoldable pub validate_reviewed_path_ownership : Json → Text → Check
  unfolding compare_values
  validate_reviewed_path_ownership unit base =
      compare_values (get (lit "reviewed_paths") unit) (get (lit "local_checks") unit) base
