-- ===== src/Ledger/Unit.antt =====
-- `collectUnitErrors`: all checks on one coverage unit.
-- (dot_agents/skills/security-audit/validate-coverage-ledger.cjs)
pub mod Correct
use dotfiles_ai.Base.{
  ℕ, Bool, true, false, not, ◌&&◌, ◌||◌, List, [], ◌∷◌, ◌++◌, Option, none, some, if◌then◌else◌,
}
use dotfiles_ai.Base.Lists.{any}
use dotfiles_ai.Js.Text.{Text, lit, text_eq, contains}
use dotfiles_ai.Js.Json.{Json, Fields, string, object, keys, get, has_own, is_null, Value}
use dotfiles_ai.Js.Runtime.{Runtime}
use dotfiles_ai.Diagnostics.{Errors, safe_quote}
use dotfiles_ai.Diagnostics.Reports.{
  Check, pass, ◌>>◌, report, report_if, for_each, at_index, at_field,
}
use dotfiles_ai.Ledger.Values.{is_visible_text, is_canonical_ref, is_safe_agent_id}
use dotfiles_ai.Ledger.CoverageId.{ref_fields, lifecycle, expected_fields, canonical_coverage_id}
use dotfiles_ai.Ledger.StringArray.{
  max_text_length, plain, paths, some_paths, fingerprints, validate_string_array,
}
use dotfiles_ai.Ledger.Arrays.{require_fields}
use dotfiles_ai.Ledger.Evidence.{validate_checks, validate_reviewed_path_ownership}
use dotfiles_ai.Ledger.Blocks.{validate_excluded_blocks, validate_selection}
use dotfiles_ai.Ledger.State.{status_of, validate_state_invariants}
use dotfiles_ai.Ledger.Attempts.{has_value, is_wave, validate_attempts}
use dotfiles_ai.Js.Json.{is_some}

-- `REQUIRED_FIELDS`
unfoldable pub required_fields : List Text
required_fields =
    lit "coverage_id"
    ∷ lit "canonical_refs"
    ∷ lit "surface"
    ∷ lit "boundary"
    ∷ lit "subsystem"
    ∷ lit "attack_class"
    ∷ lit "starting_paths"
    ∷ lit "ordinary_attack_class_block"
    ∷ lit "selected_companion_blocks"
    ∷ lit "excluded_blocks"
    ∷ lit "prior_status"
    ∷ lit "attempts"
    ∷ lit "wave"
    ∷ lit "status"
    ∷ lit "agent_id"
    ∷ lit "reviewed_paths"
    ∷ lit "local_checks"
    ∷ lit "result_fingerprints"
    ∷ lit "unresolved"
    ∷ []

-- `PRIOR_STATUSES`
unfoldable pub prior_statuses : List Text
prior_statuses =
    lit "new"
    ∷ lit "prior_confirmed_same_source"
    ∷ lit "prior_confirmed_changed_source"
    ∷ lit "prior_needs_validation"
    ∷ lit "prior_deferred"
    ∷ lit "prior_blocked"
    ∷ lit "prior_out_of_scope"
    ∷ lit "prior_covered_same_source"
    ∷ lit "prior_covered_changed_source"
    ∷ lit "prior_rejected_claim_changed"
    ∷ lit "none"
    ∷ []

-- `a !== b` on Booleans
abbrev pub differ : Bool → Bool → Bool
differ true b = not b
differ false b = b

abbrev pub max_id_length : ℕ
max_id_length = 65536

module _ ⦃rt : Runtime⦄ where
  unfoldable pub validate_ref : Json → Text → ℕ → Text → Check
  validate_ref refs base i field =
      if not (has_own field refs)
      then report (
          at_field base (lit "canonical_refs")
          ++ (lit ": missing required field " ++ safe_quote (some (string field))))
      else report_if (not (is_canonical_ref (get field refs))) (
          at_field (at_field base (lit "canonical_refs")) field
          ++ lit ": invalid canonical reference")

  -- the statements on `unit.canonical_refs`, less the `try`
  unfoldable pub validate_refs : Json → Value → Text → Check
  validate_refs unit (some (object fs)) base = do
    for_each (validate_ref (object fs) base) 0 (expected_fields (object fs))
    report_if (any (λ field. not (contains field (expected_fields (object fs)))) (keys fs))
        (at_field base (lit "canonical_refs") ++ lit ": contains unexpected fields")
    report_if (differ (has_own lifecycle unit) (has_own lifecycle (object fs)))
        (base ++ lit ": lifecycle and canonical_refs.lifecycle must appear together")
  validate_refs unit _ base =
      report (at_field base (lit "canonical_refs") ++ lit ": expected object")

  -- `unit.coverage_id !== expectedId`, if there is an expected ID
  unfoldable pub is_other_id : Option Text → Value → Bool
  is_other_id (some id) (some (string s)) = not (text_eq s id)
  is_other_id (some id) _ = true
  is_other_id none v = false

  abbrev id_value : Option Text → Value
  id_value none = none
  id_value (some id) = some (string id)

  -- the statements on `unit.coverage_id`, given `expectedId`
  unfoldable pub validate_id : Value → Option Text → Text → Check
  validate_id coverage_id expected base =
      if not (is_visible_text coverage_id max_id_length)
      then report (at_field base (lit "coverage_id") ++ lit ": invalid text")
      else report_if (is_other_id expected coverage_id) (
          at_field base (lit "coverage_id")
          ++ (lit ": expected canonical ID " ++ safe_quote (id_value expected)))

  unfoldable pub validate_texts : Json → Text → Check
  validate_texts unit base = do
    for_each
        (λ i field.
          report_if (not (is_visible_text (get field unit) max_text_length))
            (at_field base field ++ lit ": invalid text"))
        0 ref_fields
    report_if (has_own lifecycle unit && not (is_visible_text (get lifecycle unit) max_text_length))
        (at_field base (lit "lifecycle") ++ lit ": invalid text")

  unfoldable pub validate_blocks : Json → Text → Check
  validate_blocks unit base = do
    validate_string_array (get (lit "starting_paths") unit) (at_field base (lit "starting_paths"))
        some_paths
    report_if
        (not (is_null (get (lit "ordinary_attack_class_block") unit))
          && not (is_visible_text (get (lit "ordinary_attack_class_block") unit) max_text_length))
        (at_field base (lit "ordinary_attack_class_block")
          ++ lit ": expected null or non-empty text")
    validate_string_array (get (lit "selected_companion_blocks") unit)
        (at_field base (lit "selected_companion_blocks")) plain
    validate_excluded_blocks (get (lit "excluded_blocks") unit)
        (at_field base (lit "excluded_blocks"))
    validate_selection (get (lit "selected_companion_blocks") unit)
        (get (lit "excluded_blocks") unit) base

  unfoldable pub validate_assignment : Json → Text → Check
  validate_assignment unit base = do
    report_if (not (has_value prior_statuses (get (lit "prior_status") unit))) (
        at_field base (lit "prior_status")
        ++ (lit ": invalid value " ++ safe_quote (get (lit "prior_status") unit)))
    report_if (not (is_some (status_of (get (lit "status") unit)))) (
        at_field base (lit "status")
        ++ (lit ": invalid value " ++ safe_quote (get (lit "status") unit)))
    report_if (not (is_wave (get (lit "wave") unit)))
        (at_field base (lit "wave") ++ lit ": expected a positive integer")
    report_if
        (not (is_null (get (lit "agent_id") unit))
          && not (is_safe_agent_id (get (lit "agent_id") unit)))
        (at_field base (lit "agent_id") ++ lit ": expected null or a safe agent ID")

  unfoldable pub validate_evidence : Json → Text → Check
  validate_evidence unit base = do
    validate_attempts (get (lit "attempts") unit) unit base
    validate_string_array (get (lit "reviewed_paths") unit) (at_field base (lit "reviewed_paths"))
        paths
    validate_checks (get (lit "local_checks") unit) (at_field base (lit "local_checks"))
    validate_reviewed_path_ownership unit base
    validate_string_array (get (lit "result_fingerprints") unit)
        (at_field base (lit "result_fingerprints")) fingerprints
    validate_string_array (get (lit "unresolved") unit) (at_field base (lit "unresolved")) plain
    validate_state_invariants unit base

  -- the statements on a unit that is an object, in the order of the source
  unfoldable pub validate_unit : Json → Text → Check
  validate_unit unit base = do
    require_fields required_fields unit base
    validate_texts unit base
    validate_refs unit (get (lit "canonical_refs") unit) base
    validate_id (get (lit "coverage_id") unit)
        (canonical_coverage_id (get (lit "canonical_refs") unit)) base
    validate_blocks unit base
    validate_assignment unit base
    validate_evidence unit base

  -- `collectUnitErrors`
  unfoldable pub collect_unit_errors : Json → ℕ → Errors
  collect_unit_errors (object fs) index = validate_unit (object fs) (at_index (lit "$") index) []
  collect_unit_errors _ index = (at_index (lit "$") index ++ lit ": expected object") ∷ []
