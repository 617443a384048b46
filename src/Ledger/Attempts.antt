-- ===== src/Ledger/Attempts.antt =====
-- `validateAttempts`: the archived attempts of a unit, in the order of their waves.
-- (dot_agents/skills/security-audit/validate-coverage-ledger.cjs)
pub mod Archive
pub mod Correct
pub mod History
use dotfiles_ai.Base.{
  ℕ, Bool, true, false, not, ◌&&◌, ◌||◌, List, [], ◌∷◌, ◌++◌, none, some, if◌then◌else◌,
}
use dotfiles_ai.Js.Text.{Text, lit, contains}
use dotfiles_ai.Js.Number.{Number, whole, is_integer, number_lt, number_le}
use dotfiles_ai.Js.Json.{Json, number, string, array, object, items, get, is_text, Value}
use dotfiles_ai.Js.Runtime.{Runtime}
use dotfiles_ai.Diagnostics.{safe_quote}
use dotfiles_ai.Diagnostics.Reports.{
  Check, pass, ◌>>◌, report, report_if, for_each, for_each_with, at_index, at_field,
}
use dotfiles_ai.Ledger.Values.{is_safe_agent_id, is_visible_text}
use dotfiles_ai.Ledger.StringArray.{
  max_text_length, plain, paths, fingerprints, validate_string_array,
}
use dotfiles_ai.Ledger.Arrays.{validate_list, require_fields}
use dotfiles_ai.Ledger.Evidence.{validate_checks, validate_reviewed_path_ownership}
use dotfiles_ai.Ledger.State.{status_of, is_attempt_status, validate_state_invariants}

-- `ATTEMPT_FIELDS`
unfoldable pub attempt_fields : List Text
attempt_fields =
    lit "wave"
    ∷ lit "status"
    ∷ lit "agent_id"
    ∷ lit "reviewed_paths"
    ∷ lit "local_checks"
    ∷ lit "result_fingerprints"
    ∷ lit "unresolved"
    ∷ lit "reassignment_reason"
    ∷ []

-- `priorOwners`, `priorArtifacts` and `previousWave`
pub record Prior : Type 0 where
  pub owners : List Text
  pub artifacts : List Text
  pub wave : Number

abbrev pub no_prior : Prior
no_prior = record { owners = []; artifacts = []; wave = whole 0 }

-- `set.has(value)` for a value of any type
unfoldable pub has_value : List Text → Value → Bool
has_value set (some (string s)) = contains s set
has_value set _ = false

-- `!(!Number.isInteger(wave) || wave < 1)`
unfoldable pub is_wave : Value → Bool
is_wave (some (number n)) = is_integer n && not (number_lt n (whole 1))
is_wave _ = false

-- `previousWave = attempt.wave`, behind the test of the wave
unfoldable pub next_wave : Number → Value → Number
next_wave previous (some (number n)) = if is_wave (some (number n)) then n else previous
next_wave previous _ = previous

-- `attempt.wave <= previousWave`
unfoldable pub wave_at_most : Value → Number → Bool
wave_at_most (some (number n)) previous = number_le n previous
wave_at_most _ previous = false

-- `Number.isInteger(unit.wave) && attempt.wave >= unit.wave`
unfoldable pub wave_reaches : Value → Value → Bool
wave_reaches (some (number n)) (some (number m)) = is_integer m && number_le m n
wave_reaches _ _ = false

-- `if (check.method === "local" && typeof check.artifact === "string") priorArtifacts.add(...)`
unfoldable pub add_artifact_value : List Text → Bool → Value → List Text
add_artifact_value artifacts true (some (string s)) = s ∷ artifacts
add_artifact_value artifacts _ _ = artifacts

unfoldable pub add_artifact : List Text → Json → List Text
unfolding add_artifact_value
add_artifact artifacts (object fs) =
    add_artifact_value artifacts (is_text (lit "local") (get (lit "method") (object fs)))
      (get (lit "artifact") (object fs))
add_artifact artifacts _ = artifacts

unfoldable pub add_artifacts : List Text → List Json → List Text
unfolding add_artifact
add_artifacts artifacts [] = artifacts
add_artifacts artifacts (check ∷ checks) = add_artifacts (add_artifact artifacts check) checks

abbrev pub elements_of : Value → List Json
elements_of (some (array vs)) = items vs
elements_of _ = []

-- `if (hasFreshOwner) priorOwners.add(attempt.agent_id)`
unfoldable pub add_owner : List Text → Value → List Text
add_owner owners (some (string s)) =
    if is_safe_agent_id (some (string s)) && not (contains s owners) then s ∷ owners else owners
add_owner owners _ = owners

-- What the round of one attempt leaves behind.
unfoldable pub next_prior : Prior → Json → Prior
unfolding add_owner add_artifacts next_wave
next_prior prior (object fs) = record {
  owners = add_owner prior.owners (get (lit "agent_id") (object fs));
  artifacts = add_artifacts prior.artifacts (elements_of (get (lit "local_checks") (object fs)));
  wave = next_wave prior.wave (get (lit "wave") (object fs));
}
next_prior prior _ = prior

-- the state behind the first loop
unfoldable pub all_prior : Prior → List Json → Prior
unfolding next_prior
all_prior prior [] = prior
all_prior prior (attempt ∷ attempts) = all_prior (next_prior prior attempt) attempts

module _ ⦃rt : Runtime⦄ where
  -- the statements on `attempt.wave`
  unfoldable pub validate_wave : Value → Number → Value → Text → Check
  validate_wave unit_wave previous wave base =
      if not (is_wave wave)
      then report (at_field base (lit "wave") ++ lit ": expected a positive integer")
      else do
        report_if (wave_at_most wave previous) (
            at_field base (lit "wave")
            ++ lit ": archived attempt waves must be strictly increasing")
        report_if (wave_reaches wave unit_wave) (
            at_field base (lit "wave")
            ++ (lit ": archived attempt wave must precede current wave " ++ safe_quote unit_wave))

  -- the statements on `attempt.agent_id`
  unfoldable pub validate_owner : List Text → Value → Text → Check
  validate_owner owners agent_id base =
      if not (is_safe_agent_id agent_id)
      then report (
          at_field base (lit "agent_id")
          ++ lit ": archived attempt requires a canonical lowercase agent ID")
      else report_if (has_value owners agent_id) (
          at_field base (lit "agent_id") ++ lit ": assignment owner must be fresh for each attempt")

  -- the checks of an attempt, with the artifacts seen before each
  unfoldable pub validate_attempt_artifact : List Text → Text → List Text → ℕ → Json → Check
  validate_attempt_artifact owners base artifacts index (object fs) = do
    report_if (has_value owners (get (lit "agent_id") (object fs))) (
        at_field (at_index (at_field base (lit "local_checks")) index) (lit "agent_id")
        ++ lit ": prior assignment owner evidence must remain in its earlier attempt")
    report_if (has_value artifacts (get (lit "artifact") (object fs))) (
        at_field (at_index (at_field base (lit "local_checks")) index) (lit "artifact")
        ++ lit ": artifact from an earlier attempt cannot be reused")
  validate_attempt_artifact owners base artifacts index _ = pass

  unfoldable pub validate_attempt_fields : Value → Prior → Json → Text → Check
  validate_attempt_fields unit_wave prior attempt base = do
    require_fields attempt_fields attempt base
    validate_wave unit_wave prior.wave (get (lit "wave") attempt) base
    report_if (not (is_attempt_status (status_of (get (lit "status") attempt)))) (
        at_field base (lit "status") ++ lit ": expected \"covered\", \"candidate\", or \"blocked\"")
    validate_owner prior.owners (get (lit "agent_id") attempt) base
    validate_string_array (get (lit "reviewed_paths") attempt)
        (at_field base (lit "reviewed_paths")) paths
    validate_checks (get (lit "local_checks") attempt) (at_field base (lit "local_checks"))
    validate_reviewed_path_ownership attempt base
    validate_string_array (get (lit "result_fingerprints") attempt)
        (at_field base (lit "result_fingerprints")) fingerprints
    validate_string_array (get (lit "unresolved") attempt) (at_field base (lit "unresolved")) plain
    report_if (not (is_visible_text (get (lit "reassignment_reason") attempt) max_text_length))
        (at_field base (lit "reassignment_reason") ++ lit ": invalid text")
    validate_state_invariants attempt base
    for_each_with (validate_attempt_artifact prior.owners base) add_artifact prior.artifacts 0
        (elements_of (get (lit "local_checks") attempt))

  -- the body of the first loop
  unfoldable pub validate_attempt : Value → Text → Prior → ℕ → Json → Check
  validate_attempt unit_wave location prior index (object fs) =
      validate_attempt_fields unit_wave prior (object fs) (at_index location index)
  validate_attempt unit_wave location prior index _ =
      report (at_index location index ++ lit ": expected object")

  -- the body of the loop over the unit's own checks
  unfoldable pub validate_current_check : Prior → Text → ℕ → Json → Check
  validate_current_check prior base index (object fs) = do
    report_if (has_value prior.owners (get (lit "agent_id") (object fs))) (
        at_field (at_index (at_field base (lit "local_checks")) index) (lit "agent_id")
        ++ lit ": prior assignment owner evidence must remain in its archived attempt")
    report_if (has_value prior.artifacts (get (lit "artifact") (object fs))) (
        at_field (at_index (at_field base (lit "local_checks")) index) (lit "artifact")
        ++ lit ": artifact from an archived attempt cannot be reused")
  validate_current_check prior base index _ = pass

  -- what follows the loop over the attempts
  unfoldable pub validate_current : Prior → Json → Text → Check
  validate_current prior unit base = do
    report_if
        (is_safe_agent_id (get (lit "agent_id") unit)
          && has_value prior.owners (get (lit "agent_id") unit))
        (at_field base (lit "agent_id")
          ++ lit ": current assignment owner must be fresh after reassignment")
    for_each (validate_current_check prior base) 0 (elements_of (get (lit "local_checks") unit))

  -- `validateAttempts`
  unfoldable pub validate_attempts : Value → Json → Text → Check
  validate_attempts value unit base =
      validate_list
        (λ attempts. do
          for_each_with (validate_attempt (get (lit "wave") unit) (at_field base (lit "attempts")))
              next_prior no_prior 0 attempts
          validate_current (all_prior no_prior attempts) unit base)
        value (at_field base (lit "attempts"))
