-- ===== src/Ledger/Attempts/Correct.antt =====
-- What `validateAttempts` accepts, entry by entry.
use mathlib.Core.Path.{subst}
use dotfiles_ai.Base.{
  ℕ, ◌≡◌, refl, sym, Bool, true, false, ◌&&◌, List, ◌∷◌, ◌++◌, none, some, inl, inr, Bool-cases,
  ◌↔◌, [],
}
use dotfiles_ai.Base.Lists.{All}
use dotfiles_ai.Js.Text.{Text, lit}
use dotfiles_ai.Js.Number.{Number}
use dotfiles_ai.Js.Json.{Json, Fields, string, is_text, object, get, has_own, Value}
use dotfiles_ai.Js.Runtime.{Runtime}
use dotfiles_ai.Diagnostics.Reports.{
  Reports_iff, AllFrom, Reports, Reports-report_if, Reports-report_unless, Reports-seq, Reports-map,
  Reports-pass, Reports-reject, Reports-for_each, Reports-for_each_with,
}
use dotfiles_ai.Ledger.Values.{is_safe_agent_id, is_visible_text}
use dotfiles_ai.Ledger.StringArray.{max_text_length, plain, paths, fingerprints, IsStringArray}
use dotfiles_ai.Ledger.StringArray.Correct.{validate_string_array-Reports}
use dotfiles_ai.Ledger.Arrays.{require_fields-Reports, IsListOf, validate_list-Reports}
use dotfiles_ai.Ledger.Evidence.Correct.{IsCheck, validate_checks-Reports}
use dotfiles_ai.Ledger.Evidence.Ownership.{OwnsPaths, validate_reviewed_path_ownership-Reports}
use dotfiles_ai.Ledger.State.{status_of, is_attempt_status}
use dotfiles_ai.Ledger.State.Rules.{StateOk, validate_state_invariants-Reports}
use dotfiles_ai.Ledger.Attempts.{
  attempt_fields, Prior, no_prior, has_value, is_wave, wave_at_most, wave_reaches, add_artifact,
  add_artifact_value, elements_of, next_prior, validate_wave, validate_owner,
  validate_attempt_artifact, validate_attempt_fields, validate_attempt, all_prior,
  validate_current_check, validate_current, validate_attempts,
}

-- A wave that is a positive integer, after the wave before it and before the unit's.
pub record WaveOk (unit_wave : Value) (previous : Number) (wave : Value) : Type 0 where
  pub positive : is_wave wave ≡ true
  pub increases : wave_at_most wave previous ≡ false
  pub precedes : wave_reaches wave unit_wave ≡ false

-- An agent ID that is safe and of no earlier attempt.
pub record OwnerOk (owners : List Text) (agent_id : Value) : Type 0 where
  pub safe : is_safe_agent_id agent_id ≡ true
  pub fresh : has_value owners agent_id ≡ false

-- A check of no earlier owner, with an artifact that no earlier check has.
abbrev pub IsFresh : List Text → List Text → Json → Type 0
IsFresh owners artifacts check =
    (has_value owners (get (lit "agent_id") check) ≡ false)
    × (has_value artifacts (get (lit "artifact") check) ≡ false)

abbrev pub FreshCheck : List Text → List Text → Json → Type 0
FreshCheck owners artifacts (object fs) = IsFresh owners artifacts (object fs)
FreshCheck owners artifacts _ = Unit

-- The artifact of a local check.
abbrev pub local_artifact : Bool → Value → List Text
local_artifact true (some (string s)) = s ∷ []
local_artifact _ _ = []

abbrev pub artifact_of : Json → List Text
artifact_of check =
    local_artifact (is_text (lit "local") (get (lit "method") check)) (get (lit "artifact") check)

-- Each check is fresh, also as to the local checks before it.
abbrev pub FreshFrom : List Text → List Text → List Json → Type 0
FreshFrom owners artifacts [] = Unit
FreshFrom owners artifacts (check ∷ checks) =
    FreshCheck owners artifacts check × FreshFrom owners (artifact_of check ++ artifacts) checks

add_artifact_value-local :
    (artifacts : List Text) (is_local : Bool) (v : Value)
    → add_artifact_value artifacts is_local v ≡ local_artifact is_local v ++ artifacts
unfolding add_artifact_value
add_artifact_value-local artifacts true (some (string s)) = refl
add_artifact_value-local artifacts true none = refl
add_artifact_value-local artifacts true (some _) = refl
add_artifact_value-local artifacts false v = refl

-- `priorArtifacts.add` adds the artifact of a local check and nothing else.
pub add_artifact-artifact_of :
    (artifacts : List Text) (check : Json)
    → add_artifact artifacts check ≡ artifact_of check ++ artifacts
unfolding add_artifact get is_text
add_artifact-artifact_of artifacts (object fs) = add_artifact_value-local artifacts _ _
add_artifact-artifact_of artifacts _ = refl

FreshFrom-iff :
    (owners artifacts : List Text) (checks : List Json)
    → AllFrom (FreshCheck owners) add_artifact artifacts checks ↔ FreshFrom owners artifacts checks
FreshFrom-iff owners artifacts [] = (λ h. h, λ h. h)
FreshFrom-iff owners artifacts (check ∷ checks) =
    let rest = FreshFrom-iff owners (artifact_of check ++ artifacts) checks in
    let added = add_artifact-artifact_of artifacts check in
    (
      λ h. (
        h.0,
        rest.0 (subst (λ seen. AllFrom (FreshCheck owners) add_artifact seen checks) added h.1),
      ),
      λ h. (
        h.0,
        subst (λ seen. AllFrom (FreshCheck owners) add_artifact seen checks) (sym added)
            (rest.1 h.1),
      ),
    )

module _ ⦃rt : Runtime⦄ where
  -- One archived attempt, given what stands before it.
  pub record IsAttempt (unit_wave : Value) (prior : Prior) (attempt : Json) : Type 0 where
    pub is_object : (fs : Fields) × (attempt ≡ object fs)
    pub fields : All (λ field. has_own field attempt ≡ true) attempt_fields
    pub wave : WaveOk unit_wave prior.wave (get (lit "wave") attempt)
    pub status : is_attempt_status (status_of (get (lit "status") attempt)) ≡ true
    pub owner : OwnerOk prior.owners (get (lit "agent_id") attempt)
    pub reviewed_paths : IsStringArray paths (get (lit "reviewed_paths") attempt)
    pub checks : IsListOf (All IsCheck) (get (lit "local_checks") attempt)
    pub owns : OwnsPaths (get (lit "reviewed_paths") attempt) (get (lit "local_checks") attempt)
    pub results : IsStringArray fingerprints (get (lit "result_fingerprints") attempt)
    pub unresolved : IsStringArray plain (get (lit "unresolved") attempt)
    pub reason : is_visible_text (get (lit "reassignment_reason") attempt) max_text_length ≡ true
    pub state : StateOk (status_of (get (lit "status") attempt)) attempt
    pub artifacts :
        FreshFrom prior.owners prior.artifacts (elements_of (get (lit "local_checks") attempt))

  validate_wave-Reports :
      (unit_wave : Value) (previous : Number) (wave : Value) (base : Text)
      → Reports (validate_wave unit_wave previous wave base) (WaveOk unit_wave previous wave)
  unfolding validate_wave
  validate_wave-Reports u p w base = elim (Bool-cases (is_wave w)) [
    | inl e ↦ rw e (
        Reports-map (Reports-seq (Reports-report_if _ _) (Reports-report_if _ _))
          (λ h. record { positive = e; increases = h.0; precedes = h.1 })
          (λ h. (h.increases, h.precedes)))
    | inr e ↦ rw e (Reports-reject _ (λ h. cc (h.positive)))
  ]

  validate_owner-Reports :
      (owners : List Text) (agent_id : Value) (base : Text)
      → Reports (validate_owner owners agent_id base) (OwnerOk owners agent_id)
  unfolding validate_owner
  validate_owner-Reports owners a base = elim (Bool-cases (is_safe_agent_id a)) [
    | inl e ↦
        rw e
          (Reports-map (Reports-report_if _ _) (λ h. record { safe = e; fresh = h }) (λ h. h.fresh))
    | inr e ↦ rw e (Reports-reject _ (λ h. cc (h.safe)))
  ]

  validate_attempt_artifact-Reports :
      (owners : List Text) (base : Text) (artifacts : List Text) (i : ℕ) (check : Json)
      → Reports
          (validate_attempt_artifact owners base artifacts i check)
          (FreshCheck owners artifacts check)
  unfolding validate_attempt_artifact
  validate_attempt_artifact-Reports owners base artifacts i (object fs) =
      Reports-seq (Reports-report_if _ _) (Reports-report_if _ _)
  validate_attempt_artifact-Reports owners base artifacts i _ = Reports-pass

  validate_attempt_fields-Reports :
      (unit_wave : Value) (prior : Prior) (fs : Fields) (base : Text)
      → Reports
          (validate_attempt_fields unit_wave prior (object fs) base)
          (IsAttempt unit_wave prior (object fs))
  unfolding validate_attempt_fields
  validate_attempt_fields-Reports unit_wave prior fs base =
      let attempt = object fs in
      Reports-map
        (Reports-seq (require_fields-Reports attempt_fields attempt base) (
          Reports-seq (validate_wave-Reports unit_wave prior.wave _ base) (
            Reports-seq (Reports-report_unless _ _) (
              Reports-seq (validate_owner-Reports prior.owners _ base) (
                Reports-seq (validate_string_array-Reports _ _ paths) (
                  Reports-seq (validate_checks-Reports _ _) (
                    Reports-seq (validate_reviewed_path_ownership-Reports attempt base) (
                      Reports-seq (validate_string_array-Reports _ _ fingerprints) (
                        Reports-seq (validate_string_array-Reports _ _ plain) (
                          Reports-seq (Reports-report_unless _ _) (
                            Reports-seq (validate_state_invariants-Reports attempt base) (
                              Reports-for_each_with add_artifact
                                (validate_attempt_artifact-Reports prior.owners base)
                                prior.artifacts 0
                                (elements_of (get (lit "local_checks") attempt))))))))))))))
        (λ h.
          let rest = h.1.1.1.1.1.1 in
          record {
            is_object = (fs, refl);
            fields = h.0;
            wave = h.1.0;
            status = h.1.1.0;
            owner = h.1.1.1.0;
            reviewed_paths = h.1.1.1.1.0;
            checks = h.1.1.1.1.1.0;
            owns = rest.0;
            results = rest.1.0;
            unresolved = rest.1.1.0;
            reason = rest.1.1.1.0;
            state = rest.1.1.1.1.0;
            artifacts = (FreshFrom-iff _ _ _).0 rest.1.1.1.1.1;
          })
        (λ h. (
          h.fields,
          (
            h.wave,
            (
              h.status,
              (
                h.owner,
                (
                  h.reviewed_paths,
                  (
                    h.checks,
                    (
                      h.owns,
                      (
                        h.results,
                        (h.unresolved, (h.reason, (h.state, (FreshFrom-iff _ _ _).1 h.artifacts))),
                      ),
                    ),
                  ),
                ),
              ),
            ),
          ),
        ))

  validate_attempt-Reports :
      (unit_wave : Value) (location : Text) (prior : Prior) (i : ℕ) (attempt : Json)
      → Reports
          (validate_attempt unit_wave location prior i attempt)
          (IsAttempt unit_wave prior attempt)
  unfolding validate_attempt
  validate_attempt-Reports u location prior i (object fs) =
      validate_attempt_fields-Reports u prior fs _
  validate_attempt-Reports u location prior i _ =
      Reports-reject _ (λ h. let (fs, e) = h.is_object in cc)

  -- The unit's own assignment is apart from all that is archived.
  pub record IsCurrent (prior : Prior) (unit : Json) : Type 0 where
    pub owner :
        (is_safe_agent_id (get (lit "agent_id") unit)
          && has_value prior.owners (get (lit "agent_id") unit))
        ≡ false
    pub checks :
        All (FreshCheck prior.owners prior.artifacts) (elements_of (get (lit "local_checks") unit))

  validate_current_check-Reports :
      (prior : Prior) (base : Text) (i : ℕ) (check : Json)
      → Reports
          (validate_current_check prior base i check)
          (FreshCheck prior.owners prior.artifacts check)
  unfolding validate_current_check
  validate_current_check-Reports prior base i (object fs) =
      Reports-seq (Reports-report_if _ _) (Reports-report_if _ _)
  validate_current_check-Reports prior base i _ = Reports-pass

  validate_current-Reports :
      (prior : Prior) (unit : Json) (base : Text)
      → Reports (validate_current prior unit base) (IsCurrent prior unit)
  unfolding validate_current
  validate_current-Reports prior unit base =
      Reports-map
        (Reports-seq (Reports-report_if _ _)
          (Reports-for_each (validate_current_check-Reports prior base) 0 _))
        (λ h. record { owner = h.0; checks = h.1 }) (λ h. (h.owner, h.checks))

  abbrev pub IsArchive : Json → List Json → Type 0
  IsArchive unit attempts =
      AllFrom (IsAttempt (get (lit "wave") unit)) next_prior no_prior attempts
      × IsCurrent (all_prior no_prior attempts) unit

  -- The archive passes exactly when each attempt fits what stands before it, and the unit fits
  -- the whole archive.
  pub validate_attempts-Reports :
      (v : Value) (unit : Json) (base : Text)
      → Reports (validate_attempts v unit base) (IsListOf (IsArchive unit) v)
  unfolding validate_attempts
  validate_attempts-Reports v unit base =
      validate_list-Reports _
        (λ attempts.
          Reports-seq
            (Reports-for_each_with next_prior (validate_attempt-Reports _ _) no_prior 0 attempts)
            (validate_current-Reports (all_prior no_prior attempts) unit base))
        v _

  pub validate_attempts-IsArchive :
      (v : Value) (unit : Json) (base : Text)
      → (validate_attempts v unit base [] ≡ []) ↔ IsListOf (IsArchive unit) v
  validate_attempts-IsArchive v unit base = Reports_iff (validate_attempts-Reports v unit base)
