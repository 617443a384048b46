-- ===== src/Ledger/Evidence/Correct.antt =====
-- `validateChecks` reports nothing exactly for lists of well-formed checks.
use dotfiles_ai.Base.{
  ℕ, ◌≡◌, ◌⊎◌, inl, inr, refl, Bool, true, false, not, ◌&&◌, some, if◌then◌else◌, ◌↔◌, [],
}
use dotfiles_ai.Base.Lists.{All}
use dotfiles_ai.Js.Text.{Text, lit, text_eq}
use dotfiles_ai.Js.Json.{
  Json, Fields, null, string, object, get, has_own, is_text, is_null, is_text_iff, is_null_iff,
  is_text-exclusive, Value,
}
use dotfiles_ai.Js.Runtime.{Runtime}
use dotfiles_ai.Diagnostics.Reports.{
  Reports_iff, Reports, Reports-report_if, Reports-report_unless, Reports-seq, Reports-map,
  Reports-reject, Reports-for_each, Reports-if, Reports-report,
}
use dotfiles_ai.Ledger.Values.{
  is_safe_agent_id, is_visible_text, is_safe_relative_path, is_owned_artifact_path,
}
use dotfiles_ai.Ledger.StringArray.{max_text_length, some_paths, IsStringArray}
use dotfiles_ai.Ledger.StringArray.Correct.{validate_string_array-Reports}
use dotfiles_ai.Ledger.Arrays.{require_fields-Reports, IsListOf, validate_list-Reports}
use dotfiles_ai.Ledger.Evidence.{
  check_fields, validate_artifact, validate_check_fields, validate_check, validate_checks,
}

module _ ⦃rt : Runtime⦄ where
  -- A check by reading has no artifact; a local one has an artifact below the agent's own folder.
  abbrev pub HasEvidence : Json → Type 0
  HasEvidence check =
      ((get (lit "method") check ≡ some (string (lit "source")))
        × (get (lit "artifact") check ≡ some null))
      ⊎ ((get (lit "method") check ≡ some (string (lit "local")))
          × (is_owned_artifact_path (get (lit "artifact") check) (get (lit "agent_id") check)
              ≡ true))

  pub record IsCheck (check : Json) : Type 0 where
    pub is_object : (fs : Fields) × (check ≡ object fs)
    pub fields : All (λ field. has_own field check ≡ true) check_fields
    pub agent_id : is_safe_agent_id (get (lit "agent_id") check) ≡ true
    pub reviewed_paths : IsStringArray some_paths (get (lit "reviewed_paths") check)
    pub invariant : is_visible_text (get (lit "invariant") check) max_text_length ≡ true
    pub result : is_visible_text (get (lit "result") check) max_text_length ≡ true
    pub evidence : HasEvidence check

  -- the statement on `artifact`, by its tests
  abbrev ArtifactOk : (source is_local nothing owned safe : Bool) → Type 0
  ArtifactOk source is_local nothing owned safe =
      if source && not nothing
      then ⊥
      else if is_local
      then owned ≡ true
      else (not source && not is_local && not nothing && not safe) ≡ false

  abbrev MethodOk : (source is_local nothing owned safe : Bool) → Type 0
  MethodOk source is_local nothing owned safe =
      ((not source && not is_local) ≡ false) × ArtifactOk source is_local nothing owned safe

  abbrev Evidence : (source is_local nothing owned : Bool) → Type 0
  Evidence source is_local nothing owned =
      ((source ≡ true) × (nothing ≡ true)) ⊎ ((is_local ≡ true) × (owned ≡ true))

  method-Evidence : (s l n o p : Bool) → MethodOk s l n o p → Evidence s l n o
  method-Evidence true l true o p h = inl (refl, refl)
  method-Evidence true l false o p h = absurd h.1
  method-Evidence false true n true p h = inr (refl, refl)
  method-Evidence false true n false p h = cc (h.1)
  method-Evidence false false n o p h = cc (h.0)

  Evidence-method :
      (s l n o p : Bool) → (s ≡ true → l ≡ false) → Evidence s l n o → MethodOk s l n o p
  Evidence-method true false true o p x h = (refl, refl)
  Evidence-method true false false o p x (inl h) = cc (h.1)
  Evidence-method true false false o p x (inr h) = cc (h.0)
  Evidence-method true true n o p x h = cc (x refl)
  Evidence-method false true n true p x h = (refl, refl)
  Evidence-method false true n false p x (inl h) = cc (h.0)
  Evidence-method false true n false p x (inr h) = cc (h.1)
  Evidence-method false false n o p x (inl h) = cc (h.0)
  Evidence-method false false n o p x (inr h) = cc (h.0)

  source_not_local :
      (method : Value) → is_text (lit "source") method ≡ true → is_text (lit "local") method ≡ false
  unfolding lit text_eq
  source_not_local method = is_text-exclusive (lit "source") (lit "local") method refl

  abbrev Tested : Json → Type 0
  Tested check =
      Evidence (is_text (lit "source") (get (lit "method") check))
        (is_text (lit "local") (get (lit "method") check)) (is_null (get (lit "artifact") check))
        (is_owned_artifact_path (get (lit "artifact") check) (get (lit "agent_id") check))

  Tested-evidence : (check : Json) → Tested check → HasEvidence check
  Tested-evidence check (inl (s, n)) = inl ((is_text_iff _ _).0 s, (is_null_iff _).0 n)
  Tested-evidence check (inr (l, o)) = inr ((is_text_iff _ _).0 l, o)

  evidence-Tested : (check : Json) → HasEvidence check → Tested check
  evidence-Tested check (inl (s, n)) = inl ((is_text_iff _ _).1 s, (is_null_iff _).1 n)
  evidence-Tested check (inr (l, o)) = inr ((is_text_iff _ _).1 l, o)

  abbrev AtCheck : ((source is_local nothing owned safe : Bool) → Type 0) → Json → Type 0
  AtCheck P check =
      P (is_text (lit "source") (get (lit "method") check))
        (is_text (lit "local") (get (lit "method") check)) (is_null (get (lit "artifact") check))
        (is_owned_artifact_path (get (lit "artifact") check) (get (lit "agent_id") check))
        (is_safe_relative_path (get (lit "artifact") check))

  validate_artifact-Reports :
      (check : Json) (base : Text)
      → Reports (validate_artifact check base) (AtCheck ArtifactOk check)
  unfolding validate_artifact
  validate_artifact-Reports check base =
      Reports-if _ (Reports-report _)
        (Reports-if _ (Reports-report_unless _ _) (Reports-report_if _ _))

  validate_check_fields-Reports :
      (fs : Fields) (base : Text)
      → Reports (validate_check_fields (object fs) base) (IsCheck (object fs))
  unfolding validate_check_fields
  validate_check_fields-Reports fs base =
      let check = object fs in
      Reports-map
        (Reports-seq (require_fields-Reports check_fields check base) (
          Reports-seq (Reports-report_unless _ _) (
            Reports-seq (validate_string_array-Reports _ _ some_paths) (
              Reports-seq (Reports-report_unless _ _) (
                Reports-seq (Reports-report_if _ _) (
                  Reports-seq (Reports-report_unless _ _)
                    (validate_artifact-Reports check base)))))))
        (λ h. record {
          is_object = (fs, refl);
          fields = h.0;
          agent_id = h.1.0;
          reviewed_paths = h.1.1.0;
          invariant = h.1.1.1.0;
          result = h.1.1.1.1.1.0;
          evidence = Tested-evidence check (method-Evidence _ _ _ _ _ (h.1.1.1.1.0, h.1.1.1.1.1.1));
        })
        (λ h.
          let method =
            Evidence-method _ _ _ _ (is_safe_relative_path (get (lit "artifact") check))
              (source_not_local (get (lit "method") check)) (evidence-Tested check h.evidence) in
          (
            h.fields,
            (h.agent_id, (h.reviewed_paths, (h.invariant, (method.0, (h.result, method.1))))),
          ))

  validate_check-Reports :
      (location : Text) (i : ℕ) (check : Json)
      → Reports (validate_check location i check) (IsCheck check)
  unfolding validate_check
  validate_check-Reports location i (object fs) = validate_check_fields-Reports fs _
  validate_check-Reports location i _ = Reports-reject _ (λ h. let (fs, e) = h.is_object in cc)

  -- A list of checks passes exactly when it has at most 1000 entries and each is a check: the
  -- required fields, a safe agent, paths, visible texts, and evidence that fits the method.
  pub validate_checks-Reports :
      (v : Value) (location : Text)
      → Reports (validate_checks v location) (IsListOf (All IsCheck) v)
  unfolding validate_checks
  validate_checks-Reports v location =
      validate_list-Reports _
        (λ checks. Reports-for_each (validate_check-Reports location) 0 checks) v location

  -- `validateChecks` adds no error exactly if the value is an array of at most 1000 checks, each
  -- with its required fields, a safe agent, paths, visible texts, and evidence that fits its
  -- method.
  pub validate_checks_iff :
      (v : Value) (location : Text)
      → (validate_checks v location [] ≡ []) ↔ IsListOf (All IsCheck) v
  validate_checks_iff v location = Reports_iff (validate_checks-Reports v location)
