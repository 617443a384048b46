-- ===== src/Ledger/Unit/Correct.antt =====
-- What `collectUnitErrors` accepts.
use mathlib.Core.Path.{subst}
use dotfiles_ai.Base.{
  ℕ, ◌≡◌, refl, true, false, not, ◌&&◌, [], Option, none, some, Bool-cases, Option-cases, inl, inr,
  ◌↔◌, not-eq-false, not-true,
}
use dotfiles_ai.Base.Lists.{All, any}
use dotfiles_ai.Js.Text.{Text, lit, text_eq_iff, contains}
use dotfiles_ai.Js.Json.{Json, Fields, string, object, keys, get, has_own, is_some, is_null, Value}
use dotfiles_ai.Js.Runtime.{Runtime}
use dotfiles_ai.Diagnostics.Reports.{
  Reports, Reports_iff, Reports-report_if, Reports-report_unless, Reports-seq, Reports-map,
  Reports-reject, Reports-for_each,
}
use dotfiles_ai.Ledger.Values.{is_visible_text, is_canonical_ref, is_safe_agent_id}
use dotfiles_ai.Ledger.CoverageId.{ref_fields, lifecycle, expected_fields, canonical_coverage_id}
use dotfiles_ai.Ledger.StringArray.{
  max_text_length, plain, paths, some_paths, fingerprints, IsStringArray,
}
use dotfiles_ai.Ledger.StringArray.Correct.{validate_string_array-Reports}
use dotfiles_ai.Ledger.Arrays.{require_fields-Reports, IsListOf}
use dotfiles_ai.Ledger.Evidence.Correct.{IsCheck, validate_checks-Reports}
use dotfiles_ai.Ledger.Evidence.Ownership.{OwnsPaths, validate_reviewed_path_ownership-Reports}
use dotfiles_ai.Ledger.Blocks.{
  IsBlocks, IsSelection, validate_excluded_blocks-Reports, validate_selection-Reports,
}
use dotfiles_ai.Ledger.State.{Status, status_name, status_of}
use dotfiles_ai.Ledger.State.Rules.{
  rule, Follows, StateOk, status_of-some, validate_state_invariants-Reports,
}
use dotfiles_ai.Ledger.Attempts.{has_value, is_wave}
use dotfiles_ai.Ledger.Attempts.Correct.{IsArchive, validate_attempts-Reports}
use dotfiles_ai.Ledger.Unit.{
  required_fields, prior_statuses, differ, max_id_length, validate_ref, validate_refs, is_other_id,
  validate_id, validate_texts, validate_blocks, validate_assignment, validate_evidence,
  validate_unit, collect_unit_errors,
}

module _ ⦃rt : Runtime⦄ where
  pub record HasTexts (unit : Json) : Type 0 where
    pub texts : All (λ field. is_visible_text (get field unit) max_text_length ≡ true) ref_fields
    pub cycle :
        (has_own lifecycle unit && not (is_visible_text (get lifecycle unit) max_text_length))
        ≡ false

  -- The references: exactly the expected fields, all of them canonical.
  pub record HasRefs (unit : Json) (refs : Value) : Type 0 where
    pub fields : Fields
    pub is_object : refs ≡ some (object fields)
    pub canonical :
        All
          (λ field.
            (has_own field (object fields) ≡ true)
            × (is_canonical_ref (get field (object fields)) ≡ true))
          (expected_fields (object fields))
    pub no_others :
        any (λ field. not (contains field (expected_fields (object fields)))) (keys fields) ≡ false
    pub together : differ (has_own lifecycle unit) (has_own lifecycle (object fields)) ≡ false

  -- The ID is the one that the references give, if they give one.
  pub record HasId (coverage_id : Value) (expected : Option Text) : Type 0 where
    pub visible : is_visible_text coverage_id max_id_length ≡ true
    pub canonical : (id : Text) → expected ≡ some id → coverage_id ≡ some (string id)

  pub record HasBlocks (unit : Json) : Type 0 where
    pub starting_paths : IsStringArray some_paths (get (lit "starting_paths") unit)
    pub ordinary :
        (not (is_null (get (lit "ordinary_attack_class_block") unit))
          && not (is_visible_text (get (lit "ordinary_attack_class_block") unit) max_text_length))
        ≡ false
    pub selected : IsStringArray plain (get (lit "selected_companion_blocks") unit)
    pub excluded : IsListOf IsBlocks (get (lit "excluded_blocks") unit)
    pub selection :
        IsSelection (get (lit "selected_companion_blocks") unit) (get (lit "excluded_blocks") unit)

  pub record HasAssignment (unit : Json) : Type 0 where
    pub prior_status : has_value prior_statuses (get (lit "prior_status") unit) ≡ true
    pub status : is_some (status_of (get (lit "status") unit)) ≡ true
    pub wave : is_wave (get (lit "wave") unit) ≡ true
    pub agent_id :
        (not (is_null (get (lit "agent_id") unit))
          && not (is_safe_agent_id (get (lit "agent_id") unit)))
        ≡ false

  pub record HasEvidenceOf (unit : Json) : Type 0 where
    pub attempts : IsListOf (IsArchive unit) (get (lit "attempts") unit)
    pub reviewed_paths : IsStringArray paths (get (lit "reviewed_paths") unit)
    pub checks : IsListOf (All IsCheck) (get (lit "local_checks") unit)
    pub owns : OwnsPaths (get (lit "reviewed_paths") unit) (get (lit "local_checks") unit)
    pub results : IsStringArray fingerprints (get (lit "result_fingerprints") unit)
    pub unresolved : IsStringArray plain (get (lit "unresolved") unit)
    pub state : StateOk (status_of (get (lit "status") unit)) unit

  -- A coverage unit that the validator accepts.
  pub record IsUnit (unit : Json) : Type 0 where
    pub is_object : (fs : Fields) × (unit ≡ object fs)
    pub fields : All (λ field. has_own field unit ≡ true) required_fields
    pub texts : HasTexts unit
    pub refs : HasRefs unit (get (lit "canonical_refs") unit)
    pub id :
        HasId
          (get (lit "coverage_id") unit)
          (canonical_coverage_id (get (lit "canonical_refs") unit))
    pub blocks : HasBlocks unit
    pub assignment : HasAssignment unit
    pub evidence : HasEvidenceOf unit

  validate_texts-Reports :
      (unit : Json) (base : Text) → Reports (validate_texts unit base) (HasTexts unit)
  unfolding validate_texts
  validate_texts-Reports unit base =
      Reports-map
        (Reports-seq (Reports-for_each (λ i field. Reports-report_unless _ _) 0 ref_fields)
          (Reports-report_if _ _))
        (λ h. record { texts = h.0; cycle = h.1 }) (λ h. (h.texts, h.cycle))

  validate_ref-Reports :
      (refs : Json) (base : Text) (i : ℕ) (field : Text)
      → Reports
          (validate_ref refs base i field)
          ((has_own field refs ≡ true) × (is_canonical_ref (get field refs) ≡ true))
  unfolding validate_ref
  validate_ref-Reports refs base i field = elim (Bool-cases (has_own field refs)) [
    | inl e ↦ rw e (Reports-map (Reports-report_unless _ _) (λ h. (refl, h)) (λ h. h.1))
    | inr e ↦ rw e (Reports-reject _ (λ h. cc (h.0)))
  ]

  validate_refs-Reports :
      (unit : Json) (refs : Value) (base : Text)
      → Reports (validate_refs unit refs base) (HasRefs unit refs)
  unfolding validate_refs
  validate_refs-Reports unit (some (object fs)) base =
      Reports-map
        (Reports-seq
          (Reports-for_each (validate_ref-Reports (object fs) base) 0 (expected_fields (object fs)))
          (Reports-seq (Reports-report_if _ _) (Reports-report_if _ _)))
        (λ h. record {
          fields = fs;
          is_object = refl;
          canonical = h.0;
          no_others = h.1.0;
          together = h.1.1;
        })
        (λ h. let e : fs ≡ h.fields = cc in rw e ((h.canonical, (h.no_others, h.together))))
  validate_refs-Reports unit none base = Reports-reject _ (λ h. let e = h.is_object in cc)
  validate_refs-Reports unit (some _) base = Reports-reject _ (λ h. let e = h.is_object in cc)

  is_other_id_iff :
      (expected : Option Text) (v : Value)
      → (is_other_id expected v ≡ false) ↔ ((id : Text) → expected ≡ some id → v ≡ some (string id))
  unfolding is_other_id
  is_other_id_iff none v = (λ h id e. cc, λ h. refl)
  is_other_id_iff (some id) (some (string s)) = (
    λ h i e. let same : s ≡ id = (text_eq_iff s id).0 (not-eq-false h) in cc,
    λ h. let same : s ≡ id = string_of s id (h id refl) in not-true ((text_eq_iff s id).1 same),
  )
    where
      string_of : (a b : Text) → ◌≡◌ {A = Value} (some (string a)) (some (string b)) → a ≡ b
      string_of a b e = cc
  is_other_id_iff (some id) none = (λ h i e. cc, λ h. cc (h id refl))
  is_other_id_iff (some id) (some _) = (λ h i e. cc, λ h. cc (h id refl))

  validate_id-Reports :
      (v : Value) (expected : Option Text) (base : Text)
      → Reports (validate_id v expected base) (HasId v expected)
  unfolding validate_id
  validate_id-Reports v expected base = elim (Bool-cases (is_visible_text v max_id_length)) [
    | inl e ↦ rw e (
        Reports-map (Reports-report_if _ _)
          (λ h. record { visible = e; canonical = (is_other_id_iff expected v).0 h })
          (λ h. (is_other_id_iff expected v).1 h.canonical))
    | inr e ↦ rw e (Reports-reject _ (λ h. cc (h.visible)))
  ]

  validate_blocks-Reports :
      (unit : Json) (base : Text) → Reports (validate_blocks unit base) (HasBlocks unit)
  unfolding validate_blocks
  validate_blocks-Reports unit base =
      Reports-map
        (Reports-seq (validate_string_array-Reports _ _ some_paths) (
          Reports-seq (Reports-report_if _ _) (
            Reports-seq (validate_string_array-Reports _ _ plain) (
              Reports-seq (validate_excluded_blocks-Reports _ _)
                (validate_selection-Reports _ _ base)))))
        (λ h. record {
          starting_paths = h.0;
          ordinary = h.1.0;
          selected = h.1.1.0;
          excluded = h.1.1.1.0;
          selection = h.1.1.1.1;
        })
        (λ h. (h.starting_paths, (h.ordinary, (h.selected, (h.excluded, h.selection)))))

  validate_assignment-Reports :
      (unit : Json) (base : Text) → Reports (validate_assignment unit base) (HasAssignment unit)
  unfolding validate_assignment
  validate_assignment-Reports unit base =
      Reports-map
        (Reports-seq (Reports-report_unless _ _) (
          Reports-seq (Reports-report_unless _ _)
            (Reports-seq (Reports-report_unless _ _) (Reports-report_if _ _))))
        (λ h. record { prior_status = h.0; status = h.1.0; wave = h.1.1.0; agent_id = h.1.1.1 })
        (λ h. (h.prior_status, (h.status, (h.wave, h.agent_id))))

  validate_evidence-Reports :
      (unit : Json) (base : Text) → Reports (validate_evidence unit base) (HasEvidenceOf unit)
  unfolding validate_evidence
  validate_evidence-Reports unit base =
      Reports-map
        (Reports-seq (validate_attempts-Reports _ unit base) (
          Reports-seq (validate_string_array-Reports _ _ paths) (
            Reports-seq (validate_checks-Reports _ _) (
              Reports-seq (validate_reviewed_path_ownership-Reports unit base) (
                Reports-seq (validate_string_array-Reports _ _ fingerprints) (
                  Reports-seq (validate_string_array-Reports _ _ plain)
                    (validate_state_invariants-Reports unit base)))))))
        (λ h. record {
          attempts = h.0;
          reviewed_paths = h.1.0;
          checks = h.1.1.0;
          owns = h.1.1.1.0;
          results = h.1.1.1.1.0;
          unresolved = h.1.1.1.1.1.0;
          state = h.1.1.1.1.1.1;
        })
        (λ h. (
          h.attempts,
          (h.reviewed_paths, (h.checks, (h.owns, (h.results, (h.unresolved, h.state))))),
        ))

  pub validate_unit-Reports :
      (fs : Fields) (base : Text) → Reports (validate_unit (object fs) base) (IsUnit (object fs))
  unfolding validate_unit
  validate_unit-Reports fs base =
      let unit = object fs in
      Reports-map
        (Reports-seq (require_fields-Reports required_fields unit base) (
          Reports-seq (validate_texts-Reports unit base) (
            Reports-seq (validate_refs-Reports unit _ base) (
              Reports-seq (validate_id-Reports _ _ base) (
                Reports-seq (validate_blocks-Reports unit base) (
                  Reports-seq (validate_assignment-Reports unit base)
                    (validate_evidence-Reports unit base)))))))
        (λ h. record {
          is_object = (fs, refl);
          fields = h.0;
          texts = h.1.0;
          refs = h.1.1.0;
          id = h.1.1.1.0;
          blocks = h.1.1.1.1.0;
          assignment = h.1.1.1.1.1.0;
          evidence = h.1.1.1.1.1.1;
        })
        (λ h. (h.fields, (h.texts, (h.refs, (h.id, (h.blocks, (h.assignment, h.evidence)))))))

  -- `collectUnitErrors` returns no error exactly for the units that `IsUnit` describes: an object
  -- with all required fields, visible texts, canonical references and the ID that they give,
  -- well-formed blocks, an assignment, an archive of attempts, and evidence as its status asks.
  pub collect_unit_errors_iff :
      (unit : Json) (index : ℕ) → (collect_unit_errors unit index ≡ []) ↔ IsUnit unit
  unfolding collect_unit_errors
  collect_unit_errors_iff (object fs) index = Reports_iff (validate_unit-Reports fs _)
  collect_unit_errors_iff _ index = (λ h. cc, λ h. let (fs, e) = h.is_object in cc)

  -- An accepted unit follows the rule of its status.
  IsUnit-Follows :
      (unit : Json)
      → IsUnit unit
      → (s : Status) × (get (lit "status") unit ≡ some (string (status_name s)))
        × Follows (rule s) unit
  IsUnit-Follows unit h = elim (Option-cases (status_of (get (lit "status") unit))) [
    | inl e ↦ cc (h.assignment.status)
    | inr (s, e) ↦ (s, status_of-some _ s e, subst (λ o. StateOk o unit) e h.evidence.state)
  ]

  -- If `collectUnitErrors` finds no error in a unit, then the unit has one of the eight statuses,
  -- and its owner, evidence, open questions and fingerprints are as the table asks of that status.
  pub collect_unit_errors-Follows :
      (unit : Json) (index : ℕ)
      → collect_unit_errors unit index ≡ []
      → (s : Status) × (get (lit "status") unit ≡ some (string (status_name s)))
        × Follows (rule s) unit
  collect_unit_errors-Follows unit index h =
      IsUnit-Follows unit ((collect_unit_errors_iff unit index).0 h)
