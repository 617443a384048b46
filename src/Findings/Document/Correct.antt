-- ===== src/Findings/Document/Correct.antt =====
-- What `validateDocument` accepts.
-- (dot_agents/skills/security-audit/validate-findings.cjs)
use dotfiles_ai.Base.{
  ◌≡◌, ◌≢◌, ◌↔◌, refl, ap, [], ◌∷◌, Option, none, some, ltb, Bool-cases, inl, inr,
}
use dotfiles_ai.Base.Lists.{length}
use dotfiles_ai.Js.Text.{lit}
use dotfiles_ai.Js.Json.{Json}
use dotfiles_ai.Js.Runtime.{Runtime}
use dotfiles_ai.Diagnostics.{Errors, max_errors}
use dotfiles_ai.Diagnostics.Reports.{push-nil, push-eq-nil_iff}
use dotfiles_ai.Findings.Schema.{Patterns, collect_schema_errors}
use dotfiles_ai.Findings.Schema.Accepted.{IsSchema}
use dotfiles_ai.Findings.Schema.Correct.{collect_schema_errors_iff}
use dotfiles_ai.Findings.Validate.{collect_unchecked}
use dotfiles_ai.Findings.Validate.Valid.{Valid}
use dotfiles_ai.Findings.Validate.Correct.{unchecked-Valid}
use dotfiles_ai.Findings.Verdict.{collect_finding_semantic_errors}
use dotfiles_ai.Findings.Verdict.Correct.{AreFindings, collect_finding_semantic_errors_iff}
use dotfiles_ai.Findings.DataLimits.{root_depth, collect_data_limit_errors}
use dotfiles_ai.Findings.DataLimits.Limits.{IsLimited, collect_data_limit_errors_iff}
use dotfiles_ai.Findings.Document.{
  add_semantic, validate_limited, validate_checked, validate_findings,
}

some-injective : (a b : Errors) → some a ≡ some b → a ≡ b
some-injective a b e = cc

module _ ⦃rt : Runtime⦄ (patterns : Patterns) where
  -- What is accepted against a schema.
  pub record IsReport (schema findings : Json) : Type 0 where
    pub is_schema : IsSchema patterns schema
    pub limited : IsLimited (root_depth findings) findings
    pub valid : Valid patterns schema findings
    pub semantic : AreFindings findings

  add_semantic_iff :
      (findings : Json) (errors : Errors)
      → (add_semantic patterns findings errors ≡ [])
        ↔ ((errors ≡ []) × (collect_finding_semantic_errors findings ≡ []))
  unfolding add_semantic
  add_semantic_iff findings [] =
      let both = push-eq-nil_iff [] (collect_finding_semantic_errors findings) in
      (λ e. both e, λ h. rw h.1 (push-nil []))
  add_semantic_iff findings (m ∷ errors) =
      elim (Bool-cases (ltb (length (m ∷ errors)) max_errors)) [
        | inl room ↦ rw room (
          λ e. push-eq-nil_iff (m ∷ errors) (collect_finding_semantic_errors findings) e,
          λ h. let never = h.0 in cc,
        )
        | inr full ↦ rw full (λ e. cc, λ h. let never = h.0 in cc)
      ]

  abbrev LimitedReport : Json → Json → Type 0
  LimitedReport schema findings = Valid patterns schema findings × AreFindings findings

  limited_iff :
      (findings schema : Json) (o : Option Errors)
      → o ≢ none
      → (validate_limited patterns findings schema o ≢ none)
        × ((validate_limited patterns findings schema o ≡ some [])
            ↔ ((o ≡ some []) × LimitedReport schema findings))
  unfolding validate_limited
  limited_iff findings schema none h = absurd (h refl)
  limited_iff findings schema (some (m ∷ errors)) h =
      (λ e. cc, (λ e. cc, λ k. let never = k.0 in cc))
  limited_iff findings schema (some []) h =
      let step = add_semantic_iff findings (collect_unchecked patterns findings schema (lit "$")) in
      let valid = unchecked-Valid patterns findings schema (lit "$") in
      let semantic = collect_finding_semantic_errors_iff findings in
      (
        λ e. cc,
        (
          λ e.
              let both = step.0 (some-injective _ _ e) in
              (refl, (valid.0 both.0, semantic.0 both.1)),
          λ k. ap some (step.1 (valid.1 k.1.0, semantic.1 k.1.1)),
        ),
      )

  checked_iff :
      (findings schema : Json) (errors : Errors)
      → (validate_checked patterns findings schema errors ≢ none)
        × ((validate_checked patterns findings schema errors ≡ some []) ↔ (
            (errors ≡ [])
            × IsLimited (root_depth findings) findings
            × LimitedReport schema findings))
  unfolding validate_checked
  checked_iff findings schema (m ∷ errors) = (λ e. cc, (λ e. cc, λ k. let never = k.0 in cc))
  checked_iff findings schema [] =
      let limits = collect_data_limit_errors_iff findings (lit "$") in
      let rest =
        limited_iff findings schema (collect_data_limit_errors findings (lit "$")) limits.0 in
      (
        rest.0,
        (
          λ e. let h = rest.1.0 e in (refl, limits.1.0 h.0, h.1),
          λ k. rest.1.1 (limits.1.1 k.1, k.2),
        ),
      )

  -- `validateDocument` returns a list for every value and every schema, and the list is empty exactly
  -- if the schema is one as a predicate by recursion says, the value is within the limits, it is
  -- valid for the schema, and it follows the rules on findings.
  pub validate_findings_iff :
      (findings schema : Json)
      → (validate_findings patterns findings schema ≢ none)
        × ((validate_findings patterns findings schema ≡ some []) ↔ IsReport schema findings)
  unfolding validate_findings
  validate_findings_iff findings schema =
      let schema_iff = collect_schema_errors_iff patterns schema in
      let step = checked_iff findings schema (collect_schema_errors patterns schema) in
      (
        step.0,
        (
          λ e.
              let h = step.1.0 e in
              record {
                is_schema = schema_iff.0 h.0;
                limited = h.1;
                valid = h.2.0;
                semantic = h.2.1;
              },
          λ r. step.1.1 (schema_iff.1 r.is_schema, r.limited, (r.valid, r.semantic)),
        ),
      )
