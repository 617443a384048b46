-- ===== src/Findings/Document/Bounded.antt =====
-- The list that `validateDocument` of the findings returns is bounded.
-- (dot_agents/skills/security-audit/validate-findings.cjs)
use dotfiles_ai.Base.{
  ◌≤◌, ◌≡◌, ◌≢◌, refl, inl, inr, [], ◌∷◌, Option, none, some, ltb, arith, Bool-cases,
}
use dotfiles_ai.Base.Lists.{length}
use dotfiles_ai.Js.Text.{lit}
use dotfiles_ai.Js.Json.{Json}
use dotfiles_ai.Js.Runtime.{Runtime}
use dotfiles_ai.Diagnostics.{Errors, max_errors}
use dotfiles_ai.Diagnostics.Reports.{Reports-length, length-push}
use dotfiles_ai.Findings.Schema.{Patterns, collect_schema_errors}
use dotfiles_ai.Findings.Schema.Correct.{check_node_lem}
use dotfiles_ai.Findings.Validate.{collect_unchecked}
use dotfiles_ai.Findings.Validate.Correct.{validate-Reports}
use dotfiles_ai.Findings.DataLimits.{collect_data_limit_errors}
use dotfiles_ai.Findings.DataLimits.Limits.{AtMostOne, length-collect_data_limit_errors}
use dotfiles_ai.Findings.Document.{
  add_semantic, validate_limited, validate_checked, validate_findings,
}
use dotfiles_ai.Findings.Document.Correct.{validate_findings_iff}

abbrev IsCapped : Option Errors → Type 0
IsCapped none = Unit
IsCapped (some errors) = length errors ≤ max_errors

module _ ⦃rt : Runtime⦄ (patterns : Patterns) where
  length-collect_unchecked :
      (findings schema : Json)
      → length (collect_unchecked patterns findings schema (lit "$")) ≤ max_errors
  unfolding collect_unchecked
  length-collect_unchecked findings schema =
      Reports-length [] (validate-Reports patterns schema findings (lit "$")) (omega arith)

  length-add_semantic :
      (findings : Json) (errors : Errors)
      → length errors ≤ max_errors
      → length (add_semantic patterns findings errors) ≤ max_errors
  unfolding add_semantic
  length-add_semantic findings errors h = elim (Bool-cases (ltb (length errors) max_errors)) [
    | inl room ↦ rw room (length-push errors _ h)
    | inr full ↦ rw full h
  ]

  limited-IsCapped :
      (findings schema : Json) (o : Option Errors)
      → AtMostOne o
      → IsCapped (validate_limited patterns findings schema o)
  unfolding validate_limited
  limited-IsCapped findings schema none h = tt
  limited-IsCapped findings schema (some (m ∷ errors)) h = omega (arith, h)
  limited-IsCapped findings schema (some []) h =
      length-add_semantic findings _ (length-collect_unchecked findings schema)

  checked-IsCapped :
      (findings schema : Json) (errors : Errors)
      → length errors ≤ max_errors
      → IsCapped (validate_checked patterns findings schema errors)
  unfolding validate_checked
  checked-IsCapped findings schema (m ∷ errors) h = h
  checked-IsCapped findings schema [] h =
      limited-IsCapped findings schema (collect_data_limit_errors findings (lit "$"))
        (length-collect_data_limit_errors findings (lit "$"))

  length-collect_schema_errors :
      (schema : Json) → length (collect_schema_errors patterns schema) ≤ max_errors
  unfolding collect_schema_errors
  length-collect_schema_errors schema =
      Reports-length [] (check_node_lem patterns schema) (omega arith)

  validate_findings-IsCapped :
      (findings schema : Json) → IsCapped (validate_findings patterns findings schema)
  unfolding validate_findings
  validate_findings-IsCapped findings schema =
      checked-IsCapped findings schema (collect_schema_errors patterns schema)
        (length-collect_schema_errors schema)

  there :
      (o : Option Errors)
      → o ≢ none
      → IsCapped o
      → (errors : Errors) × (o ≡ some errors) × (length errors ≤ max_errors)
  there none h k = absurd (h refl)
  there (some errors) h k = (errors, refl, k)

  -- `validateDocument` of the findings returns a list for every value and every schema, and the list
  -- never has more than 100 entries.
  pub length-validate_findings :
      (findings schema : Json)
      → (errors : Errors) × (validate_findings patterns findings schema ≡ some errors)
        × (length errors ≤ max_errors)
  length-validate_findings findings schema =
      there (validate_findings patterns findings schema)
        (validate_findings_iff patterns findings schema).0
        (validate_findings-IsCapped findings schema)
