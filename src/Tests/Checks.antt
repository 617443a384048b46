-- ===== src/Tests/Checks.antt =====
-- Each result on the validator of findings and on the environment check at one input where its
-- conditions hold.
use dotfiles_ai.Base.{ℕ, ◌≤◌, ◌≡◌, ◌≢◌, ◌↔◌, refl, true, [], ◌∷◌, none, some}
use dotfiles_ai.Base.Lists.{length}
use dotfiles_ai.Js.Text.{Text, lit}
use dotfiles_ai.Js.Runtime.{small_runtime}
use dotfiles_ai.Diagnostics.{Errors, max_errors}
use dotfiles_ai.Findings.Schema.{collect_schema_errors}
use dotfiles_ai.Findings.Schema.Accepted.{IsSchema}
use dotfiles_ai.Findings.Schema.Correct.{collect_schema_errors_iff}
use dotfiles_ai.Findings.Document.Bounded.{length-validate_findings}
use dotfiles_ai.Ledger.Run.Exit.{Passes}
use dotfiles_ai.Findings.Validate.{collect_unchecked}
use dotfiles_ai.Findings.Validate.Valid.{Valid}
use dotfiles_ai.Findings.Validate.Correct.{collect_unchecked_iff}
use dotfiles_ai.Findings.Verdict.{collect_finding_semantic_errors}
use dotfiles_ai.Findings.Verdict.Correct.{AreFindings, collect_finding_semantic_errors_iff}
use dotfiles_ai.Findings.DataLimits.{root_depth, collect_data_limit_errors}
use dotfiles_ai.Findings.DataLimits.Limits.{IsLimited, collect_data_limit_errors_iff}
use dotfiles_ai.Findings.Document.{loaded, load_schema, validate_findings, run_validator}
use dotfiles_ai.Findings.Document.Correct.{IsReport, validate_findings_iff}
use dotfiles_ai.Findings.Document.Exit.{IsLoaded, run_validator_iff}
use dotfiles_ai.Environment.Versions.{version_lt, decide_suggest_upgrade}
use dotfiles_ai.Environment.Versions.Order.{IsEarlier, version_lt_iff}
use dotfiles_ai.Environment.Versions.Offers.{is_offered, decide_suggest_upgrade_iff}
use dotfiles_ai.Environment.Host.{sanitize_token, canonical_agent_name}
use dotfiles_ai.Environment.Host.Names.{
  IsSlug, sanitize_token_iff, canonical_agent_name-canonical_agent_name,
}
use dotfiles_ai.Environment.UserAgent.{build_user_agent}
use dotfiles_ai.Environment.UserAgent.Header.{is_printable, is_printable-build_user_agent}
use dotfiles_ai.Environment.Check.Outcome.{Verdict}
use dotfiles_ai.Tests.Data.{sample_system}
use dotfiles_ai.Tests.Samples.{
  literal_patterns, report_schema, two_findings, number_of, sample_host, lower-token, lower-slug,
}
use dotfiles_ai.Tests.SampleRuns.{schema_run}

collect_finding_semantic_errors_iff_example :
    (collect_finding_semantic_errors ⦃rt = small_runtime⦄ two_findings ≡ [])
    ↔ AreFindings ⦃rt = small_runtime⦄ two_findings
collect_finding_semantic_errors_iff_example =
    collect_finding_semantic_errors_iff ⦃rt = small_runtime⦄ two_findings

collect_data_limit_errors_iff_example :
    (collect_data_limit_errors ⦃rt = small_runtime⦄ two_findings (lit "$") ≢ none)
    × ((collect_data_limit_errors ⦃rt = small_runtime⦄ two_findings (lit "$") ≡ some [])
        ↔ IsLimited (root_depth ⦃rt = small_runtime⦄ two_findings) two_findings)
collect_data_limit_errors_iff_example =
    collect_data_limit_errors_iff ⦃rt = small_runtime⦄ two_findings (lit "$")

validate_findings_iff_example :
    (validate_findings ⦃rt = small_runtime⦄ literal_patterns two_findings report_schema ≢ none)
    × ((validate_findings ⦃rt = small_runtime⦄ literal_patterns two_findings report_schema
          ≡ some [])
        ↔ IsReport ⦃rt = small_runtime⦄ literal_patterns report_schema two_findings)
validate_findings_iff_example =
    validate_findings_iff ⦃rt = small_runtime⦄ literal_patterns two_findings report_schema

collect_schema_errors_iff_example :
    (collect_schema_errors ⦃rt = small_runtime⦄ literal_patterns report_schema ≡ [])
    ↔ IsSchema ⦃rt = small_runtime⦄ literal_patterns report_schema
collect_schema_errors_iff_example =
    collect_schema_errors_iff ⦃rt = small_runtime⦄ literal_patterns report_schema

length-validate_findings_example :
    (errors : Errors) × (validate_findings ⦃rt = small_runtime⦄ literal_patterns two_findings
        report_schema
      ≡ some errors)
    × (length errors ≤ max_errors)
length-validate_findings_example =
    length-validate_findings ⦃rt = small_runtime⦄ literal_patterns two_findings report_schema

run_validator_iff_example :
    Passes (
      run_validator ⦃rt = small_runtime⦄ literal_patterns sample_system
        (loaded report_schema)
        (some (lit "findings.json")))
    ↔ ((c : ℕ) × (name : Text) × (some (lit "findings.json") ≡ some (c ∷ name))
        × IsLoaded ⦃rt = small_runtime⦄ literal_patterns sample_system
            (c ∷ name)
            (load_schema ⦃rt = small_runtime⦄ literal_patterns (loaded report_schema)))
run_validator_iff_example =
    run_validator_iff ⦃rt = small_runtime⦄ literal_patterns sample_system (loaded report_schema)
      (some (lit "findings.json"))

decide_suggest_upgrade_iff_example :
    let offer = decide_suggest_upgrade number_of (lit "2.119.0") (lit "2.120.0") none in
    offer.suggest ≡ is_offered number_of (lit "2.119.0") none offer.latest
decide_suggest_upgrade_iff_example =
    decide_suggest_upgrade_iff number_of (lit "2.119.0") (lit "2.120.0") none

versions_are_printable :
    (is_printable (lit "2.119.0") ≡ true)
    × (is_printable (lit "unknown") ≡ true)
    × (is_printable (lit "1.2.0") ≡ true)
unfolding is_printable lit
versions_are_printable = (refl, refl, refl)

is_printable-build_user_agent_example :
    is_printable (
      build_user_agent number_of sample_host
        (lit "Opus 4")
        (lit "2.119.0")
        (lit "unknown")
        (lit "1.2.0"))
    ≡ true
is_printable-build_user_agent_example =
    is_printable-build_user_agent number_of sample_host (lit "Opus 4") (lit "2.119.0")
      (lit "unknown") (lit "1.2.0") versions_are_printable.0 versions_are_printable.1
      versions_are_printable.2

canonical_agent_name-canonical_agent_name_example :
    canonical_agent_name sample_host (canonical_agent_name sample_host (lit "Claude-Code@2"))
    ≡ canonical_agent_name sample_host (lit "Claude-Code@2")
canonical_agent_name-canonical_agent_name_example =
    canonical_agent_name-canonical_agent_name sample_host (lit "Claude-Code@2") lower-token

collect_unchecked_iff_example :
    (collect_unchecked ⦃rt = small_runtime⦄ literal_patterns two_findings report_schema (lit "$")
      ≡ [])
    ↔ Valid ⦃rt = small_runtime⦄ literal_patterns report_schema two_findings
collect_unchecked_iff_example =
    collect_unchecked_iff ⦃rt = small_runtime⦄ literal_patterns two_findings report_schema (lit "$")
      ((collect_schema_errors_iff ⦃rt = small_runtime⦄ literal_patterns report_schema).0 schema_run)

version_lt_iff_example :
    (version_lt number_of (lit "2.9.0") (lit "2.10.0") ≡ true)
    ↔ IsEarlier number_of (lit "2.9.0") (lit "2.10.0")
version_lt_iff_example = version_lt_iff number_of (lit "2.9.0") (lit "2.10.0")

sanitize_token_iff_example :
    IsSlug (sanitize_token sample_host (lit " Opus 4.5"))
    × ((sanitize_token sample_host (lit " Opus 4.5") ≡ lit " Opus 4.5") ↔ IsSlug (lit " Opus 4.5"))
sanitize_token_iff_example = sanitize_token_iff sample_host (lit " Opus 4.5") lower-slug
