-- ===== src/Findings/Verdict.antt =====
-- The last block of `collectFindingSemanticErrors`, on the verdict of a finding, and the loop of
-- that function.
-- (dot_agents/skills/security-audit/validate-findings.cjs)
pub mod Rules
pub mod Correct
use dotfiles_ai.Base.{
  ℕ, Bool, true, false, not, ◌&&◌, ◌||◌, List, [], ◌∷◌, ◌++◌, none, some, if◌then◌else◌,
}
use dotfiles_ai.Js.Text.{Text, lit}
use dotfiles_ai.Js.Json.{Json, string, array, object, items, get, has_own, is_text, Value}
use dotfiles_ai.Js.Runtime.{Runtime}
use dotfiles_ai.Diagnostics.{Errors, safe_quote}
use dotfiles_ai.Diagnostics.Reports.{
  Check, pass, ◌>>◌, for_each, for_each_with, at_index, report, report_if,
}
use dotfiles_ai.Findings.Keywords.{unless_full, is_plain_object}
use dotfiles_ai.Findings.Semantic.{
  Fingerprints, get_of, list_of, severity_rank, exceeds, in_confirmed, in_needs_validation,
  in_rejected, remember, is_prose, report_fingerprint, report_entries, report_changes, report_trace,
}

module _ ⦃rt : Runtime⦄ where
  -- a loop over forbidden fields
  unfoldable pub report_forbidden : Text → List Text → Json → Text → Check
  unfolding lit
  report_forbidden verdict forbidden finding base =
      for_each
        (λ i name. report_if (has_own name finding) (
          base
          ++ (lit ": "
              ++ (verdict
                  ++ (lit " finding must not contain " ++ safe_quote (some (string name)))))))
        0 forbidden

  abbrev pub overall_of : Json → Value
  unfolding lit get get_of
  overall_of finding = get_of (lit "overall_severity") (get (lit "severity") finding)

  abbrev pub impact_of : Json → Value
  unfolding lit get get_of
  impact_of finding = get_of (lit "score") (get_of (lit "impact") (get (lit "severity") finding))

  unfoldable pub report_confirmed : Json → Text → Check
  unfolding ◌>>◌ lit get_of report_forbidden in_confirmed severity_rank exceeds
  report_confirmed finding base = do
    report_forbidden (lit "confirmed") in_confirmed finding base
    report_if (not (is_prose (get_of (lit "observed_result") (get (lit "execution") finding))))
        (base ++ lit ": confirmed finding requires a visible execution observed_result")
    report_if (not (is_prose (get_of (lit "strategy") (get (lit "remediation") finding))))
        (base ++ lit ": confirmed finding requires visible remediation")
    report_if (exceeds (severity_rank (overall_of finding)) (severity_rank (impact_of finding))) (
        base
        ++ (lit ".severity.overall_severity: cannot exceed demonstrated impact "
            ++ safe_quote (impact_of finding)))

  unfoldable pub report_needs_validation : Json → Text → Check
  unfolding ◌>>◌ lit get_of report_forbidden in_needs_validation
  report_needs_validation finding base = do
    report_if (has_own (lit "severity") finding)
        (base ++ lit ": needs_validation finding must not contain \"severity\"")
    report_forbidden (lit "needs_validation") in_needs_validation finding base
    report_if
        (not (is_prose (get_of (lit "local") (get (lit "validation_plan") finding)))
          && not (is_prose (get_of (lit "deployment") (get (lit "validation_plan") finding))))
        (base ++ lit ".validation_plan: requires at least one visible local or deployment plan")

  -- the block on `finding.verdict`
  unfoldable pub report_verdict : Json → Text → Check
  unfolding lit report_confirmed report_needs_validation report_forbidden in_rejected
  report_verdict finding base =
      if is_text (lit "confirmed") (get (lit "verdict") finding)
      then report_confirmed finding base
      else if is_text (lit "needs_validation") (get (lit "verdict") finding)
      then report_needs_validation finding base
      else if is_text (lit "rejected") (get (lit "verdict") finding)
      then report_forbidden (lit "rejected") in_rejected finding base
      else pass

  -- The body of the `forEach`. Where the list of errors is full, the source also leaves its
  -- variables as they are, which nothing can show after that.
  unfoldable pub report_finding : Fingerprints → ℕ → Json → Check
  unfolding ◌>>◌ lit unless_full report_fingerprint report_entries report_changes report_trace
      report_verdict
  report_finding state i finding = unless_full (
      if is_plain_object finding
      then (do
        report_fingerprint state (get (lit "fingerprint") finding) (at_index (lit "$") i)
        report_entries finding (at_index (lit "$") i)
        report_changes finding (at_index (lit "$") i)
        report_trace (list_of (get (lit "trace") finding)) (at_index (lit "$") i)
        report_verdict finding (at_index (lit "$") i))
      else pass)

  abbrev pub nothing_seen : Fingerprints
  nothing_seen = record { known = []; previous = none; index = 0 }

  -- `collectFindingSemanticErrors`
  unfoldable pub collect_finding_semantic_errors : Json → Errors
  unfolding report_finding remember
  collect_finding_semantic_errors (array vs) =
      for_each_with report_finding remember nothing_seen 0 (items vs) []
  collect_finding_semantic_errors _ = []
