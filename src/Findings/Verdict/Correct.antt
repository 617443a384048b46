-- ===== src/Findings/Verdict/Correct.antt =====
-- `collectFindingSemanticErrors` decides the rules on findings.
-- (dot_agents/skills/security-audit/validate-findings.cjs)
use dotfiles_ai.Base.{◌≡◌, ◌↔◌, refl, ℕ, List, [], ◌∷◌, none}
use dotfiles_ai.Base.Lists.{All}
use dotfiles_ai.Js.Text.{Text, lit}
use dotfiles_ai.Js.Json.{Json, null, boolean, number, string, array, object, items, get, is_text}
use dotfiles_ai.Js.Runtime.{Runtime}
use dotfiles_ai.Diagnostics.Reports.{
  Reports, Reports_iff, Reports-map, Reports-seq, Reports-pass, Reports-for_each_with, AllFrom,
  pass,
}
use dotfiles_ai.Findings.Keywords.{unless_full}
use dotfiles_ai.Findings.Semantic.{Fingerprints, index_of, remember, list_of, get_of}
use dotfiles_ai.Findings.Semantic.Order.{Ascends, FitsFinding, fits_iff, report_fingerprint-Reports}
use dotfiles_ai.Findings.Validate.Branches.{Reports-unless_full}
use dotfiles_ai.Findings.Verdict.{report_finding, nothing_seen, collect_finding_semantic_errors}
use dotfiles_ai.Findings.Verdict.Rules.{
  IsTrace, HasVerdict, IsFinding, report_entries-Reports, report_changes-Reports,
  report_trace-Reports, report_verdict-Reports,
}

module _ ⦃rt : Runtime⦄ where
  -- The findings ascend in their fingerprints, and each follows the rules.
  abbrev pub AreFindings : Json → Type 0
  AreFindings (array vs) = Ascends none (items vs) × All IsFinding (items vs)
  AreFindings _ = Unit

  -- What has no fields follows the rules.
  fieldless-IsFinding : (v : Json) → ((k : Text) → get k v ≡ none) → IsFinding v
  unfolding IsTrace HasVerdict get_of is_text
  fieldless-IsFinding v h = record {
    trace_places = rw (h (lit "trace")) tt;
    evidence_places = rw (h (lit "evidence")) tt;
    changes = rw (h (lit "remediation")) tt;
    trace = rw (h (lit "trace")) tt;
    verdict = rw (h (lit "verdict")) tt;
  }

  pass-Reports :
      (state : Fingerprints) (v : Json)
      → ((k : Text) → get k v ≡ none)
      → Reports (unless_full pass) (FitsFinding state v × IsFinding v)
  unfolding FitsFinding
  pass-Reports state v h = Reports-unless_full (
      Reports-map Reports-pass (λ _. (rw (h (lit "fingerprint")) tt, fieldless-IsFinding v h))
        (λ _. tt))

  report_finding-Reports :
      (state : Fingerprints) (i : ℕ) (finding : Json)
      → Reports (report_finding state i finding) (FitsFinding state finding × IsFinding finding)
  unfolding report_finding FitsFinding get
  report_finding-Reports state i (object fs) = Reports-unless_full (
      Reports-map
        (Reports-seq (report_fingerprint-Reports state (get (lit "fingerprint") (object fs)) _) (
          Reports-seq (report_entries-Reports (object fs) _) (
            Reports-seq (report_changes-Reports (object fs) _) (
              Reports-seq (report_trace-Reports (list_of (get (lit "trace") (object fs))) _)
                (report_verdict-Reports (object fs) _)))))
        (λ h. (
          h.0,
          record {
            trace_places = h.1.0.0;
            evidence_places = h.1.0.1;
            changes = h.1.1.0;
            trace = h.1.1.1.0;
            verdict = h.1.1.1.1;
          },
        ))
        (λ h. (
          h.0,
          ((h.1.trace_places, h.1.evidence_places), (h.1.changes, (h.1.trace, h.1.verdict))),
        )))
  report_finding-Reports state i null = pass-Reports state null (λ k. refl)
  report_finding-Reports state i (boolean b) = pass-Reports state (boolean b) (λ k. refl)
  report_finding-Reports state i (number n) = pass-Reports state (number n) (λ k. refl)
  report_finding-Reports state i (string s) = pass-Reports state (string s) (λ k. refl)
  report_finding-Reports state i (array vs) = pass-Reports state (array vs) (λ k. refl)

  separate :
      (state : Fingerprints) (vs : List Json)
      → AllFrom (λ s v. FitsFinding s v × IsFinding v) remember state vs
        ↔ (AllFrom FitsFinding remember state vs × All IsFinding vs)
  separate state [] = (λ _. (tt, tt), λ _. tt)
  separate state (v ∷ vs) =
      let rest = separate (remember state v) vs in
      (
        λ h. let both = rest.0 h.1 in ((h.0.0, both.0), (h.0.1, both.1)),
        λ h. ((h.0.0, h.1.0), rest.1 (h.0.1, h.1.1)),
      )

  -- `collectFindingSemanticErrors` returns an empty list exactly if the fingerprints of the findings
  -- that have one strictly ascend, and every finding follows the rules on its places, its changes,
  -- the kinds in its trace and its verdict; for a value that is no array it always does.
  pub collect_finding_semantic_errors_iff :
      (findings : Json) → (collect_finding_semantic_errors findings ≡ []) ↔ AreFindings findings
  unfolding collect_finding_semantic_errors index_of
  collect_finding_semantic_errors_iff (array vs) =
      let all =
        Reports_iff
          (Reports-for_each_with remember report_finding-Reports nothing_seen 0 (items vs)) in
      let both = separate nothing_seen (items vs) in
      let order = fits_iff nothing_seen (items vs) (λ u. refl) in
      (λ e. let h = both.0 (all.0 e) in (order.0 h.0, h.1), λ h. all.1 (both.1 (order.1 h.0, h.1)))
  collect_finding_semantic_errors_iff null = (λ _. tt, λ _. refl)
  collect_finding_semantic_errors_iff (boolean b) = (λ _. tt, λ _. refl)
  collect_finding_semantic_errors_iff (number n) = (λ _. tt, λ _. refl)
  collect_finding_semantic_errors_iff (string s) = (λ _. tt, λ _. refl)
  collect_finding_semantic_errors_iff (object fs) = (λ _. tt, λ _. refl)
