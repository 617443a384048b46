-- ===== src/Findings/Verdict/Rules.antt =====
-- The rules for one finding, and that the body of the loop decides them.
-- (dot_agents/skills/security-audit/validate-findings.cjs)
use dotfiles_ai.Base.{
  ℕ, ◌+◌, ◌≡◌, ◌⊎◌, ◌↔◌, Bool, true, false, not, ◌&&◌, List, [], ◌∷◌, arith, if◌then◌else◌,
}
use dotfiles_ai.Base.Lists.{All}
use dotfiles_ai.Js.Text.{Text, lit}
use dotfiles_ai.Js.Json.{Json, get, has_own, is_text}
use dotfiles_ai.Js.Runtime.{Runtime}
use dotfiles_ai.Diagnostics.Reports.{
  Reports, Reports-map, Reports-seq, Reports-pass, Reports-report_if, Reports-report_unless,
  Reports-for_each, Reports-if, at_field,
}
use dotfiles_ai.Findings.Values.{is_safe_relative_source_path}
use dotfiles_ai.Findings.Semantic.{
  get_of, list_of, is_bad_line, is_truthy_value, severity_rank, exceeds, in_confirmed,
  in_needs_validation, in_rejected, is_prose, report_entry, report_entries, report_change,
  report_changes, report_kind, report_middle, report_last, report_trace,
}
use dotfiles_ai.Findings.Verdict.{
  report_forbidden, overall_of, impact_of, report_confirmed, report_needs_validation,
  report_verdict,
}

-- A field that is there has the property.
abbrev pub IfThere : Text → Json → Bool → Type 0
IfThere name v bad = (has_own name v && bad) ≡ false

abbrev pub HasKind : Text → Json → Type 0
unfolding lit
HasKind kind entry = (is_truthy_value entry && not (is_text kind (get (lit "kind") entry))) ≡ false

-- what follows the entrypoint: propagations, and a sink
unfoldable pub EndsInSink : List Json → Type 0
unfolding lit
EndsInSink [] = Unit
EndsInSink (entry ∷ []) = HasKind (lit "sink") entry
EndsInSink (entry ∷ next ∷ trace) = HasKind (lit "propagation") entry × EndsInSink (next ∷ trace)

-- the same, as the source reads a trace: the last entry, then the others
abbrev LastIsSink : List Json → Type 0
LastIsSink [] = Unit
LastIsSink (entry ∷ []) = HasKind (lit "sink") entry
LastIsSink (entry ∷ next ∷ trace) = LastIsSink (next ∷ trace)

abbrev OthersPropagate : List Json → Type 0
OthersPropagate (entry ∷ next ∷ trace) =
    HasKind (lit "propagation") entry × OthersPropagate (next ∷ trace)
OthersPropagate _ = Unit

EndsInSink-LastIsSink :
    (trace : List Json) → EndsInSink trace ↔ (LastIsSink trace × OthersPropagate trace)
unfolding EndsInSink
EndsInSink-LastIsSink [] = (λ h. (tt, tt), λ h. tt)
EndsInSink-LastIsSink (entry ∷ []) = (λ h. (h, tt), λ h. h.0)
EndsInSink-LastIsSink (entry ∷ next ∷ trace) =
    let rest = EndsInSink-LastIsSink (next ∷ trace) in
    (λ h. let both = rest.0 h.1 in (both.0, (h.0, both.1)), λ h. (h.1.0, rest.1 (h.0, h.1.1)))

unfoldable pub IsTrace : List Json → Type 0
unfolding lit EndsInSink
IsTrace [] = Unit
IsTrace (entry ∷ []) =
    (not (is_text (lit "entrypoint") (get (lit "kind") entry))
      && not (is_text (lit "sink") (get (lit "kind") entry)))
    ≡ false
IsTrace (entry ∷ next ∷ trace) = HasKind (lit "entrypoint") entry × EndsInSink (next ∷ trace)

abbrev pub HasNone : List Text → Json → Type 0
HasNone names finding = All (λ name. has_own name finding ≡ false) names

module _ ⦃rt : Runtime⦄ where
  unfoldable pub IsPlace : Json → Type 0
  unfolding lit
  IsPlace entry =
      IfThere (lit "line") entry (is_bad_line (get (lit "line") entry))
      × IfThere (lit "file") entry (not (is_safe_relative_source_path (get (lit "file") entry)))

  unfoldable pub IsChange : Json → Type 0
  unfolding lit
  IsChange change =
      IfThere (lit "file_name") change
        (not (is_safe_relative_source_path (get (lit "file_name") change)))

  -- A confirmed finding has an execution, a remediation and no more severity than its impact.
  unfoldable pub IsConfirmed : Json → Type 0
  unfolding lit
  IsConfirmed finding =
      HasNone in_confirmed finding
      × (is_prose (get_of (lit "observed_result") (get (lit "execution") finding)) ≡ true)
      × (is_prose (get_of (lit "strategy") (get (lit "remediation") finding)) ≡ true)
      × (exceeds (severity_rank (overall_of finding)) (severity_rank (impact_of finding)) ≡ false)

  unfoldable pub NeedsValidation : Json → Type 0
  unfolding lit
  NeedsValidation finding =
      (has_own (lit "severity") finding ≡ false)
      × HasNone in_needs_validation finding
      × ((is_prose (get_of (lit "local") (get (lit "validation_plan") finding)) ≡ true)
          ⊎ (is_prose (get_of (lit "deployment") (get (lit "validation_plan") finding)) ≡ true))

  unfoldable pub HasVerdict : Json → Type 0
  unfolding lit IsConfirmed NeedsValidation
  HasVerdict finding =
      if is_text (lit "confirmed") (get (lit "verdict") finding)
      then IsConfirmed finding
      else if is_text (lit "needs_validation") (get (lit "verdict") finding)
      then NeedsValidation finding
      else if is_text (lit "rejected") (get (lit "verdict") finding)
      then HasNone in_rejected finding
      else Unit

  -- The rules for a finding by itself.
  pub record IsFinding (finding : Json) : Type 0 where
    pub trace_places : All IsPlace (list_of (get (lit "trace") finding))
    pub evidence_places : All IsPlace (list_of (get (lit "evidence") finding))
    pub changes :
        All IsChange (list_of (get_of (lit "code_changes") (get (lit "remediation") finding)))
    pub trace : IsTrace (list_of (get (lit "trace") finding))
    pub verdict : HasVerdict finding

  report_entry-Reports :
      (base : Text) (i : ℕ) (entry : Json) → Reports (report_entry base i entry) (IsPlace entry)
  unfolding report_entry IsPlace
  report_entry-Reports base i entry = Reports-seq (Reports-report_if _ _) (Reports-report_if _ _)

  pub report_entries-Reports :
      (finding : Json) (base : Text)
      → Reports (report_entries finding base) (
          All IsPlace (list_of (get (lit "trace") finding))
          × All IsPlace (list_of (get (lit "evidence") finding)))
  unfolding report_entries
  report_entries-Reports finding base =
      Reports-seq (Reports-for_each (report_entry-Reports (at_field base (lit "trace"))) 0 _)
        (Reports-for_each (report_entry-Reports (at_field base (lit "evidence"))) 0 _)

  pub report_changes-Reports :
      (finding : Json) (base : Text)
      → Reports
          (report_changes finding base)
          (All IsChange (list_of (get_of (lit "code_changes") (get (lit "remediation") finding))))
  unfolding report_changes report_change IsChange
  report_changes-Reports finding base = Reports-for_each (λ i change. Reports-report_if _ _) 0 _

  report_kind-Reports :
      (kind base : Text) (i : ℕ) (entry : Json)
      → Reports (report_kind kind base i entry) (HasKind kind entry)
  unfolding report_kind
  report_kind-Reports kind base i entry = Reports-report_if _ _

  report_last-Reports :
      (base : Text) (i : ℕ) (trace : List Json)
      → Reports (report_last base i trace) (LastIsSink trace)
  unfolding report_last
  report_last-Reports base i [] = Reports-pass
  report_last-Reports base i (entry ∷ []) = report_kind-Reports (lit "sink") base i entry
  report_last-Reports base i (entry ∷ next ∷ trace) =
      report_last-Reports base (i + 1) (next ∷ trace)

  report_middle-Reports :
      (base : Text) (i : ℕ) (trace : List Json)
      → Reports (report_middle base i trace) (OthersPropagate trace)
  unfolding report_middle
  report_middle-Reports base i [] = Reports-pass
  report_middle-Reports base i (entry ∷ []) = Reports-pass
  report_middle-Reports base i (entry ∷ next ∷ trace) =
      Reports-seq (report_kind-Reports (lit "propagation") base i entry)
        (report_middle-Reports base (i + 1) (next ∷ trace))

  pub report_trace-Reports :
      (trace : List Json) (base : Text) → Reports (report_trace trace base) (IsTrace trace)
  unfolding report_trace IsTrace
  report_trace-Reports [] base = Reports-pass
  report_trace-Reports (entry ∷ []) base = Reports-report_if _ _
  report_trace-Reports (entry ∷ next ∷ trace) base =
      let ends = EndsInSink-LastIsSink (next ∷ trace) in
      Reports-seq (report_kind-Reports (lit "entrypoint") base 0 entry) (
        Reports-map
          (Reports-seq (report_last-Reports base 1 (next ∷ trace))
            (report_middle-Reports base 1 (next ∷ trace)))
          ends.1 ends.0)

  report_forbidden-Reports :
      (verdict : Text) (names : List Text) (finding : Json) (base : Text)
      → Reports (report_forbidden verdict names finding base) (HasNone names finding)
  unfolding report_forbidden
  report_forbidden-Reports verdict names finding base =
      Reports-for_each (λ i name. Reports-report_if _ _) 0 names

  report_confirmed-Reports :
      (finding : Json) (base : Text) → Reports (report_confirmed finding base) (IsConfirmed finding)
  unfolding report_confirmed IsConfirmed
  report_confirmed-Reports finding base =
      Reports-map
        (Reports-seq
          (Reports-seq
            (Reports-seq (report_forbidden-Reports (lit "confirmed") in_confirmed finding base)
              (Reports-report_unless _ _))
            (Reports-report_unless _ _))
          (Reports-report_if _ _))
        (λ h. (h.0.0.0, h.0.0.1, h.0.1, h.1)) (λ h. (((h.0, h.1), h.2), h.3))

  some_plan : (a b : Bool) → (not a && not b) ≡ false → (a ≡ true) ⊎ (b ≡ true)
  some_plan a b h = ground arith

  not_without_plan : (a b : Bool) → (a ≡ true) ⊎ (b ≡ true) → (not a && not b) ≡ false
  not_without_plan a b h = ground arith

  report_needs_validation-Reports :
      (finding : Json) (base : Text)
      → Reports (report_needs_validation finding base) (NeedsValidation finding)
  unfolding report_needs_validation NeedsValidation
  report_needs_validation-Reports finding base =
      Reports-map
        (Reports-seq
          (Reports-seq (Reports-report_if _ _)
            (report_forbidden-Reports (lit "needs_validation") in_needs_validation finding base))
          (Reports-report_if _ _))
        (λ h. (h.0.0, h.0.1, some_plan _ _ h.1)) (λ h. ((h.0, h.1), not_without_plan _ _ h.2))

  pub report_verdict-Reports :
      (finding : Json) (base : Text) → Reports (report_verdict finding base) (HasVerdict finding)
  unfolding report_verdict HasVerdict
  report_verdict-Reports finding base = Reports-if _ (report_confirmed-Reports finding base) (
      Reports-if _ (report_needs_validation-Reports finding base) (
        Reports-if _ (report_forbidden-Reports (lit "rejected") in_rejected finding base)
          Reports-pass))
