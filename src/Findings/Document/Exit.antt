-- ===== src/Findings/Document/Exit.antt =====
-- The exit status of the validator of findings.
-- (dot_agents/skills/security-audit/validate-findings.cjs)
use mathlib.Core.Path.{subst}
use dotfiles_ai.Base.{ℕ, ◌≡◌, ◌↔◌, refl, [], ◌∷◌, Option, none, some}
use dotfiles_ai.Js.Text.{Text}
use dotfiles_ai.Js.Json.{Json}
use dotfiles_ai.Js.Runtime.{Runtime}
use dotfiles_ai.Diagnostics.{Errors}
use dotfiles_ai.Ledger.Run.{System, Read, unsafe, failed, contents, read_file, stop}
use dotfiles_ai.Ledger.Run.Exit.{Passes}
use dotfiles_ai.Findings.Schema.{Patterns}
use dotfiles_ai.Findings.TextLimits.{Limited, throws, passes, Scanner, enforce_json_text_limits}
use dotfiles_ai.Findings.Document.{
  Load, thrown, loaded, validate_findings, load_schema, finish_validated, finish_findings,
  run_findings, run_limited, run_read, run_with_schema, run_validator,
}
use dotfiles_ai.Findings.Document.Correct.{IsReport, validate_findings_iff}

not-Passes-stop : (line : Text) → ¬ Passes (stop line)
not-Passes-stop line (f, e, zero_status) = cc (e, zero_status)

module _ ⦃rt : Runtime⦄ (patterns : Patterns) where
  Passes-finish_validated :
      (findings : Json) (o : Option Errors)
      → Passes (finish_validated patterns findings o) ↔ (o ≡ some [])
  unfolding finish_validated finish_findings
  Passes-finish_validated findings none = (λ h. let e = h.1 in cc, λ h. cc)
  Passes-finish_validated findings (some []) = (λ h. refl, λ h. (_, refl, refl))
  Passes-finish_validated findings (some (m ∷ errors)) =
      (λ h. let e = h.1 in let z = h.2 in cc, λ h. cc)

  abbrev IsParsed : Json → Option Json → Type 0
  IsParsed schema o = (findings : Json) × (o ≡ some findings) × IsReport patterns schema findings

  Passes-run_findings :
      (schema : Json) (o : Option Json)
      → Passes (run_findings patterns schema o) ↔ IsParsed schema o
  unfolding run_findings
  Passes-run_findings schema none = (λ h. absurd (not-Passes-stop _ h), λ h. let e = h.1 in cc)
  Passes-run_findings schema (some findings) =
      let valid = Passes-finish_validated findings (validate_findings patterns findings schema) in
      let is = (validate_findings_iff patterns findings schema).1 in
      (
        λ h. (findings, refl, is.0 (valid.0 h)),
        λ h.
            let same : h.0 ≡ findings = cc (h.1) in
            valid.1 (is.1 (subst (IsReport patterns schema) same h.2)),
      )

  abbrev IsScanned : System → Json → Text → Limited Scanner → Type 0
  IsScanned sys schema text o =
      (end : Scanner) × (o ≡ passes end) × IsParsed schema (sys.parse text)

  Passes-run_limited :
      (sys : System) (schema : Json) (text : Text) (o : Limited Scanner)
      → Passes (run_limited patterns sys schema text o) ↔ IsScanned sys schema text o
  unfolding run_limited
  Passes-run_limited sys schema text (throws m) =
      (λ h. absurd (not-Passes-stop _ h), λ h. let e = h.1 in cc)
  Passes-run_limited sys schema text (passes end) = (
    λ h. (end, refl, (Passes-run_findings schema (sys.parse text)).0 h),
    λ h. (Passes-run_findings schema (sys.parse text)).1 h.2,
  )

  -- What the command was given is read, scanned, parsed and a report.
  abbrev pub IsReadReport : System → Json → Option (Read Text) → Type 0
  IsReadReport sys schema o =
      (text : Text) × (o ≡ some (contents text))
      × IsScanned sys schema text (enforce_json_text_limits text)

  Passes-run_read :
      (sys : System) (schema : Json) (o : Option (Read Text))
      → Passes (run_read patterns sys schema o) ↔ IsReadReport sys schema o
  unfolding run_read
  Passes-run_read sys schema none = (λ h. let e = h.1 in cc, λ h. let e = h.1 in cc)
  Passes-run_read sys schema (some (unsafe m)) =
      (λ h. absurd (not-Passes-stop _ h), λ h. let e = h.1 in cc)
  Passes-run_read sys schema (some failed) =
      (λ h. absurd (not-Passes-stop _ h), λ h. let e = h.1 in cc)
  Passes-run_read sys schema (some (contents text)) =
      let scanned = Passes-run_limited sys schema text (enforce_json_text_limits text) in
      (
        λ h. (text, refl, scanned.0 h),
        λ h.
            let same : h.0 ≡ text = cc (h.1) in
            scanned.1 (subst (λ t. IsScanned sys schema t (enforce_json_text_limits t)) same h.2),
      )

  -- what the command was given, against the schema that was loaded
  abbrev pub IsLoaded : System → Text → Load → Type 0
  IsLoaded sys name o =
      (schema : Json) × (o ≡ loaded schema) × IsReadReport sys schema (read_file sys name)

  Passes-run_with_schema :
      (sys : System) (name : Text) (o : Load)
      → Passes (run_with_schema patterns sys name o) ↔ IsLoaded sys name o
  unfolding run_with_schema
  Passes-run_with_schema sys name (thrown m) =
      (λ h. absurd (not-Passes-stop _ h), λ h. let e = h.1 in cc)
  Passes-run_with_schema sys name (loaded schema) =
      let read = Passes-run_read sys schema (read_file sys name) in
      (
        λ h. (schema, refl, read.0 h),
        λ h.
            let same : h.0 ≡ schema = cc (h.1) in
            read.1 (subst (λ s. IsReadReport sys s (read_file sys name)) same h.2),
      )

  -- The command exits with 0 exactly if it is given a name that is not empty, `loadSchema` returns a
  -- schema, the file of that name is read as a text, the scan of the text accepts it, and it parses
  -- as a value that is a report by that schema.
  pub run_validator_iff :
      (sys : System) (schema : Load) (file : Option Text)
      → Passes (run_validator patterns sys schema file) ↔ (
          (c : ℕ) × (name : Text) × (file ≡ some (c ∷ name))
          × IsLoaded sys (c ∷ name) (load_schema patterns schema))
  unfolding run_validator
  run_validator_iff sys schema none = (λ h. absurd (not-Passes-stop _ h), λ h. let e = h.2 in cc)
  run_validator_iff sys schema (some []) =
      (λ h. absurd (not-Passes-stop _ h), λ h. let e = h.2 in cc)
  run_validator_iff sys schema (some (c ∷ name)) =
      let read = Passes-run_with_schema sys (c ∷ name) (load_schema patterns schema) in
      (
        λ h. (c, name, refl, read.0 h),
        λ h.
            let same : h.0 ∷ h.1 ≡ c ∷ name = cc (h.2) in
            read.1 (subst (λ n. IsLoaded sys n (load_schema patterns schema)) same h.3),
      )
