-- ===== src/Findings/Semantic.antt =====
-- `collectFindingSemanticErrors`: what the schema does not say of the findings.
-- (dot_agents/skills/security-audit/validate-findings.cjs)
pub mod Order
use dotfiles_ai.Base.{
  ℕ, zero, suc, ◌+◌, Bool, true, false, not, ◌&&◌, ◌||◌, List, [], ◌∷◌, ◌++◌, Option, none, some,
  ltb, if◌then◌else◌,
}
use dotfiles_ai.Base.Lists.{length, any}
use dotfiles_ai.Js.Text.{Text, lit, text_eq, text_lt, decimal}
use dotfiles_ai.Js.Text.Points.{code_points}
use dotfiles_ai.Js.Number.{pos, finite, number_lt, is_integer, whole}
use dotfiles_ai.Js.Json.{
  Json, Items, Fields, null, boolean, number, string, array, object, items, get, has_own, is_some,
  is_text, Value,
}
use dotfiles_ai.Js.Runtime.{Runtime, is_visible}
use dotfiles_ai.Diagnostics.{Errors, safe_quote}
use dotfiles_ai.Diagnostics.Reports.{
  Check, pass, ◌>>◌, for_each, for_each_with, at_index, at_field, report, report_if,
}
use dotfiles_ai.Ledger.Values.{has_valid_unicode_scalar_values}
use dotfiles_ai.Findings.Values.{is_safe_relative_source_path}
use dotfiles_ai.Findings.Keywords.{unless_full}

-- `value.key` where `value` may be undefined, under `value &&`
unfoldable pub get_of : Text → Value → Value
get_of key none = none
get_of key (some v) = get key v

-- `fingerprints`, `previousFingerprint` and the `index` of the loop
pub record Fingerprints : Type 0 where
  pub known : List (Text × ℕ)
  pub previous : Option Text
  pub index : ℕ

-- `fingerprints.get`
unfoldable pub index_of : Text → List (Text × ℕ) → Option ℕ
unfolding text_eq
index_of s [] = none
index_of s ((t, i) ∷ known) = let rest = index_of s known in if text_eq t s then some i else rest

-- `!Number.isInteger(entry.line) || entry.line < 1`
abbrev pub is_bad_line : Value → Bool
is_bad_line (some (number n)) = not (is_integer n) || number_lt n (whole 1)
is_bad_line _ = true

abbrev pub list_of : Value → List Json
list_of (some (array vs)) = items vs
list_of _ = []

-- JavaScript's truth of a value
unfoldable pub is_truthy_value : Json → Bool
unfolding lit
is_truthy_value null = false
is_truthy_value (boolean b) = b
is_truthy_value (string []) = false
is_truthy_value (number (finite (pos zero) zero)) = false
is_truthy_value _ = true

abbrev pub is_plain : Json → Bool
is_plain (object _) = true
is_plain _ = false

-- `SEVERITY_RANK`
unfoldable pub severity_rank : Value → Option ℕ
unfolding lit is_text
severity_rank v =
    if is_text (lit "informational") v
    then some 0
    else if is_text (lit "low") v
    then some 1
    else if is_text (lit "medium") v
    then some 2
    else if is_text (lit "high") v
    then some 3
    else if is_text (lit "critical") v
    then some 4
    else none

-- `SEVERITY_RANK.get(overall) > SEVERITY_RANK.get(impact)`, if both have a rank
unfoldable pub exceeds : Option ℕ → Option ℕ → Bool
exceeds (some overall) (some impact) = ltb impact overall
exceeds _ _ = false

unfoldable pub in_confirmed : List Text
unfolding lit
in_confirmed = lit "claimed_root_cause" ∷ lit "blockers" ∷ lit "validation_plan" ∷ lit "reason" ∷ []

unfoldable pub in_needs_validation : List Text
unfolding lit
in_needs_validation = lit "execution" ∷ lit "remediation" ∷ lit "reason" ∷ lit "root_cause" ∷ []

unfoldable pub in_rejected : List Text
unfolding lit
in_rejected =
    lit "severity"
    ∷ lit "execution"
    ∷ lit "remediation"
    ∷ lit "blockers"
    ∷ lit "validation_plan"
    ∷ lit "root_cause"
    ∷ []

-- `fingerprints.set`, in the `else`
unfoldable pub add_known : Option ℕ → Text → Fingerprints → List (Text × ℕ)
add_known (some i) s state = state.known
add_known none s state = (s, state.index) ∷ state.known

abbrev pub known_after : Text → Fingerprints → List (Text × ℕ)
known_after s state = add_known (index_of s state.known) s state

-- what an entry of the array does to the variables, with what it has as fingerprint
unfoldable pub remember_value : Fingerprints → Value → Fingerprints
unfolding add_known index_of
remember_value state (some (string s)) = record {
  known = known_after s state;
  previous = some s;
  index = state.index + 1;
}
remember_value state _ = record state { index = state.index + 1 }

unfoldable pub remember : Fingerprints → Json → Fingerprints
unfolding get lit remember_value
remember state finding = remember_value state (get (lit "fingerprint") finding)

module _ ⦃rt : Runtime⦄ where
  -- `hasVisibleProse`
  unfoldable pub has_visible_prose : Text → Bool
  unfolding has_valid_unicode_scalar_values
  has_visible_prose s = has_valid_unicode_scalar_values s && any is_visible (code_points s)

  -- `typeof value === "string" && hasVisibleProse(value)`
  unfoldable pub is_prose : Value → Bool
  unfolding has_visible_prose
  is_prose (some (string s)) = has_visible_prose s
  is_prose _ = false

  -- the block on the fingerprint
  unfoldable pub report_fingerprint : Fingerprints → Value → Text → Check
  unfolding ◌>>◌ index_of text_lt
  report_fingerprint state (some (string s)) base = do
    elim (index_of s state.known) [
      | some i ↦
          report
            (base ++ (lit ".fingerprint: duplicate of $[" ++ (decimal i ++ lit "].fingerprint")))
      | none ↦ pass
    ]
    elim state.previous [
      | some t ↦
          report_if (text_lt s t)
            (base ++ lit ".fingerprint: findings must be sorted lexicographically")
      | none ↦ pass
    ]
  report_fingerprint state _ base = pass

  -- the body of the loop over `trace` or `evidence`
  unfoldable pub report_entry : Text → ℕ → Json → Check
  unfolding ◌>>◌ is_safe_relative_source_path lit
  report_entry base i entry = do
    report_if (has_own (lit "line") entry && is_bad_line (get (lit "line") entry))
        (at_index base i ++ lit ".line: must be a positive integer")
    report_if
        (has_own (lit "file") entry && not (is_safe_relative_source_path (get (lit "file") entry)))
        (at_index base i ++ lit ".file: must be a safe repository-relative source path")

  -- `for (const field of ["trace", "evidence"])`
  unfoldable pub report_entries : Json → Text → Check
  unfolding report_entry ◌>>◌ lit
  report_entries finding base = do
    for_each (report_entry (at_field base (lit "trace"))) 0 (list_of (get (lit "trace") finding))
    for_each (report_entry (at_field base (lit "evidence"))) 0
        (list_of (get (lit "evidence") finding))

  -- the block on `code_changes`
  unfoldable pub report_change : Text → ℕ → Json → Check
  unfolding is_safe_relative_source_path lit
  report_change base i change =
      report_if
        (has_own (lit "file_name") change
          && not (is_safe_relative_source_path (get (lit "file_name") change)))
        (base
          ++ (lit ".remediation.code_changes["
              ++ (decimal i ++ lit "].file_name: must be a safe repository-relative source path")))

  unfoldable pub report_changes : Json → Text → Check
  unfolding report_change get_of lit
  report_changes finding base =
      for_each (report_change base) 0
        (list_of (get_of (lit "code_changes") (get (lit "remediation") finding)))

  -- one entry of a trace of several, whose kind should be `kind`
  unfoldable pub report_kind : Text → Text → ℕ → Json → Check
  unfolding lit
  report_kind kind base i entry =
      report_if (is_truthy_value entry && not (is_text kind (get (lit "kind") entry))) (
        base
        ++ (lit ".trace["
            ++ (decimal i
                ++ (lit "].kind: must be \""
                    ++ (kind ++ (lit "\", got " ++ safe_quote (get (lit "kind") entry)))))))

  -- the entries between the first and the last
  unfoldable pub report_middle : Text → ℕ → List Json → Check
  unfolding report_kind ◌>>◌ lit
  report_middle base i (entry ∷ next ∷ trace) = do
    report_kind (lit "propagation") base i entry
    report_middle base (i + 1) (next ∷ trace)
  report_middle base i _ = pass

  -- the last entry, of the rest of a trace
  unfoldable pub report_last : Text → ℕ → List Json → Check
  unfolding report_kind lit
  report_last base i [] = pass
  report_last base i (entry ∷ []) = report_kind (lit "sink") base i entry
  report_last base i (entry ∷ next ∷ trace) = report_last base (i + 1) (next ∷ trace)

  -- the blocks on the kinds in a trace
  unfoldable pub report_trace : List Json → Text → Check
  unfolding report_kind report_middle report_last ◌>>◌ lit
  report_trace [] base = pass
  report_trace (entry ∷ []) base =
      report_if
        (not (is_text (lit "entrypoint") (get (lit "kind") entry))
          && not (is_text (lit "sink") (get (lit "kind") entry)))
        (base ++ lit ".trace[0].kind: a one-line trace must be \"entrypoint\" or \"sink\"")
  report_trace (entry ∷ next ∷ trace) base = do
    report_kind (lit "entrypoint") base 0 entry
    report_last base 1 (next ∷ trace)
    report_middle base 1 (next ∷ trace)
