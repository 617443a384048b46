-- ===== src/Tests/Witnesses.antt =====
-- Each result at one input where its conditions hold.
use mathlib.Core.Path.{subst}
use dotfiles_ai.Base.{
  false, ℕ, ◌≤◌, ◌≡◌, ◌≢◌, ◌↔◌, refl, List, [], ◌∷◌, ◌++◌, none, some, arith, Bool-cases, inl, inr,
  true, ltb,
}
use dotfiles_ai.Base.Lists.{length, all, All}
use dotfiles_ai.Js.Text.{Text, IsUtf16, lit, text_eq}
use dotfiles_ai.Js.Json.{
  Json, Fields, string, array, object, end, field, from_items, get, get_field,
}
use dotfiles_ai.Js.Runtime.{small_runtime, is_unsafe}
use dotfiles_ai.Diagnostics.{Errors, max_errors, escape}
use dotfiles_ai.Js.Text.Points.{code_points}
use dotfiles_ai.Diagnostics.Safety.{is_unsafe-escape}
use dotfiles_ai.Ledger.CoverageId.{ref_fields, lifecycle}
use dotfiles_ai.Ledger.CoverageId.Injective.{HasUtf16, canonical_coverage_id-injective}
use dotfiles_ai.Ledger.StringArray.{IsStringArray, some_paths, validate_string_array}
use dotfiles_ai.Ledger.StringArray.Correct.{validate_string_array_iff}
use dotfiles_ai.Ledger.Arrays.{IsListOf}
use dotfiles_ai.Ledger.Evidence.{validate_checks, validate_reviewed_path_ownership}
use dotfiles_ai.Ledger.Evidence.Correct.{IsCheck, validate_checks_iff}
use dotfiles_ai.Ledger.Evidence.Ownership.{OwnsPaths, validate_reviewed_path_ownership_iff}
use dotfiles_ai.Ledger.State.{Status, status_name, status_of, validate_state_invariants}
use dotfiles_ai.Ledger.State.Rules.{rule, Follows, StateOk, validate_state_invariants_iff}
use dotfiles_ai.Ledger.Attempts.{validate_attempts}
use dotfiles_ai.Ledger.Attempts.Archive.{FitTogether, validate_attempts_iff}
use dotfiles_ai.Ledger.Attempts.History.{History, validate_attempts-History}
use dotfiles_ai.Ledger.Unit.{collect_unit_errors}
use dotfiles_ai.Ledger.Unit.Correct.{IsUnit, collect_unit_errors_iff, collect_unit_errors-Follows}
use dotfiles_ai.Ledger.Preflight.{preflight_document}
use dotfiles_ai.Ledger.Preflight.Correct.{IsSmall, preflight_document_iff}
use dotfiles_ai.Ledger.Document.{validate_document}
use dotfiles_ai.Ledger.Document.Correct.{IsLedger, validate_document_iff}
use dotfiles_ai.Ledger.Document.Bounded.{length-validate_document}
use dotfiles_ai.Ledger.Run.{read_file, run}
use dotfiles_ai.Ledger.Run.Exit.{OfBytes, Passes, IsRead, read_file-OfBytes, run_iff}
use dotfiles_ai.Tests.Data.{
  sample_system, planned_unit, two_units, unit_twice, refs_of, one_attempt, blocked_attempt,
  local_check, one, text, reassigned,
}
use dotfiles_ai.Tests.Runs.{planned_unit_run, one_attempt_run, refs_run}

validate_document_iff_example :
    (validate_document ⦃rt = small_runtime⦄ two_units ≡ some [])
    ↔ IsLedger ⦃rt = small_runtime⦄ two_units
validate_document_iff_example = validate_document_iff ⦃rt = small_runtime⦄ two_units

length-validate_document_example :
    (errors : Errors) × (validate_document ⦃rt = small_runtime⦄ unit_twice ≡ some errors)
    × (length errors ≤ max_errors)
length-validate_document_example = length-validate_document ⦃rt = small_runtime⦄ unit_twice

collect_unit_errors_iff_example :
    (collect_unit_errors ⦃rt = small_runtime⦄ (planned_unit (lit "api")) 0 ≡ [])
    ↔ IsUnit ⦃rt = small_runtime⦄ (planned_unit (lit "api"))
collect_unit_errors_iff_example =
    collect_unit_errors_iff ⦃rt = small_runtime⦄ (planned_unit (lit "api")) 0

collect_unit_errors-Follows_example :
    (s : Status) × (get (lit "status") (planned_unit (lit "api")) ≡ some (string (status_name s)))
    × Follows (rule s) (planned_unit (lit "api"))
collect_unit_errors-Follows_example =
    collect_unit_errors-Follows ⦃rt = small_runtime⦄ (planned_unit (lit "api")) 0 planned_unit_run

all-IsUtf16 : (s : Text) → all (λ c. ltb c 0x10000) s ≡ true → IsUtf16 s
all-IsUtf16 [] h = tt
all-IsUtf16 (c ∷ s) h = (ground arith, all-IsUtf16 s (ground arith))

the_string : (s t : Text) → some (string s) ≡ some (string t) → s ≡ t
the_string s t h = cc

HasUtf16-end : HasUtf16 (object end)
unfolding get get_field
HasUtf16-end k s e = cc

HasUtf16-field :
    (k s : Text) (fs : Fields)
    → IsUtf16 s
    → HasUtf16 (object fs)
    → HasUtf16 (object (field k (string s) fs))
unfolding get get_field
HasUtf16-field k s fs u h j t e = elim (Bool-cases (text_eq k j)) [
  | inl same ↦ subst IsUtf16 (the_string s t (rw same at e)) u
  | inr other ↦ h j t (rw other at e)
]

refs_HasUtf16 : HasUtf16 (refs_of (lit "api"))
unfolding lit
refs_HasUtf16 = HasUtf16-field _ _ _ (all-IsUtf16 (lit "api") refl) (
    HasUtf16-field _ _ _ (all-IsUtf16 (lit "b:1") refl) (
      HasUtf16-field _ _ _ (all-IsUtf16 (lit "core") refl)
        (HasUtf16-field _ _ _ (all-IsUtf16 (lit "dos") refl) HasUtf16-end)))

canonical_coverage_id-injective_example :
    All
      (λ f. get f (refs_of (lit "api")) ≡ get f (refs_of (lit "api")))
      (ref_fields ++ lifecycle ∷ [])
canonical_coverage_id-injective_example =
    canonical_coverage_id-injective ⦃rt = small_runtime⦄ (refs_of (lit "api")) (refs_of (lit "api"))
      (lit "api::b%3A1::core::dos") refs_HasUtf16 refs_HasUtf16 refs_run refs_run

preflight_document_iff_example :
    (preflight_document ⦃rt = small_runtime⦄ two_units ≢ none)
    × ((preflight_document ⦃rt = small_runtime⦄ two_units ≡ some [])
        ↔ IsSmall ⦃rt = small_runtime⦄ two_units)
preflight_document_iff_example = preflight_document_iff ⦃rt = small_runtime⦄ two_units

validate_attempts-History_example :
    (attempts : List Json) × (some one_attempt ≡ some (array (from_items attempts)))
    × History ⦃rt = small_runtime⦄ reassigned attempts
validate_attempts-History_example =
    validate_attempts-History ⦃rt = small_runtime⦄ (some one_attempt) reassigned (lit "$[0]")
      one_attempt_run

validate_attempts_iff_example :
    (validate_attempts ⦃rt = small_runtime⦄ (some one_attempt) reassigned (lit "$[0]") [] ≡ [])
    ↔ IsListOf (FitTogether ⦃rt = small_runtime⦄ reassigned) (some one_attempt)
validate_attempts_iff_example =
    validate_attempts_iff ⦃rt = small_runtime⦄ (some one_attempt) reassigned (lit "$[0]")

validate_checks_iff_example :
    (validate_checks ⦃rt = small_runtime⦄ (some (one local_check)) (lit "$[0]") [] ≡ [])
    ↔ IsListOf (All (IsCheck ⦃rt = small_runtime⦄)) (some (one local_check))
validate_checks_iff_example =
    validate_checks_iff ⦃rt = small_runtime⦄ (some (one local_check)) (lit "$[0]")

validate_reviewed_path_ownership_iff_example :
    (validate_reviewed_path_ownership ⦃rt = small_runtime⦄ blocked_attempt (lit "$[0]") [] ≡ [])
    ↔ OwnsPaths ⦃rt = small_runtime⦄
        (get (lit "reviewed_paths") blocked_attempt)
        (get (lit "local_checks") blocked_attempt)
validate_reviewed_path_ownership_iff_example =
    validate_reviewed_path_ownership_iff ⦃rt = small_runtime⦄ blocked_attempt (lit "$[0]")

validate_state_invariants_iff_example :
    (validate_state_invariants ⦃rt = small_runtime⦄ blocked_attempt (lit "$[0]") [] ≡ [])
    ↔ StateOk (status_of (get (lit "status") blocked_attempt)) blocked_attempt
validate_state_invariants_iff_example =
    validate_state_invariants_iff ⦃rt = small_runtime⦄ blocked_attempt (lit "$[0]")

validate_string_array_iff_example :
    (validate_string_array ⦃rt = small_runtime⦄
        (some (one (text (lit "src/a.c"))))
        (lit "$")
        some_paths
        []
      ≡ [])
    ↔ IsStringArray ⦃rt = small_runtime⦄ some_paths (some (one (text (lit "src/a.c"))))
validate_string_array_iff_example =
    validate_string_array_iff ⦃rt = small_runtime⦄ (some (one (text (lit "src/a.c")))) (lit "$")
      some_paths

read_file-OfBytes_example : OfBytes sample_system (read_file sample_system (lit "ledger.json"))
read_file-OfBytes_example = read_file-OfBytes sample_system (lit "ledger.json")

run_iff_example : Passes (run ⦃rt = small_runtime⦄ sample_system (some (lit "ledger.json"))) ↔ (
    (c : ℕ) × (name : Text) × (some (lit "ledger.json") ≡ some (c ∷ name))
    × IsRead ⦃rt = small_runtime⦄ sample_system (read_file sample_system (c ∷ name)))
run_iff_example = run_iff ⦃rt = small_runtime⦄ sample_system (some (lit "ledger.json"))

is_unsafe-escape_example :
    All
      (λ c. is_unsafe ⦃rt = small_runtime⦄ c ≡ false)
      (code_points (escape ⦃rt = small_runtime⦄ (0x1b ∷ 0xd800 ∷ b'a' ∷ [])))
is_unsafe-escape_example =
    is_unsafe-escape ⦃rt = small_runtime⦄ (0x1b ∷ 0xd800 ∷ b'a' ∷ [])
      (omega arith, (omega arith, (omega arith, tt)))
