-- ===== src/Tests/Runs.antt =====
-- Runs of the ledger's validator.
use dotfiles_ai.Base.{◌≡◌, refl, some, none, [], ◌∷◌, ◌++◌, true}
use dotfiles_ai.Js.Runtime.{small_runtime}
use dotfiles_ai.Ledger.Scan.{Scan, fail, go, outside}
use dotfiles_ai.Ledger.Run.{stop}
use dotfiles_ai.Tests.Data.{
  planned_unit, two_units, two_units_swapped, unit_twice, refs_of, one_attempt, reassigned,
  sample_system,
}
use dotfiles_ai.Base.PrefixCode.{concat_map}
use dotfiles_ai.Js.Text.{
  lit, text_eq, text_lt, starts_with, contains, split, decimal, hex_digit, hex4, is_space, last_is,
  first_is, is_trimmed,
}
use dotfiles_ai.Js.Text.Points.{code_points, from_point, from_points}
use dotfiles_ai.Js.Number.{ltb_ℤ, eqb_ℤ, number_lt, number_eq, is_integer, is_finite, number_le}
use dotfiles_ai.Js.Json.{keys, get_field, get, has_own, is_text}
use dotfiles_ai.Js.Runtime.{is_white_space, is_unsafe, is_path_forbidden, is_visible}
use dotfiles_ai.Js.Utf8.{utf8_point, utf8}
use dotfiles_ai.Diagnostics.{
  hex_onto, escape_point, quote_point, quote, escape_points, escape, safe_quote, push,
}
use dotfiles_ai.Diagnostics.Reports.{
  ◌>>◌, for_each, for_each_with, at_index, at_field, report, report_if,
}
use dotfiles_ai.Ledger.Values.{
  has_valid_unicode_scalar_values, matches_agent_id, matches_fingerprint, is_reserved_agent_id,
  fold_case, is_reserved_component, is_safe_segment, is_safe_agent_id, owned_prefix,
  has_visible_prose, is_visible_text, is_canonical_ref, is_safe_path_text, is_safe_relative_path,
  is_owned_artifact_path,
}
use dotfiles_ai.Ledger.CoverageId.{
  ref_fields, lifecycle, expected_fields, is_unreserved, upper_hex, encode_byte, encode_text,
  join_colons, encode_canonical_ref, encode_fields, canonical_coverage_id,
}
use dotfiles_ai.Ledger.StringArray.{
  seen_has, seen_add, is_bad_fingerprint, is_valid_entry, validate_entry, validate_string_array,
}
use dotfiles_ai.Ledger.Arrays.{validate_list, require_fields}
use dotfiles_ai.Ledger.Evidence.{
  check_fields, add_string, add_strings, checked_paths, owned_paths, validate_artifact,
  validate_check_fields, validate_check, validate_checks, compare_paths, compare_values,
  validate_reviewed_path_ownership,
}
use dotfiles_ai.Ledger.State.{status_of, is_attempt_status, has_entries, validate_state_invariants}
use dotfiles_ai.Ledger.Attempts.{
  attempt_fields, has_value, is_wave, next_wave, wave_at_most, wave_reaches, add_artifact_value,
  add_artifact, add_artifacts, add_owner, next_prior, all_prior, validate_wave, validate_owner,
  validate_attempt_artifact, validate_attempt_fields, validate_attempt, validate_current_check,
  validate_current, validate_attempts,
}
use dotfiles_ai.Ledger.Blocks.{
  add_block_value, add_block, same_value, set_has, validate_block, validate_excluded_blocks,
  validate_not_selected, validate_selection,
}
use dotfiles_ai.Ledger.Unit.{
  required_fields, prior_statuses, validate_ref, validate_refs, is_other_id, validate_id,
  validate_texts, validate_blocks, validate_assignment, validate_evidence, validate_unit,
  collect_unit_errors,
}
use dotfiles_ai.Ledger.Preflight.{
  at_key, push_items, push_fields, item_limit, visit, walk, preflight_document,
}
use dotfiles_ai.Ledger.Document.{
  key_entry, join_commas, semantic_key, find, add_id, add_key, next_seen, skip, keys_differ, id_of,
  has_valid_semantic_fields, key_of, duplicate, taken, check_id, check_key, check_order,
  cross_check, check_units, check_ledger, validate_document,
}
use dotfiles_ai.Ledger.Scan.{
  fail_if, either, count_value, begin_value, begin_string, push_container, close_array,
  close_object, see_colon, see_comma, is_blank, is_delimiter, see, step, scan_text, finish,
  preflight_json_text,
}
use dotfiles_ai.Ledger.Run.{
  keep, round, read_all, decoded, decode_all, read_regular, read_opened, open_file, open_safely,
  read_file, finish_run, run_errors, run_parsed, run_scanned, run_contents, run,
}

abbrev pub sample_end : Scan
sample_end = record { containers = []; has_root = true; mode = outside; total = 6 }

-- A planned unit is accepted; so is an archive with one attempt, of an earlier wave and another
-- owner. References have their ID, and a text with six values passes the scan.
accepted_runs :
    (collect_unit_errors ⦃rt = small_runtime⦄ (planned_unit (lit "api")) 0 ≡ [])
    × (validate_attempts ⦃rt = small_runtime⦄ (some one_attempt) reassigned (lit "$[0]") [] ≡ [])
    × (canonical_coverage_id ⦃rt = small_runtime⦄ (some (refs_of (lit "api")))
        ≡ some (lit "api::b%3A1::core::dos"))
    × (preflight_json_text (lit "[{\"a\": " ++ lit "[1, -2.5e3]}, \"b\"]") ≡ go sample_end)
unfolding concat_map lit text_eq text_lt starts_with contains split decimal hex_digit hex4 is_space
    last_is first_is is_trimmed code_points from_point from_points ltb_ℤ eqb_ℤ number_lt number_eq
    is_integer is_finite number_le keys get_field get has_own is_text is_white_space is_unsafe
    is_path_forbidden is_visible utf8_point utf8 hex_onto escape_point quote_point quote
    escape_points escape safe_quote push ◌>>◌ for_each for_each_with at_index at_field report
    report_if has_valid_unicode_scalar_values matches_agent_id matches_fingerprint
    is_reserved_agent_id fold_case is_reserved_component is_safe_segment is_safe_agent_id
    owned_prefix has_visible_prose is_visible_text is_canonical_ref is_safe_path_text
    is_safe_relative_path is_owned_artifact_path ref_fields lifecycle expected_fields is_unreserved
    upper_hex encode_byte encode_text join_colons encode_canonical_ref encode_fields
    canonical_coverage_id seen_has seen_add is_bad_fingerprint is_valid_entry validate_entry
    validate_string_array validate_list require_fields check_fields add_string add_strings
    checked_paths owned_paths validate_artifact validate_check_fields validate_check validate_checks
    compare_paths compare_values validate_reviewed_path_ownership status_of is_attempt_status
    has_entries validate_state_invariants attempt_fields has_value is_wave next_wave wave_at_most
    wave_reaches add_artifact_value add_artifact add_artifacts add_owner next_prior all_prior
    validate_wave validate_owner validate_attempt_artifact validate_attempt_fields validate_attempt
    validate_current_check validate_current validate_attempts add_block_value add_block same_value
    set_has validate_block validate_excluded_blocks validate_not_selected validate_selection
    required_fields prior_statuses validate_ref validate_refs is_other_id validate_id validate_texts
    validate_blocks validate_assignment validate_evidence validate_unit collect_unit_errors at_key
    push_items push_fields item_limit visit walk preflight_document key_entry join_commas
    semantic_key find add_id add_key next_seen skip keys_differ id_of has_valid_semantic_fields
    key_of duplicate taken check_id check_key check_order cross_check check_units check_ledger
    validate_document fail_if either count_value begin_value begin_string push_container close_array
    close_object see_colon see_comma is_blank is_delimiter see step scan_text finish
    preflight_json_text keep round read_all decoded decode_all read_regular read_opened open_file
    open_safely read_file finish_run run_errors run_parsed run_scanned run_contents run
accepted_runs = (refl, refl, refl, refl)

pub planned_unit_run : collect_unit_errors ⦃rt = small_runtime⦄ (planned_unit (lit "api")) 0 ≡ []
planned_unit_run = accepted_runs.0

pub one_attempt_run :
    validate_attempts ⦃rt = small_runtime⦄ (some one_attempt) reassigned (lit "$[0]") [] ≡ []
one_attempt_run = accepted_runs.1

pub refs_run :
    canonical_coverage_id ⦃rt = small_runtime⦄ (some (refs_of (lit "api")))
    ≡ some (lit "api::b%3A1::core::dos")
refs_run = accepted_runs.2

pub scan_run : preflight_json_text (lit "[{\"a\": " ++ lit "[1, -2.5e3]}, \"b\"]") ≡ go sample_end
scan_run = accepted_runs.3

-- Two units in the order of their IDs, in the other order, and one unit twice; a comma before the
-- end of an array; the command on a file with the text `[]`, and without an argument.
reported_runs :
    (validate_document ⦃rt = small_runtime⦄ two_units ≡ some [])
    × (validate_document ⦃rt = small_runtime⦄ two_units_swapped
        ≡ some (lit "$[1].coverage_id: units must be sorted lexicographically" ∷ []))
    × (validate_document ⦃rt = small_runtime⦄ unit_twice
        ≡ some (lit "$[1].coverage_id: duplicate coverage ID at $[0]" ∷ []))
    × (preflight_json_text (lit "[1,]") ≡ fail (lit "input has malformed JSON array structure"))
    × (run ⦃rt = small_runtime⦄ sample_system (some (lit "ledger.json"))
        ≡ some (record { status = 0; lines = lit "PASS: 0 coverage units valid" ∷ [] }))
    × (run ⦃rt = small_runtime⦄ sample_system none
        ≡ stop (lit "Usage: node validate-coverage-ledger.cjs <path-to-coverage-ledger.json>"))
unfolding concat_map lit text_eq text_lt starts_with contains split decimal hex_digit hex4 is_space
    last_is first_is is_trimmed code_points from_point from_points ltb_ℤ eqb_ℤ number_lt number_eq
    is_integer is_finite number_le keys get_field get has_own is_text is_white_space is_unsafe
    is_path_forbidden is_visible utf8_point utf8 hex_onto escape_point quote_point quote
    escape_points escape safe_quote push ◌>>◌ for_each for_each_with at_index at_field report
    report_if has_valid_unicode_scalar_values matches_agent_id matches_fingerprint
    is_reserved_agent_id fold_case is_reserved_component is_safe_segment is_safe_agent_id
    owned_prefix has_visible_prose is_visible_text is_canonical_ref is_safe_path_text
    is_safe_relative_path is_owned_artifact_path ref_fields lifecycle expected_fields is_unreserved
    upper_hex encode_byte encode_text join_colons encode_canonical_ref encode_fields
    canonical_coverage_id seen_has seen_add is_bad_fingerprint is_valid_entry validate_entry
    validate_string_array validate_list require_fields check_fields add_string add_strings
    checked_paths owned_paths validate_artifact validate_check_fields validate_check validate_checks
    compare_paths compare_values validate_reviewed_path_ownership status_of is_attempt_status
    has_entries validate_state_invariants attempt_fields has_value is_wave next_wave wave_at_most
    wave_reaches add_artifact_value add_artifact add_artifacts add_owner next_prior all_prior
    validate_wave validate_owner validate_attempt_artifact validate_attempt_fields validate_attempt
    validate_current_check validate_current validate_attempts add_block_value add_block same_value
    set_has validate_block validate_excluded_blocks validate_not_selected validate_selection
    required_fields prior_statuses validate_ref validate_refs is_other_id validate_id validate_texts
    validate_blocks validate_assignment validate_evidence validate_unit collect_unit_errors at_key
    push_items push_fields item_limit visit walk preflight_document key_entry join_commas
    semantic_key find add_id add_key next_seen skip keys_differ id_of has_valid_semantic_fields
    key_of duplicate taken check_id check_key check_order cross_check check_units check_ledger
    validate_document fail_if either count_value begin_value begin_string push_container close_array
    close_object see_colon see_comma is_blank is_delimiter see step scan_text finish
    preflight_json_text keep round read_all decoded decode_all read_regular read_opened open_file
    open_safely read_file finish_run run_errors run_parsed run_scanned run_contents run
reported_runs = (refl, refl, refl, refl, refl, refl)
