-- ===== src/Tests/SampleRuns.antt =====
-- Runs of the validator of findings and of the environment check.
use dotfiles_ai.Base.{◌≡◌, refl, some, none, [], ◌∷◌, ◌++◌, true}
use dotfiles_ai.Js.Runtime.{small_runtime}
use dotfiles_ai.Findings.TextLimits.{Scanner, passes, outside}
use dotfiles_ai.Tests.Samples.{
  literal_patterns, report_schema, two_findings, two_findings_swapped, odd_finding, number_of,
  sample_world, world_after,
}
use dotfiles_ai.Js.Text.{
  lit, text_eq, text_lt, starts_with, contains, split, decimal, hex_digit, hex4, is_space, last_is,
  first_is, is_trimmed,
}
use dotfiles_ai.Js.Text.Points.{code_points, from_point, from_points}
use dotfiles_ai.Js.Number.{ltb_ℤ, eqb_ℤ, number_lt, number_eq, is_integer, is_finite, number_le}
use dotfiles_ai.Js.Json.{keys, get_field, get, has_own, is_text}
use dotfiles_ai.Js.Runtime.{is_white_space, is_unsafe, is_path_forbidden, is_visible}
use dotfiles_ai.Js.Utf8.{utf8_point, utf8}
use dotfiles_ai.Js.Strings.{
  drop_while, drop_end, trim, includes, ends_with, keep_only, before, replace_all, slice_to, is_set,
  or_else, is_digit,
}
use dotfiles_ai.Diagnostics.{
  hex_onto, escape_point, quote_point, quote, escape_points, escape, safe_quote, push,
}
use dotfiles_ai.Diagnostics.Reports.{
  ◌>>◌, for_each, for_each_with, at_index, at_field, report, report_if,
}
use dotfiles_ai.Ledger.Values.{
  has_valid_unicode_scalar_values, matches_agent_id, matches_fingerprint, is_reserved_agent_id,
  fold_case, is_reserved_component, is_safe_segment, is_safe_agent_id, owned_prefix,
  has_visible_prose, is_visible_text, is_canonical_ref, is_safe_path_text, is_safe_relative_path,
  is_owned_artifact_path,
}
use dotfiles_ai.Findings.Values.{
  type_of, code_point_length, is_plain_name, insert_field, join_fields, append_all, property_path,
  canonical_key, is_safe_path, is_safe_relative_source_path, deep_equal, deep_equal_items,
  deep_equal_fields, chunks_of, chunks_of_items, sorted_fields,
}
use dotfiles_ai.Findings.Schema.{
  supported_types, supported_keywords, is_supported_type, has_repeat, check_keywords,
  check_text_field, check_boolean_field, check_type, check_required, check_enum_values, check_enum,
  check_count, check_minimum, check_pattern, check_visible_content, collect_schema_errors,
  check_node, check_properties, check_property_map, check_each_property, check_items, check_one_of,
  check_branches, check_each_branch,
}
use dotfiles_ai.Findings.Keywords.{
  first_const, find_discriminator, has_discriminator, matching_results, count_passing, has_type,
  join_comma, unless, unless_full, report_all, report_one_of, report_const, report_enum,
  report_required, report_fields, report_min_items, report_repeats, report_items, report_visible,
  report_pattern, report_string, report_minimum,
}
use dotfiles_ai.Findings.Validate.{
  report_parts, report_type, run_branches, report_branches, collect_unchecked, validate, one_of,
  branches_of, each_branch, properties, property_of, find_property, items_of,
}
use dotfiles_ai.Findings.Semantic.{
  get_of, index_of, is_truthy_value, severity_rank, exceeds, in_confirmed, in_needs_validation,
  in_rejected, add_known, remember_value, remember, is_prose, report_fingerprint, report_entry,
  report_entries, report_change, report_changes, report_kind, report_middle, report_last,
  report_trace,
}
use dotfiles_ai.Findings.Verdict.{
  report_forbidden, report_confirmed, report_needs_validation, report_verdict, report_finding,
  collect_finding_semantic_errors,
}
use dotfiles_ai.Findings.DataLimits.{
  push_child, push_array, push_object, visit_value, walk_values, root_depth,
  collect_data_limit_errors,
}
use dotfiles_ai.Findings.TextLimits.{
  throw_if, mark_array_item, open_container, scan_outside, scan_character, scan_characters,
  enforce_json_text_limits,
}
use dotfiles_ai.Findings.Document.{
  join_lines, add_semantic, validate_limited, validate_checked, validate_findings, collect_limited,
  collect, checked_schema, load_schema, finish_findings, finish_validated, run_findings,
  run_limited, run_read, run_with_schema, run_validator,
}
use dotfiles_ai.Environment.Versions.{
  take_digits, dotted_digits, semver_at, find_semvers, match_semver, is_semver, compare_parts,
  prev_latest_of, prev_flag_of, known_latest, parse_version, compare_versions, version_lt, best_of,
  latest_of, decide, decide_suggest_upgrade,
}
use dotfiles_ai.Environment.Host.{
  is_token_char, lookup, terminals, agent_aliases, sanitize_token, askpass_value, askpass_values,
  askpass_path_contains, askpass_looks_like_stock_vscode, terminal_of, canonical_terminal_name,
  fallback_terminal_name, host_terminal_name, fold_agent_name, is_copilot_vscode_plugin_alias,
  detect_host_client, canonical_agent_name, is_junie_path, detect_later_harness, detect_harness,
}
use dotfiles_ai.Environment.UserAgent.{
  split_lines, second_word, version_value, find_version, skill_version, jf_version,
  agent_ua_min_cli_version, named_harness, is_fallback, final_harness, carries_client, meta_of,
  build_user_agent,
}
use dotfiles_ai.Environment.Check.{
  min_cli_version, resolve_in, read_cache, is_truthy, ttl_of, is_younger, is_cache_fresh,
  cached_version, parse_args, user_agent, run_fresh, fetch_latest, new_state, run_refresh,
  run_stale, main, run_script, has_text_version,
}
use dotfiles_ai.Tests.Samples.{digits_from}

abbrev pub end_of_scan : Scanner
end_of_scan = record { containers = []; quoting = outside }

-- Two findings in the order of their fingerprints, and in the other order; a finding with a short
-- fingerprint and an unknown verdict.
findings_runs :
    (validate_findings ⦃rt = small_runtime⦄ literal_patterns two_findings report_schema ≡ some [])
    × (validate_findings ⦃rt = small_runtime⦄ literal_patterns two_findings_swapped report_schema
        ≡ some (lit "$[1].fingerprint: findings must be sorted lexicographically" ∷ []))
    × (validate_findings ⦃rt = small_runtime⦄ literal_patterns odd_finding report_schema
        ≡ some (
            lit "$[0].fingerprint: must have at least 2 character(s)"
            ∷ lit "$[0].verdict: must match exactly one schema in oneOf; matched 0"
            ∷ []))
    × (enforce_json_text_limits (lit "[1, {\"a[\": " ++ lit "[]}]") ≡ passes end_of_scan)
    × (collect_schema_errors ⦃rt = small_runtime⦄ literal_patterns report_schema ≡ [])
unfolding lit text_eq text_lt starts_with contains split decimal hex_digit hex4 is_space last_is
    first_is is_trimmed code_points from_point from_points ltb_ℤ eqb_ℤ number_lt number_eq
    is_integer is_finite number_le keys get_field get has_own is_text is_white_space is_unsafe
    is_path_forbidden is_visible utf8_point utf8 drop_while drop_end trim includes ends_with
    keep_only before replace_all slice_to is_set or_else is_digit hex_onto escape_point quote_point
    quote escape_points escape safe_quote push ◌>>◌ for_each for_each_with at_index at_field report
    report_if has_valid_unicode_scalar_values matches_agent_id matches_fingerprint
    is_reserved_agent_id fold_case is_reserved_component is_safe_segment is_safe_agent_id
    owned_prefix has_visible_prose is_visible_text is_canonical_ref is_safe_path_text
    is_safe_relative_path is_owned_artifact_path type_of code_point_length is_plain_name
    insert_field join_fields append_all property_path canonical_key is_safe_path
    is_safe_relative_source_path deep_equal deep_equal_items deep_equal_fields chunks_of
    chunks_of_items sorted_fields supported_types supported_keywords is_supported_type has_repeat
    check_keywords check_text_field check_boolean_field check_type check_required check_enum_values
    check_enum check_count check_minimum check_pattern check_visible_content collect_schema_errors
    check_node check_properties check_property_map check_each_property check_items check_one_of
    check_branches check_each_branch first_const find_discriminator has_discriminator
    matching_results count_passing has_type join_comma unless unless_full report_all report_one_of
    report_const report_enum report_required report_fields report_min_items report_repeats
    report_items report_visible report_pattern report_string report_minimum report_parts report_type
    run_branches report_branches collect_unchecked validate one_of branches_of each_branch
    properties property_of find_property items_of get_of index_of is_truthy_value severity_rank
    exceeds in_confirmed in_needs_validation in_rejected add_known remember_value remember is_prose
    report_fingerprint report_entry report_entries report_change report_changes report_kind
    report_middle report_last report_trace report_forbidden report_confirmed report_needs_validation
    report_verdict report_finding collect_finding_semantic_errors push_child push_array push_object
    visit_value walk_values root_depth collect_data_limit_errors throw_if mark_array_item
    open_container scan_outside scan_character scan_characters enforce_json_text_limits join_lines
    add_semantic validate_limited validate_checked validate_findings collect_limited collect
    checked_schema load_schema finish_findings finish_validated run_findings run_limited run_read
    run_with_schema run_validator take_digits dotted_digits semver_at find_semvers match_semver
    is_semver compare_parts prev_latest_of prev_flag_of known_latest parse_version compare_versions
    version_lt best_of latest_of decide decide_suggest_upgrade is_token_char lookup terminals
    agent_aliases sanitize_token askpass_value askpass_values askpass_path_contains
    askpass_looks_like_stock_vscode terminal_of canonical_terminal_name fallback_terminal_name
    host_terminal_name fold_agent_name is_copilot_vscode_plugin_alias detect_host_client
    canonical_agent_name is_junie_path detect_later_harness detect_harness split_lines second_word
    version_value find_version skill_version jf_version agent_ua_min_cli_version named_harness
    is_fallback final_harness carries_client meta_of build_user_agent min_cli_version resolve_in
    read_cache is_truthy ttl_of is_younger is_cache_fresh cached_version parse_args user_agent
    run_fresh fetch_latest new_state run_refresh run_stale main run_script has_text_version
    digits_from
findings_runs = (refl, refl, refl, refl, refl)

pub text_run : enforce_json_text_limits (lit "[1, {\"a[\": " ++ lit "[]}]") ≡ passes end_of_scan
text_run = findings_runs.3

pub schema_run : collect_schema_errors ⦃rt = small_runtime⦄ literal_patterns report_schema ≡ []
schema_run = findings_runs.4

-- A run without a cache finds the program, asks it, and offers the later version; versions that the
-- witnesses name.
environment_runs :
    ((main sample_world world_after (lit "opus" ∷ [])).status ≡ 1)
    × ((main sample_world world_after (lit "opus" ∷ [])).stdout
        ≡ lit
            "jfrog-skills/1.2.0 (trigger=skill; tool=claude; client=iterm; model=opus) jfrog-cli-go/2.119.0"
          ∷ [])
    × (version_lt number_of (lit "2.9.0") (lit "2.10.0") ≡ true)
    × ((decide_suggest_upgrade number_of (lit "2.119.0") (lit "2.120.0") none).suggest ≡ true)
    × (has_text_version (read_cache sample_world) ≡ true)
unfolding lit text_eq text_lt starts_with contains split decimal hex_digit hex4 is_space last_is
    first_is is_trimmed code_points from_point from_points ltb_ℤ eqb_ℤ number_lt number_eq
    is_integer is_finite number_le keys get_field get has_own is_text is_white_space is_unsafe
    is_path_forbidden is_visible utf8_point utf8 drop_while drop_end trim includes ends_with
    keep_only before replace_all slice_to is_set or_else is_digit hex_onto escape_point quote_point
    quote escape_points escape safe_quote push ◌>>◌ for_each for_each_with at_index at_field report
    report_if has_valid_unicode_scalar_values matches_agent_id matches_fingerprint
    is_reserved_agent_id fold_case is_reserved_component is_safe_segment is_safe_agent_id
    owned_prefix has_visible_prose is_visible_text is_canonical_ref is_safe_path_text
    is_safe_relative_path is_owned_artifact_path type_of code_point_length is_plain_name
    insert_field join_fields append_all property_path canonical_key is_safe_path
    is_safe_relative_source_path deep_equal deep_equal_items deep_equal_fields chunks_of
    chunks_of_items sorted_fields supported_types supported_keywords is_supported_type has_repeat
    check_keywords check_text_field check_boolean_field check_type check_required check_enum_values
    check_enum check_count check_minimum check_pattern check_visible_content collect_schema_errors
    check_node check_properties check_property_map check_each_property check_items check_one_of
    check_branches check_each_branch first_const find_discriminator has_discriminator
    matching_results count_passing has_type join_comma unless unless_full report_all report_one_of
    report_const report_enum report_required report_fields report_min_items report_repeats
    report_items report_visible report_pattern report_string report_minimum report_parts report_type
    run_branches report_branches collect_unchecked validate one_of branches_of each_branch
    properties property_of find_property items_of get_of index_of is_truthy_value severity_rank
    exceeds in_confirmed in_needs_validation in_rejected add_known remember_value remember is_prose
    report_fingerprint report_entry report_entries report_change report_changes report_kind
    report_middle report_last report_trace report_forbidden report_confirmed report_needs_validation
    report_verdict report_finding collect_finding_semantic_errors push_child push_array push_object
    visit_value walk_values root_depth collect_data_limit_errors throw_if mark_array_item
    open_container scan_outside scan_character scan_characters enforce_json_text_limits join_lines
    add_semantic validate_limited validate_checked validate_findings collect_limited collect
    checked_schema load_schema finish_findings finish_validated run_findings run_limited run_read
    run_with_schema run_validator take_digits dotted_digits semver_at find_semvers match_semver
    is_semver compare_parts prev_latest_of prev_flag_of known_latest parse_version compare_versions
    version_lt best_of latest_of decide decide_suggest_upgrade is_token_char lookup terminals
    agent_aliases sanitize_token askpass_value askpass_values askpass_path_contains
    askpass_looks_like_stock_vscode terminal_of canonical_terminal_name fallback_terminal_name
    host_terminal_name fold_agent_name is_copilot_vscode_plugin_alias detect_host_client
    canonical_agent_name is_junie_path detect_later_harness detect_harness split_lines second_word
    version_value find_version skill_version jf_version agent_ua_min_cli_version named_harness
    is_fallback final_harness carries_client meta_of build_user_agent min_cli_version resolve_in
    read_cache is_truthy ttl_of is_younger is_cache_fresh cached_version parse_args user_agent
    run_fresh fetch_latest new_state run_refresh run_stale main run_script has_text_version
    digits_from
environment_runs = (refl, refl, refl, refl, refl)

pub cache_run : has_text_version (read_cache sample_world) ≡ true
cache_run = environment_runs.4
