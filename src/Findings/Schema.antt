-- ===== src/Findings/Schema.antt =====
-- `collectSchemaErrors`.
-- (dot_agents/skills/security-audit/validate-findings.cjs)
pub mod Accepted
pub mod Keywords
pub mod Correct
use dotfiles_ai.Base.{
  ℕ, suc, Bool, true, false, not, ◌&&◌, ◌||◌, List, [], ◌∷◌, ◌++◌, none, some, if◌then◌else◌,
}
use dotfiles_ai.Base.Lists.{any}
use dotfiles_ai.Js.Text.{Text, lit, text_eq, contains}
use dotfiles_ai.Js.Number.{number_lt, is_integer, is_finite, whole}
use dotfiles_ai.Js.Json.{
  Json, Items, Fields, boolean, number, string, array, object, nil, cons, end, field, items, keys,
  get, has_own, is_text, is_string, Value,
}
use dotfiles_ai.Js.Runtime.{Runtime}
use dotfiles_ai.Diagnostics.{Errors, safe_quote}
use dotfiles_ai.Diagnostics.Reports.{
  Check, pass, ◌>>◌, for_each, at_index, at_field, report, report_if,
}
use dotfiles_ai.Findings.Values.{property_path, canonical_key}

-- `new RegExp(source)`: whether it throws, and its `test`.
pub record Patterns : Type 0 where
  pub is_pattern : Text → Bool
  pub matches : Text → Text → Bool

-- `SUPPORTED_TYPES`
unfoldable pub supported_types : List Text
unfolding lit
supported_types =
    lit "object"
    ∷ lit "array"
    ∷ lit "string"
    ∷ lit "integer"
    ∷ lit "number"
    ∷ lit "boolean"
    ∷ lit "null"
    ∷ []

-- `SUPPORTED_KEYWORDS`
unfoldable pub supported_keywords : List Text
unfolding lit
supported_keywords =
    lit "$comment"
    ∷ lit "additionalProperties"
    ∷ lit "const"
    ∷ lit "description"
    ∷ lit "enum"
    ∷ lit "items"
    ∷ lit "minimum"
    ∷ lit "minItems"
    ∷ lit "minLength"
    ∷ lit "oneOf"
    ∷ lit "pattern"
    ∷ lit "properties"
    ∷ lit "required"
    ∷ lit "type"
    ∷ lit "uniqueItems"
    ∷ lit "visibleContent"
    ∷ []

abbrev pub is_boolean : Value → Bool
is_boolean (some (boolean b)) = true
is_boolean _ = false

unfoldable pub is_supported_type : Value → Bool
unfolding contains
is_supported_type (some (string s)) = contains s supported_types
is_supported_type _ = false

-- whether a text stands in the list twice
unfoldable pub has_repeat : List Text → List Json → Bool
unfolding contains
has_repeat seen [] = false
has_repeat seen (string s ∷ vs) = contains s seen || has_repeat (s ∷ seen) vs
has_repeat seen (_ ∷ vs) = has_repeat seen vs

abbrev pub is_natural : Value → Bool
is_natural (some (number n)) = is_integer n && not (number_lt n (whole 0))
is_natural _ = false

abbrev pub is_finite_number : Value → Bool
is_finite_number (some (number n)) = is_finite n
is_finite_number _ = false

module _ ⦃rt : Runtime⦄ where
  -- the first loop
  unfoldable pub check_keywords : Fields → Text → Check
  check_keywords fs p =
      for_each
        (λ i key.
          report_if (not (contains key supported_keywords))
            (p ++ (lit ": unsupported schema keyword " ++ safe_quote (some (string key)))))
        0 (keys fs)

  -- `hasOwn(node, name) && typeof node[name] !== "string"`
  unfoldable pub check_text_field : Text → Json → Text → Check
  check_text_field name node p =
      report_if (has_own name node && not (is_string (get name node)))
        (at_field p name ++ lit ": expected string")

  unfoldable pub check_boolean_field : Text → Text → Json → Text → Check
  check_boolean_field name message node p =
      report_if (has_own name node && not (is_boolean (get name node))) (at_field p name ++ message)

  unfoldable pub check_type : Json → Text → Check
  check_type node p =
      report_if (has_own (lit "type") node && not (is_supported_type (get (lit "type") node))) (
        at_field p (lit "type")
        ++ (lit ": unsupported type " ++ safe_quote (get (lit "type") node)))

  -- the block on `required`
  unfoldable pub check_required : Value → Text → Check
  check_required none p = pass
  check_required (some (array vs)) p =
      if any (λ v. not (is_string (some v))) (items vs)
      then report (at_field p (lit "required") ++ lit ": expected an array of strings")
      else report_if (has_repeat [] (items vs))
          (at_field p (lit "required") ++ lit ": entries must be unique")
  check_required (some _) p =
      report (at_field p (lit "required") ++ lit ": expected an array of strings")

  -- the loop over `enum`, after the keys `seen`
  unfoldable pub check_enum_values : List Text → List Json → Text → Check
  check_enum_values seen [] p = pass
  check_enum_values seen (v ∷ vs) p = elim (canonical_key v) [
    | none ↦ report (at_field p (lit "enum") ++ lit ": canonical key exceeds 1048576 byte limit")
    | some k ↦
        if contains k.key seen
        then report (at_field p (lit "enum") ++ lit ": entries must be unique")
        else check_enum_values (k.key ∷ seen) vs p
  ]

  unfoldable pub check_enum : Value → Text → Check
  check_enum none p = pass
  check_enum (some (array nil)) p =
      report (at_field p (lit "enum") ++ lit ": expected a non-empty array")
  check_enum (some (array (cons v vs))) p = check_enum_values [] (v ∷ items vs) p
  check_enum (some _) p = report (at_field p (lit "enum") ++ lit ": expected a non-empty array")

  -- `minItems` and `minLength`
  unfoldable pub check_count : Text → Json → Text → Check
  check_count name node p =
      report_if (has_own name node && not (is_natural (get name node)))
        (at_field p name ++ lit ": expected a non-negative integer")

  unfoldable pub check_minimum : Json → Text → Check
  check_minimum node p =
      report_if (has_own (lit "minimum") node && not (is_finite_number (get (lit "minimum") node)))
        (at_field p (lit "minimum") ++ lit ": expected a finite number")

  unfoldable pub check_pattern : Patterns → Value → Text → Check
  check_pattern patterns none p = pass
  check_pattern patterns (some (string s)) p =
      report_if (not (patterns.is_pattern s))
        (at_field p (lit "pattern") ++ lit ": invalid regular expression")
  check_pattern patterns (some _) p = report (at_field p (lit "pattern") ++ lit ": expected string")

  unfoldable pub check_visible_content : Json → Text → Check
  check_visible_content node p = elim (get (lit "visibleContent") node) [
    | none ↦ pass
    | some (boolean b) ↦
        report_if (b && not (is_text (lit "string") (get (lit "type") node)))
          (at_field p (lit "visibleContent") ++ lit ": requires type \"string\"")
    | some _ ↦ report (at_field p (lit "visibleContent") ++ lit ": expected boolean")
  ]

  unfoldable mutual
    unfolding ◌>>◌ text_eq lit at_field

    -- `check`
    pub check_node : Patterns → Json → Text → Check
    check_node patterns (object fs) p = do
      check_keywords fs p
      check_text_field (lit "$comment") (object fs) p
      check_text_field (lit "description") (object fs) p
      check_type (object fs) p
      check_properties patterns fs p
      check_required (get (lit "required") (object fs)) p
      check_boolean_field (lit "additionalProperties") (lit ": only boolean values are supported")
          (object fs) p
      check_enum (get (lit "enum") (object fs)) p
      check_items patterns fs p
      check_count (lit "minItems") (object fs) p
      check_count (lit "minLength") (object fs) p
      check_minimum (object fs) p
      check_pattern patterns (get (lit "pattern") (object fs)) p
      check_boolean_field (lit "uniqueItems") (lit ": expected boolean") (object fs) p
      check_visible_content (object fs) p
      check_one_of patterns fs p
    check_node patterns _ p = report (p ++ lit ": schema must be an object")

    -- the block on `properties`: the field is looked for, and its own fields are checked
    pub check_properties : Patterns → Fields → Text → Check
    check_properties patterns end p = pass
    check_properties patterns (field k v fs) p =
        let here = check_property_map patterns v (at_field p (lit "properties")) in
        let rest = check_properties patterns fs p in
        if text_eq k (lit "properties") then here else rest

    pub check_property_map : Patterns → Json → Text → Check
    check_property_map patterns (object fs) p = check_each_property patterns fs p
    check_property_map patterns _ p = report (p ++ lit ": expected object")

    pub check_each_property : Patterns → Fields → Text → Check
    check_each_property patterns end p = pass
    check_each_property patterns (field k v fs) p = do
      check_node patterns v (property_path p k)
      check_each_property patterns fs p

    -- the block on `items`
    pub check_items : Patterns → Fields → Text → Check
    check_items patterns end p = pass
    check_items patterns (field k v fs) p =
        let here = check_node patterns v (at_field p (lit "items")) in
        let rest = check_items patterns fs p in if text_eq k (lit "items") then here else rest

    -- the block on `oneOf`
    pub check_one_of : Patterns → Fields → Text → Check
    check_one_of patterns end p = pass
    check_one_of patterns (field k v fs) p =
        let here = check_branches patterns v (at_field p (lit "oneOf")) in
        let rest = check_one_of patterns fs p in if text_eq k (lit "oneOf") then here else rest

    pub check_branches : Patterns → Json → Text → Check
    check_branches patterns (array nil) p = report (p ++ lit ": expected a non-empty array")
    check_branches patterns (array (cons v vs)) p = do
      check_node patterns v (at_index p 0)
      check_each_branch patterns vs 1 p
    check_branches patterns _ p = report (p ++ lit ": expected a non-empty array")

    pub check_each_branch : Patterns → Items → ℕ → Text → Check
    check_each_branch patterns nil i p = pass
    check_each_branch patterns (cons v vs) i p = do
      check_node patterns v (at_index p i)
      check_each_branch patterns vs (suc i) p

  -- `collectSchemaErrors`
  unfoldable pub collect_schema_errors : Patterns → Json → Errors
  unfolding check_node
  collect_schema_errors patterns schema = check_node patterns schema (lit "schema") []
