-- ===== src/Findings/Validate.antt =====
-- `validate`, `collectUnchecked` and `collect`.
-- (dot_agents/skills/security-audit/validate-findings.cjs)
pub mod Valid
pub mod Branches
pub mod Parts
pub mod Correct
use dotfiles_ai.Base.{
  ℕ, zero, suc, ◌+◌, Bool, true, false, not, ◌&&◌, List, [], ◌∷◌, ◌++◌, Option, none, some,
  if◌then◌else◌,
}
use dotfiles_ai.Js.Text.{Text, lit, text_eq}
use dotfiles_ai.Js.Json.{
  Json, Items, Fields, null, boolean, number, string, array, object, nil, cons, end, field, items,
  get_field, is_some,
}
use dotfiles_ai.Js.Runtime.{Runtime}
use dotfiles_ai.Diagnostics.{Errors}
use dotfiles_ai.Diagnostics.Reports.{Check, pass, ◌>>◌, report}
use dotfiles_ai.Findings.Values.{type_of}
use dotfiles_ai.Findings.Schema.{Patterns}
use dotfiles_ai.Findings.Keywords.{
  Validator, unless_full, report_one_of, report_const, report_enum, report_required, report_fields,
  report_min_items, report_repeats, report_items, report_string, report_minimum, has_type,
  type_name, is_true, is_false,
}

module _ ⦃rt : Runtime⦄ where
  -- the blocks on objects, arrays, strings and numbers
  unfoldable pub report_parts :
      Patterns → Fields → (Text → Option Validator) → Option Validator → Validator
  unfolding ◌>>◌ lit get_field
  report_parts patterns fs find item (object gs) p = do
    report_required (get_field (lit "required") fs) (object gs) p
    report_fields find (is_false (get_field (lit "additionalProperties") fs)) gs p
  report_parts patterns fs find item (array vs) p = do
    report_min_items (get_field (lit "minItems") fs) (items vs) p
    if is_true (get_field (lit "uniqueItems") fs) then report_repeats [] 0 0 (items vs) p else pass
    report_items item (items vs) p
  report_parts patterns fs find item (string s) p = report_string patterns fs s p
  report_parts patterns fs find item (number n) p =
      report_minimum (get_field (lit "minimum") fs) n p
  report_parts patterns fs find item _ p = pass

  -- from the test on `type` on
  unfoldable pub report_type :
      Patterns → Fields → (Text → Option Validator) → Option Validator → Validator
  unfolding report_parts
  report_type patterns fs find item v p =
      if is_some (get_field (lit "type") fs) && not (has_type v (get_field (lit "type") fs))
      then report (
          p
          ++ (lit ": expected "
              ++ (type_name (get_field (lit "type") fs) ++ (lit ", got " ++ type_of (some v)))))
      else report_parts patterns fs find item v p

  -- the results of the branches of `oneOf`
  unfoldable pub run_branches : List Validator → Json → Text → List Errors
  run_branches [] v p = []
  run_branches (validator ∷ validators) v p = validator v p [] ∷ run_branches validators v p

  -- `schema.oneOf`, with the validators of its branches
  unfoldable pub report_branches : Option (List Json × List Validator) → Validator
  unfolding report_one_of run_branches
  report_branches none v p = pass
  report_branches (some (branches, validators)) v p =
      report_one_of branches (run_branches validators v p) v p

  unfoldable mutual
    unfolding ◌>>◌ lit text_eq get_field

    -- `validate`, from the schema on
    pub validate : Patterns → Json → Validator
    validate patterns (object fs) v p = unless_full (do
      report_branches (one_of patterns fs) v p
      report_const (get_field (lit "const") fs) v p
      report_enum (get_field (lit "enum") fs) v p
      report_type patterns fs (properties patterns fs) (items_of patterns fs) v p)
    validate patterns _ v p = pass

    -- the validators of the branches of `schema.oneOf`
    pub one_of : Patterns → Fields → Option (List Json × List Validator)
    one_of patterns end = none
    one_of patterns (field k s fs) =
        let here = branches_of patterns s in
        let rest = one_of patterns fs in if text_eq k (lit "oneOf") then here else rest

    pub branches_of : Patterns → Json → Option (List Json × List Validator)
    branches_of patterns (array vs) = some (items vs, each_branch patterns vs)
    branches_of patterns _ = none

    pub each_branch : Patterns → Items → List Validator
    each_branch patterns nil = []
    each_branch patterns (cons s vs) = (λ v p. validate patterns s v p) ∷ each_branch patterns vs

    -- the validator of `schema.properties[key]`
    pub properties : Patterns → Fields → Text → Option Validator
    properties patterns end key = none
    properties patterns (field k s fs) key =
        let here = property_of patterns s key in
        let rest = properties patterns fs key in if text_eq k (lit "properties") then here else rest

    pub property_of : Patterns → Json → Text → Option Validator
    property_of patterns (object fs) key = find_property patterns fs key
    property_of patterns _ key = none

    pub find_property : Patterns → Fields → Text → Option Validator
    find_property patterns end key = none
    find_property patterns (field k s fs) key =
        let rest = find_property patterns fs key in
        if text_eq k key then some (λ v p. validate patterns s v p) else rest

    -- the validator of `schema.items`
    pub items_of : Patterns → Fields → Option Validator
    items_of patterns end = none
    items_of patterns (field k s fs) =
        let rest = items_of patterns fs in
        if text_eq k (lit "items") then some (λ v p. validate patterns s v p) else rest

  -- `collectUnchecked`
  unfoldable pub collect_unchecked : Patterns → Json → Json → Text → Errors
  unfolding validate
  collect_unchecked patterns v schema p = validate patterns schema v p []
