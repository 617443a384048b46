-- ===== src/Findings/Validate/Correct.antt =====
-- `validate` and `collectUnchecked` decide validity.
-- (dot_agents/skills/security-audit/validate-findings.cjs)
use dotfiles_ai.Base.{◌≡◌, ◌↔◌, []}
use dotfiles_ai.Js.Text.{Text, lit, text_eq}
use dotfiles_ai.Js.Json.{
  Json, Items, Fields, null, boolean, number, string, array, object, nil, cons, end, field,
  get_field,
}
use dotfiles_ai.Js.Runtime.{Runtime}
use dotfiles_ai.Diagnostics.Reports.{Reports, Reports_iff, Reports-map, Reports-seq, Reports-pass}
use dotfiles_ai.Findings.Schema.{Patterns}
use dotfiles_ai.Findings.Schema.Accepted.{IsSchema}
use dotfiles_ai.Findings.Validate.{
  validate, one_of, branches_of, each_branch, properties, property_of, find_property, items_of,
  collect_unchecked,
}
use dotfiles_ai.Findings.Validate.Valid.{
  Valid, valid_branches, valid_branches_of, valid_each, valid_properties, valid_property_of,
  valid_find, valid_items,
}
use dotfiles_ai.Findings.Validate.Branches.{
  Decides, DecidesOption, DecidesEach, DecidesBranches, DecidesOption-if, DecidesBranches-if,
  Reports-unless_full, report_branches-Reports,
}
use dotfiles_ai.Findings.Validate.Parts.{
  report_const-Reports, report_enum-Reports, report_type-Reports,
}

module _ ⦃rt : Runtime⦄ (patterns : Patterns) where
  mutual
    unfolding validate Valid

    decides : (schema : Json) → Decides (validate patterns schema) (Valid patterns schema)
    decides (object fs) v p = Reports-unless_full (
        Reports-map
          (Reports-seq
            (Reports-seq
              (Reports-seq (report_branches-Reports _ _ (decides_branches fs) v p)
                (report_const-Reports (get_field (lit "const") fs) v p))
              (report_enum-Reports (get_field (lit "enum") fs) v p))
            (report_type-Reports patterns fs _ (valid_properties patterns fs) _
              (valid_items patterns fs) (decides_properties fs) (decides_items fs) v p))
          (λ h. (h.0.0.0, h.0.0.1, h.0.1, h.1.0, h.1.1)) (λ h. (((h.0, h.1), h.2), (h.3, h.4))))
    decides null v p = Reports-pass
    decides (boolean b) v p = Reports-pass
    decides (number n) v p = Reports-pass
    decides (string s) v p = Reports-pass
    decides (array vs) v p = Reports-pass

    decides_branches :
        (fs : Fields) → DecidesBranches (one_of patterns fs) (valid_branches patterns fs)
    decides_branches end = tt
    decides_branches (field k s fs) =
        DecidesBranches-if _ _ _ _ (text_eq k (lit "oneOf")) (decides_array s) (decides_branches fs)

    decides_array :
        (schema : Json)
        → DecidesBranches (branches_of patterns schema) (valid_branches_of patterns schema)
    decides_array (array vs) = decides_each vs
    decides_array null = tt
    decides_array (boolean b) = tt
    decides_array (number n) = tt
    decides_array (string s) = tt
    decides_array (object fs) = tt

    decides_each : (vs : Items) → DecidesEach (each_branch patterns vs) (valid_each patterns vs)
    decides_each nil = tt
    decides_each (cons s vs) = (λ v p. decides s v p, decides_each vs)

    decides_properties :
        (fs : Fields) (key : Text)
        → DecidesOption (properties patterns fs key) (valid_properties patterns fs key)
    decides_properties end key = tt
    decides_properties (field k s fs) key =
        DecidesOption-if _ _ _ _ (text_eq k (lit "properties")) (decides_property_of s key)
          (decides_properties fs key)

    decides_property_of :
        (schema : Json) (key : Text)
        → DecidesOption (property_of patterns schema key) (valid_property_of patterns schema key)
    decides_property_of (object fs) key = decides_find fs key
    decides_property_of null key = tt
    decides_property_of (boolean b) key = tt
    decides_property_of (number n) key = tt
    decides_property_of (string s) key = tt
    decides_property_of (array vs) key = tt

    decides_find :
        (fs : Fields) (key : Text)
        → DecidesOption (find_property patterns fs key) (valid_find patterns fs key)
    decides_find end key = tt
    decides_find (field k s fs) key =
        DecidesOption-if _ _ _ _ (text_eq k key) (λ v p. decides s v p) (decides_find fs key)

    decides_items : (fs : Fields) → DecidesOption (items_of patterns fs) (valid_items patterns fs)
    decides_items end = tt
    decides_items (field k s fs) =
        DecidesOption-if _ _ _ _ (text_eq k (lit "items")) (λ v p. decides s v p) (decides_items fs)

  pub validate-Reports :
      (schema v : Json) (p : Text)
      → Reports (validate patterns schema v p) (Valid patterns schema v)
  validate-Reports schema v p = decides schema v p

  pub unchecked-Valid :
      (v schema : Json) (p : Text)
      → (collect_unchecked patterns v schema p ≡ []) ↔ Valid patterns schema v
  unfolding collect_unchecked
  unchecked-Valid v schema p = Reports_iff (validate-Reports schema v p)

  -- For a schema that `collectSchemaErrors` accepts, `collectUnchecked` returns an empty list exactly
  -- for the values that are valid for the schema: the limit on the list of errors, the paths and the
  -- order of the tests make no difference.
  pub collect_unchecked_iff :
      (v schema : Json) (p : Text)
      → IsSchema patterns schema
      → (collect_unchecked patterns v schema p ≡ []) ↔ Valid patterns schema v
  collect_unchecked_iff v schema p accepted = unchecked-Valid v schema p
