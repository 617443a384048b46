-- ===== src/Findings/Schema/Correct.antt =====
-- `collectSchemaErrors` decides what a schema is.
-- (dot_agents/skills/security-audit/validate-findings.cjs)
use dotfiles_ai.Base.{ℕ, suc, ◌≡◌, ◌↔◌, true, []}
use dotfiles_ai.Base.Lists.{All}
use dotfiles_ai.Js.Text.{Text, lit, text_eq, contains}
use dotfiles_ai.Js.Json.{
  Json, Items, Fields, null, boolean, number, string, array, object, nil, cons, end, field, keys,
  get, is_string,
}
use dotfiles_ai.Js.Runtime.{Runtime}
use dotfiles_ai.Diagnostics.Reports.{
  Reports, Reports_iff, Reports-map, Reports-seq, Reports-pass, Reports-report, Reports-if,
  at_field, at_index,
}
use dotfiles_ai.Findings.Values.{property_path}
use dotfiles_ai.Findings.Schema.{
  Patterns, supported_keywords, is_boolean, is_supported_type, is_natural, is_finite_number,
  check_text_field, check_boolean_field, check_type, check_count, check_minimum, check_node,
  check_properties, check_property_map, check_each_property, check_items, check_one_of,
  check_branches, check_each_branch, collect_schema_errors,
}
use dotfiles_ai.Findings.Schema.Accepted.{
  Has, IsRequired, IsPatternText, IsVisibleFlag, IsEnum, IsSchema, HasProperties, AreProperties,
  EachIsSchema, HasItems, HasOneOf, AreBranches, BranchesAreSchemas,
}
use dotfiles_ai.Findings.Schema.Keywords.{
  check_keywords-Reports, check_required-Reports, check_enum-Reports, check_pattern-Reports,
  check_visible_content-Reports, check_field-Reports,
}

module _ ⦃rt : Runtime⦄ (patterns : Patterns) where
  -- What a node needs, in the order of the source.
  abbrev InOrder : Fields → Type 0
  InOrder fs =
      (All (λ key. contains key supported_keywords ≡ true) (keys fs))
      × ((Has (lit "$comment") (object fs) is_string)
          × ((Has (lit "description") (object fs) is_string)
              × ((Has (lit "type") (object fs) is_supported_type)
                  × ((HasProperties patterns fs)
                      × ((IsRequired (get (lit "required") (object fs)))
                          × ((Has (lit "additionalProperties") (object fs) is_boolean)
                              × ((IsEnum (get (lit "enum") (object fs)))
                                  × ((HasItems patterns fs)
                                      × ((Has (lit "minItems") (object fs) is_natural)
                                          × ((Has (lit "minLength") (object fs) is_natural)
                                              × ((Has (lit "minimum") (object fs) is_finite_number)
                                                  × ((IsPatternText patterns
                                                        (get (lit "pattern") (object fs)))
                                                      × ((Has (lit "uniqueItems") (object fs)
                                                            is_boolean)
                                                          × ((IsVisibleFlag
                                                            (get (lit "visibleContent") (object fs))
                                                            (get (lit "type") (object fs)))
                                                            × (HasOneOf patterns fs)))))))))))))))

  InOrder-IsSchema : (fs : Fields) → InOrder fs ↔ IsSchema patterns (object fs)
  unfolding IsSchema
  InOrder-IsSchema fs = (
    λ (
      known,
      (
        comment,
        (
          description,
          (
            type,
            (
              properties,
              (
                required,
                (
                  additional,
                  (
                    enum,
                    (
                      item,
                      (
                        min_items,
                        (min_length, (minimum, (pattern_text, (unique, (visible, one_of))))),
                      ),
                    ),
                  ),
                ),
              ),
            ),
          ),
        ),
      ),
    ).
        (
          record {
            known = known;
            comment = comment;
            description = description;
            type = type;
            required = required;
            additional = additional;
            enum = enum;
            min_items = min_items;
            min_length = min_length;
            minimum = minimum;
            pattern_text = pattern_text;
            unique = unique;
            visible = visible;
          },
          properties,
          item,
          one_of,
        ),
    λ (k, properties, item, one_of). (
      k.known,
      (
        k.comment,
        (
          k.description,
          (
            k.type,
            (
              properties,
              (
                k.required,
                (
                  k.additional,
                  (
                    k.enum,
                    (
                      item,
                      (
                        k.min_items,
                        (
                          k.min_length,
                          (k.minimum, (k.pattern_text, (k.unique, (k.visible, one_of)))),
                        ),
                      ),
                    ),
                  ),
                ),
              ),
            ),
          ),
        ),
      ),
    ),
  )

  mutual
    unfolding check_node IsSchema check_text_field check_boolean_field check_type check_count
        check_minimum

    check_node-Reports :
        (node : Json) (p : Text) → Reports (check_node patterns node p) (IsSchema patterns node)
    check_node-Reports (object fs) p =
        Reports-map
          (Reports-seq (check_keywords-Reports fs p) (
            Reports-seq (check_field-Reports (lit "$comment") (object fs) is_string _) (
              Reports-seq (check_field-Reports (lit "description") (object fs) is_string _) (
                Reports-seq (check_field-Reports (lit "type") (object fs) is_supported_type _) (
                  Reports-seq (check_properties-Reports fs p) (
                    Reports-seq (check_required-Reports (get (lit "required") (object fs)) p) (
                      Reports-seq
                        (check_field-Reports (lit "additionalProperties") (object fs) is_boolean _)
                        (Reports-seq (check_enum-Reports (get (lit "enum") (object fs)) p) (
                          Reports-seq (check_items-Reports fs p) (
                            Reports-seq
                              (check_field-Reports (lit "minItems") (object fs) is_natural _)
                              (Reports-seq
                                (check_field-Reports (lit "minLength") (object fs) is_natural _)
                                (Reports-seq
                                  (check_field-Reports (lit "minimum") (object fs) is_finite_number
                                    _)
                                  (Reports-seq
                                    (check_pattern-Reports patterns
                                      (get (lit "pattern") (object fs)) p)
                                    (Reports-seq
                                      (check_field-Reports (lit "uniqueItems") (object fs)
                                        is_boolean _)
                                      (Reports-seq (check_visible_content-Reports (object fs) p)
                                        (check_one_of-Reports fs p))))))))))))))))
          (InOrder-IsSchema fs).0 (InOrder-IsSchema fs).1
    check_node-Reports null p = Reports-report _
    check_node-Reports (boolean b) p = Reports-report _
    check_node-Reports (number n) p = Reports-report _
    check_node-Reports (string s) p = Reports-report _
    check_node-Reports (array vs) p = Reports-report _

    check_properties-Reports :
        (fs : Fields) (p : Text)
        → Reports (check_properties patterns fs p) (HasProperties patterns fs)
    check_properties-Reports end p = Reports-pass
    check_properties-Reports (field k v fs) p =
        Reports-if (text_eq k (lit "properties"))
          (check_property_map-Reports v (at_field p (lit "properties")))
          (check_properties-Reports fs p)

    check_property_map-Reports :
        (v : Json) (p : Text) → Reports (check_property_map patterns v p) (AreProperties patterns v)
    check_property_map-Reports (object fs) p = check_each_property-Reports fs p
    check_property_map-Reports null p = Reports-report _
    check_property_map-Reports (boolean b) p = Reports-report _
    check_property_map-Reports (number n) p = Reports-report _
    check_property_map-Reports (string s) p = Reports-report _
    check_property_map-Reports (array vs) p = Reports-report _

    check_each_property-Reports :
        (fs : Fields) (p : Text)
        → Reports (check_each_property patterns fs p) (EachIsSchema patterns fs)
    check_each_property-Reports end p = Reports-pass
    check_each_property-Reports (field k v fs) p =
        Reports-seq (check_node-Reports v (property_path p k)) (check_each_property-Reports fs p)

    check_items-Reports :
        (fs : Fields) (p : Text) → Reports (check_items patterns fs p) (HasItems patterns fs)
    check_items-Reports end p = Reports-pass
    check_items-Reports (field k v fs) p =
        Reports-if (text_eq k (lit "items")) (check_node-Reports v (at_field p (lit "items")))
          (check_items-Reports fs p)

    check_one_of-Reports :
        (fs : Fields) (p : Text) → Reports (check_one_of patterns fs p) (HasOneOf patterns fs)
    check_one_of-Reports end p = Reports-pass
    check_one_of-Reports (field k v fs) p =
        Reports-if (text_eq k (lit "oneOf")) (check_branches-Reports v (at_field p (lit "oneOf")))
          (check_one_of-Reports fs p)

    check_branches-Reports :
        (v : Json) (p : Text) → Reports (check_branches patterns v p) (AreBranches patterns v)
    check_branches-Reports (array nil) p = Reports-report _
    check_branches-Reports (array (cons v vs)) p =
        Reports-seq (check_node-Reports v (at_index p 0)) (check_each_branch-Reports vs 1 p)
    check_branches-Reports null p = Reports-report _
    check_branches-Reports (boolean b) p = Reports-report _
    check_branches-Reports (number n) p = Reports-report _
    check_branches-Reports (string s) p = Reports-report _
    check_branches-Reports (object fs) p = Reports-report _

    check_each_branch-Reports :
        (vs : Items) (i : ℕ) (p : Text)
        → Reports (check_each_branch patterns vs i p) (BranchesAreSchemas patterns vs)
    check_each_branch-Reports nil i p = Reports-pass
    check_each_branch-Reports (cons v vs) i p =
        Reports-seq (check_node-Reports v (at_index p i)) (check_each_branch-Reports vs (suc i) p)

  pub check_node_lem :
      (schema : Json)
      → Reports (check_node patterns schema (lit "schema")) (IsSchema patterns schema)
  check_node_lem schema = check_node-Reports schema (lit "schema")

  -- `collectSchemaErrors` returns an empty list exactly for the values that are schemas: objects
  -- with known keywords of the right shapes, whose properties, items and branches are schemas.
  pub collect_schema_errors_iff :
      (schema : Json) → (collect_schema_errors patterns schema ≡ []) ↔ IsSchema patterns schema
  unfolding collect_schema_errors
  collect_schema_errors_iff schema = Reports_iff (check_node_lem schema)
