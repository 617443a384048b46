-- ===== src/Findings/Keywords.antt =====
-- The keywords of a schema as `validate` tests a value for them, and `findDiscriminator`; for schemas
-- that `collectSchemaErrors` accepts. On others the source may throw; a keyword whose value is of
-- another shape is passed over here.
-- (dot_agents/skills/security-audit/validate-findings.cjs)
use dotfiles_ai.Base.{
  ℕ, suc, ◌+◌, Bool, true, false, not, ◌&&◌, ◌||◌, List, [], ◌∷◌, ◌++◌, map, Option, none, some,
  ltb, leb, ◌==◌, if◌then◌else◌,
}
use dotfiles_ai.Base.Lists.{length, any}
use dotfiles_ai.Js.Text.{Text, lit, contains, decimal}
use dotfiles_ai.Js.Text.Points.{code_points}
use dotfiles_ai.Js.Number.{pos, Number, finite, number_lt, is_integer}
use dotfiles_ai.Js.Json.{
  Json, Fields, boolean, number, string, array, object, end, field, items, get, get_field, has_own,
  is_some, is_text, Value,
}
use dotfiles_ai.Js.Runtime.{Runtime, is_visible}
use dotfiles_ai.Diagnostics.{Errors, max_errors, push, quote, safe_quote}
use dotfiles_ai.Diagnostics.Reports.{Check, pass, ◌>>◌, for_each, at_index, report, report_if}
use dotfiles_ai.Ledger.Values.{has_valid_unicode_scalar_values}
use dotfiles_ai.Findings.Values.{
  type_of, deep_equal, code_point_length, property_path, canonical_key,
}
use dotfiles_ai.Findings.Schema.{Patterns}

-- `findDiscriminator`
unfoldable pub first_const : Fields → Option (Text × Json)
first_const end = none
first_const (field k v fs) =
    let rest = first_const fs in elim (get (lit "const") v) [ some c ↦ some (k, c) | none ↦ rest ]

unfoldable pub find_discriminator : Json → Option (Text × Json)
unfolding first_const
find_discriminator schema = elim (get (lit "properties") schema) [
  | some (object fs) ↦ first_const fs
  | _ ↦ none
]

-- `discriminator && hasOwn(value, discriminator.key) && deepEqual(…)`
unfoldable pub has_discriminator : Json → Option (Text × Json) → Bool
has_discriminator value none = false
has_discriminator value (some (k, c)) = elim (get k value) [
  | some v ↦ deep_equal v (some c)
  | none ↦ false
]

-- the results of the branches whose discriminator the value has
unfoldable pub matching_results : Json → List Json → List Errors → List Errors
unfolding has_discriminator find_discriminator
matching_results value (branch ∷ branches) (result ∷ results) =
    let rest = matching_results value branches results in
    if has_discriminator value (find_discriminator branch) then result ∷ rest else rest
matching_results value _ _ = []

-- `results[matchingDiscriminators[0].index]`, if it is the only one
abbrev pub only_result : List Errors → Errors
only_result (result ∷ []) = result
only_result _ = []

abbrev pub is_plain_object : Json → Bool
is_plain_object (object fs) = true
is_plain_object _ = false

-- the results without errors
unfoldable pub count_passing : List Errors → ℕ
count_passing [] = 0
count_passing ([] ∷ results) = suc (count_passing results)
count_passing ((m ∷ result) ∷ results) = count_passing results

abbrev pub is_integer_value : Json → Bool
is_integer_value (number n) = is_integer n
is_integer_value _ = false

-- the test on `type`, for a schema that has one
unfoldable pub has_type : Json → Value → Bool
unfolding lit type_of is_text
has_type v type =
    is_text (type_of (some v)) type || (is_text (lit "integer") type && is_integer_value v)

abbrev pub type_name : Value → Text
type_name (some (string s)) = s
type_name _ = []

abbrev pub natural_of : Value → ℕ
natural_of (some (number (finite (pos n) u))) = n
natural_of _ = 0

abbrev pub is_true : Value → Bool
is_true (some (boolean b)) = b
is_true _ = false

abbrev pub is_false : Value → Bool
is_false (some (boolean b)) = not b
is_false _ = false

abbrev pub max_set_bytes : ℕ
max_set_bytes = 5242880

abbrev pub entry_text : Json → Text
entry_text (string s) = s
entry_text _ = []

-- `join(", ")`
unfoldable pub join_comma : List Text → Text
join_comma [] = []
join_comma (s ∷ []) = s
join_comma (s ∷ t ∷ ss) = s ++ (lit ", " ++ join_comma (t ∷ ss))

-- a block under `if (!test)`
unfoldable pub unless : Bool → Check → Check
unless true c = pass
unless false c = c

-- The validator of a part of a schema: from a value and its path.
abbrev pub Validator : Type 0
Validator = Json → Text → Check

module _ ⦃rt : Runtime⦄ where
  -- `if (errors.length >= LIMITS.validationErrors) return;`
  unfoldable pub unless_full : Check → Check
  unless_full c errors = if leb max_errors (length errors) then errors else c errors

  -- `errors.push(...messages)`
  unfoldable pub report_all : List Text → Check
  report_all messages errors = push errors messages

  unfoldable pub report_one_of : List Json → List Errors → Json → Text → Check
  unfolding ◌>>◌ unless report_all count_passing matching_results
  report_one_of branches results v p = unless (count_passing results == 1) (do
    report (
        p
        ++ (lit ": must match exactly one schema in oneOf; matched "
            ++ decimal (count_passing results)))
    unless (not (count_passing results == 0 && is_plain_object v))
        (report_all (only_result (matching_results v branches results))))

  -- `const` and `enum`
  unfoldable pub report_const : Value → Json → Text → Check
  report_const none v p = pass
  report_const (some c) v p =
      report_if (not (deep_equal v (some c))) (
        p
        ++ (lit ": must equal " ++ (safe_quote (some c) ++ (lit ", got " ++ safe_quote (some v)))))

  unfoldable pub report_enum : Value → Json → Text → Check
  unfolding join_comma
  report_enum (some (array allowed)) v p =
      report_if (not (any (λ a. deep_equal v (some a)) (items allowed))) (
        p
        ++ (lit ": invalid value "
            ++ (safe_quote (some v)
                ++ (lit " (expected one of "
                    ++ (join_comma (map (λ a. safe_quote (some a)) (items allowed)) ++ lit ")")))))
  report_enum _ v p = pass

  unfoldable pub report_required : Value → Json → Text → Check
  report_required (some (array required)) v p =
      for_each
        (λ i req.
          report_if (not (has_own (entry_text req) v))
            (p ++ (lit ": missing required field " ++ safe_quote (some req))))
        0 (items required)
  report_required _ v p = pass

  -- The loop over the fields of an object. `find` gives the validator of the schema of a property.
  unfoldable pub report_fields : (Text → Option Validator) → Bool → Fields → Text → Check
  unfolding ◌>>◌
  report_fields find closed end p = pass
  report_fields find closed (field k v fs) p = do
    elim (find k) [
      | some validator ↦ validator v (property_path p k)
      | none ↦ report_if closed (p ++ (lit ": unexpected field " ++ safe_quote (some (string k))))
    ]
    report_fields find closed fs p

  unfoldable pub report_min_items : Value → List Json → Text → Check
  report_min_items none vs p = pass
  report_min_items (some least) vs p = report_if (ltb (length vs) (natural_of (some least))) (
      p
      ++ (lit ": must have at least "
          ++ (decimal (natural_of (some least)) ++ (lit " item(s), got " ++ decimal (length vs)))))

  -- The loop over the items under `uniqueItems`, with the set `seen` and its bytes.
  unfoldable pub report_repeats : List Text → ℕ → ℕ → List Json → Text → Check
  unfolding ◌>>◌
  report_repeats seen bytes i [] p = pass
  report_repeats seen bytes i (v ∷ vs) p =
      let skipped = report_repeats seen bytes (i + 1) vs p in
      elim (canonical_key v) [
        | none ↦ report (at_index p i ++ lit ": canonical key exceeds 1048576 byte limit")
        | some k ↦
            if contains k.key seen
            then report (p ++ (lit ": items must be unique; duplicate at index " ++ decimal i))
              >> skipped
            else if ltb max_set_bytes (bytes + k.bytes)
            then report (p ++ lit ": canonical uniqueness set exceeds 5242880 byte limit")
            else report_repeats (k.key ∷ seen) (bytes + k.bytes) (i + 1) vs p
      ]

  unfoldable pub report_items : Option Validator → List Json → Text → Check
  report_items none vs p = pass
  report_items (some validator) vs p = for_each (λ i v. validator v (at_index p i)) 0 vs

  unfoldable pub report_visible : Text → Text → Check
  report_visible s p =
      if not (has_valid_unicode_scalar_values s)
      then report (p ++ lit ": must contain only valid Unicode scalar values")
      else report_if (not (any is_visible (code_points s)))
          (p ++ lit ": must contain a visible character")

  unfoldable pub report_pattern : Patterns → Value → Text → Text → Check
  report_pattern patterns (some (string pattern)) s p =
      report_if (not (patterns.matches pattern s))
        (p ++ (lit ": must match pattern " ++ quote pattern))
  report_pattern patterns _ s p = pass

  unfoldable pub report_string : Patterns → Fields → Text → Text → Check
  unfolding ◌>>◌ get_field report_visible report_pattern
  report_string patterns fs s p = do
    report_if
        (is_some (get_field (lit "minLength") fs)
          && ltb (code_point_length s) (natural_of (get_field (lit "minLength") fs)))
        (p
          ++ (lit ": must have at least "
              ++ (decimal (natural_of (get_field (lit "minLength") fs)) ++ lit " character(s)")))
    if is_true (get_field (lit "visibleContent") fs) then report_visible s p else pass
    report_pattern patterns (get_field (lit "pattern") fs) s p

  unfoldable pub report_minimum : Value → Number → Text → Check
  report_minimum (some (number least)) n p = report_if (number_lt n least) (
      p
      ++ (lit ": must be at least "
          ++ (rt.number_text least ++ (lit ", got " ++ rt.number_text n))))
  report_minimum _ n p = pass
