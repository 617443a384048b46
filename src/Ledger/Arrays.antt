-- ===== src/Ledger/Arrays.antt =====
-- The shape that several validators share: `expected array`, `exceeds 1000 entries`, then a loop
-- over the first 1000 entries; and the check for required fields.
-- (dot_agents/skills/security-audit/validate-coverage-ledger.cjs)
use dotfiles_ai.Base.{
  ◌≡◌, ◌≤◌, refl, sym, ap, ◌∙◌, true, not, List, [], ◌∷◌, ◌++◌, some, none, ltb, ltb-false_iff,
}
use dotfiles_ai.Base.Lists.{length, take, All, take-eq_of_le}
use dotfiles_ai.Js.Text.{Text, lit}
use dotfiles_ai.Js.Json.{Json, Items, nil, cons, string, array, items, from_items, has_own, Value}
use dotfiles_ai.Js.Runtime.{Runtime}
use dotfiles_ai.Diagnostics.{safe_quote}
use dotfiles_ai.Diagnostics.Reports.{
  Check, ◌>>◌, report, report_if, for_each, Reports, Reports-report_if, Reports-report_unless,
  Reports-seq, Reports-map, Reports-reject, Reports-for_each,
}
use dotfiles_ai.Ledger.StringArray.{max_list_items}

-- A list of at most 1000 entries of which `P` holds.
pub record IsListOf (P : List Json → Type 0) (v : Value) : Type 0 where
  pub elements : List Json
  pub is_array : v ≡ some (array (from_items elements))
  pub at_most : length elements ≤ max_list_items
  pub all : P elements

pub from_items-items : (vs : Items) → from_items (items vs) ≡ vs
from_items-items nil = refl
from_items-items (cons v vs) = ap (cons v) (from_items-items vs)

pub items-from_items : (vs : List Json) → items (from_items vs) ≡ vs
items-from_items [] = refl
items-from_items (v ∷ vs) = ap (λ ws. v ∷ ws) (items-from_items vs)

module _ ⦃rt : Runtime⦄ where
  unfoldable pub validate_list : (List Json → Check) → Value → Text → Check
  validate_list loop (some (array vs)) location = do
    report_if (ltb max_list_items (length (items vs))) (location ++ lit ": exceeds 1000 entries")
    loop (take max_list_items (items vs))
  validate_list loop _ location = report (location ++ lit ": expected array")

  pub validate_list-Reports :
      {P : List Json → Type 0} (loop : List Json → Check)
      → ((xs : List Json) → Reports (loop xs) (P xs))
      → (v : Value) (location : Text) → Reports (validate_list loop v location) (IsListOf P v)
  unfolding validate_list
  validate_list-Reports {P} loop r (some (array vs)) location =
      Reports-map (Reports-seq (Reports-report_if _ _) (r _))
        (λ h.
          let few : length (items vs) ≤ max_list_items = (ltb-false_iff _ _).0 h.0 in
          record {
            elements = items vs;
            is_array = ap (λ ws. some (array ws)) (sym (from_items-items vs));
            at_most = few;
            all = rw (take-eq_of_le max_list_items (items vs) few) at h.1;
          })
        (λ h.
          let is : vs ≡ from_items h.elements = cc in
          let same : items vs ≡ h.elements = ap items is ∙ items-from_items h.elements in
          (
            rw same ((ltb-false_iff _ _).1 h.at_most),
            rw (same, take-eq_of_le max_list_items h.elements h.at_most) h.all,
          ))
  validate_list-Reports loop r none location = Reports-reject _ (λ h. let e = h.is_array in cc)
  validate_list-Reports loop r (some _) location = Reports-reject _ (λ h. let e = h.is_array in cc)

  -- `for (const field of fields) if (!hasOwn(value, field)) errors.push(...)`
  unfoldable pub require_fields : List Text → Json → Text → Check
  require_fields fields v base =
      for_each
        (λ i field.
          report_if (not (has_own field v))
            (base ++ (lit ": missing required field " ++ safe_quote (some (string field)))))
        0 fields

  pub require_fields-Reports :
      (fields : List Text) (v : Json) (base : Text)
      → Reports (require_fields fields v base) (All (λ field. has_own field v ≡ true) fields)
  unfolding require_fields
  require_fields-Reports fields v base =
      Reports-for_each (λ i field. Reports-report_unless _ _) 0 fields
