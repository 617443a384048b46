-- ===== src/Ledger/Document.antt =====
-- `semanticKey`, `hasValidSemanticFields` and `validateDocument`.
-- (dot_agents/skills/security-audit/validate-coverage-ledger.cjs)
pub mod Cross
pub mod Loop
pub mod Bounded
pub mod Correct
use dotfiles_ai.Base.{
  ℕ, suc, ◌+◌, Bool, true, false, not, ◌&&◌, ◌||◌, List, [], ◌∷◌, ◌++◌, map, Option, none, some,
  ltb, leb, if◌then◌else◌,
}
use dotfiles_ai.Base.Lists.{length, all}
use dotfiles_ai.Js.Text.{Text, lit, text_eq, text_lt, decimal}
use dotfiles_ai.Js.Json.{Json, Fields, string, object, array, items, get, has_own, Value}
use dotfiles_ai.Js.Runtime.{Runtime}
use dotfiles_ai.Diagnostics.{Errors, max_errors, quote, safe_quote, push}
use dotfiles_ai.Diagnostics.Reports.{Check, pass, ◌>>◌, report, report_if, at_index, at_field}
use dotfiles_ai.Ledger.Values.{is_visible_text}
use dotfiles_ai.Ledger.CoverageId.{ref_fields, lifecycle}
use dotfiles_ai.Ledger.StringArray.{max_text_length}
use dotfiles_ai.Ledger.Preflight.{max_units, preflight_document}
use dotfiles_ai.Ledger.Unit.{collect_unit_errors}

-- One entry of the array that `semanticKey` serializes. It is asked only of texts, and of a
-- lifecycle that is not there, for which the source writes `null`.
unfoldable pub key_entry : Value → Text
key_entry (some (string s)) = quote s
key_entry _ = lit "null"

unfoldable pub join_commas : List Text → Text
join_commas [] = []
join_commas (part ∷ []) = part
join_commas (part ∷ next ∷ parts) = part ++ (b',' ∷ join_commas (next ∷ parts))

-- `semanticKey`: `JSON.stringify` of the array of the five entries.
unfoldable pub semantic_key : Json → Text
unfolding key_entry join_commas
semantic_key unit =
    let entries = map (λ field. key_entry (get field unit)) (ref_fields ++ lifecycle ∷ []) in
    b'[' ∷ (join_commas entries ++ b']' ∷ [])

-- An entry of `ids`: the index of a unit and its semantic key, if it has one.
pub record IdEntry : Type 0 where
  pub index : ℕ
  pub key : Option Text

-- An entry of `semantics`.
pub record KeyEntry : Type 0 where
  pub id : Text
  pub index : ℕ

unfoldable pub find {ℓ} : {A : Type ℓ} → Text → List (Text × A) → Option A
find k [] = none
find k ((j, a) ∷ entries) = if text_eq j k then some a else find k entries

-- The variables of the loop.
pub record Seen : Type 0 where
  pub index : ℕ
  pub ids : List (Text × IdEntry)
  pub semantics : List (Text × KeyEntry)
  pub previous : Option Text

abbrev pub nothing_seen : Seen
nothing_seen = record { index = 0; ids = []; semantics = []; previous = none }

-- `if (ids.has(id)) … else ids.set(id, { index, key })`
unfoldable pub add_id : Seen → Text → Option Text → List (Text × IdEntry)
add_id seen id key = elim (find id seen.ids) [
  | some old ↦ seen.ids
  | none ↦ (id, record { index = seen.index; key = key }) ∷ seen.ids
]

-- whether the key stands in `semantics` under another ID
abbrev pub other_id : Text → Option KeyEntry → Bool
other_id id none = false
other_id id (some old) = not (text_eq old.id id)

-- `else if (key !== null) semantics.set(key, { id, index })`
unfoldable pub add_key : Seen → Text → Option Text → List (Text × KeyEntry)
add_key seen id none = seen.semantics
add_key seen id (some key) =
    if other_id id (find key seen.semantics)
    then seen.semantics
    else (key, record { id = id; index = seen.index }) ∷ seen.semantics

unfoldable pub next_seen : Seen → Text → Option Text → Seen
unfolding add_id add_key
next_seen seen id key = record {
  index = suc seen.index;
  ids = add_id seen id key;
  semantics = add_key seen id key;
  previous = some id;
}

-- `continue`: only the index moves on
unfoldable pub skip : Seen → Seen
skip seen = record seen { index = suc seen.index }

-- `key !== null && previous.key !== null && previous.key !== key`
unfoldable pub keys_differ : Option Text → Option Text → Bool
keys_differ (some k) (some j) = not (text_eq j k)
keys_differ _ _ = false

-- `isObject(unit) && typeof unit.coverage_id === "string"`; only an object has a field.
abbrev pub text_of : Value → Option Text
text_of (some (string s)) = some s
text_of _ = none

unfoldable pub id_of : Json → Option Text
id_of unit = text_of (get (lit "coverage_id") unit)

abbrev pub place : ℕ → Text
place i = at_index (lit "$") i

module _ ⦃rt : Runtime⦄ where
  -- `hasValidSemanticFields`
  unfoldable pub has_valid_semantic_fields : Json → Bool
  has_valid_semantic_fields unit =
      all (λ field. is_visible_text (get field unit) max_text_length) ref_fields
      && (not (has_own lifecycle unit) || is_visible_text (get lifecycle unit) max_text_length)

  -- `hasValidSemanticFields(unit) ? semanticKey(unit) : null`
  unfoldable pub key_of : Json → Option Text
  key_of unit = if has_valid_semantic_fields unit then some (semantic_key unit) else none

  -- the messages of the two maps
  unfoldable pub duplicate : Seen → Option Text → IdEntry → Text
  duplicate seen key old =
      at_field (place seen.index) (lit "coverage_id")
      ++ (lit ": "
          ++ ((if keys_differ key old.key
                then lit "canonical identity collision with different semantic fields"
                else lit "duplicate coverage ID")
              ++ (lit " at " ++ place old.index)))

  unfoldable pub taken : Seen → KeyEntry → Text
  taken seen old =
      at_field (place seen.index) (lit "canonical_refs")
      ++ (lit ": semantic tuple already uses coverage ID "
          ++ (safe_quote (some (string old.id)) ++ (lit " at " ++ place old.index)))

  -- the statement on `ids`
  unfoldable pub check_id : Seen → Text → Option Text → Check
  check_id seen id key = elim (find id seen.ids) [
    | none ↦ pass
    | some old ↦ report (duplicate seen key old)
  ]

  -- the statement on `semantics`
  unfoldable pub check_key : Seen → Text → Option Text → Check
  check_key seen id none = pass
  check_key seen id (some key) = elim (find key seen.semantics) [
    | none ↦ pass
    | some old ↦ report_if (not (text_eq old.id id)) (taken seen old)
  ]

  -- `previousId !== null && previousId > unit.coverage_id`
  abbrev pub out_of_order : Option Text → Text → Bool
  out_of_order none id = false
  out_of_order (some previous) id = text_lt id previous

  unfoldable pub check_order : Seen → Text → Check
  check_order seen id = report_if (out_of_order seen.previous id) (
      at_field (place seen.index) (lit "coverage_id")
      ++ lit ": units must be sorted lexicographically")

  unfoldable pub cross_check : Seen → Text → Option Text → Check
  cross_check seen id key = do check_id seen id key; check_key seen id key; check_order seen id

  -- The loop. Its condition and the `break` stop it at a full list of errors.
  unfoldable pub check_units : Seen → List Json → Check
  check_units seen [] errors = errors
  check_units seen (unit ∷ units) errors =
      if leb max_errors (length errors)
      then errors
      else (let after = push errors (collect_unit_errors unit seen.index) in
          if leb max_errors (length after) then after else elim (id_of unit) [
            | none ↦ check_units (skip seen) units after
            | some id ↦
                check_units (next_seen seen id (key_of unit)) units
                  (cross_check seen id (key_of unit) after)
          ])

  -- from `errors.push(...preflightDocument(ledger))` on
  unfoldable pub check_ledger : List Json → Errors → Errors
  check_ledger units preflight =
      let errors = push [] preflight in
      if ltb 0 (length errors) then errors else check_units nothing_seen units errors

  -- `validateDocument`; `none` would be a walk that ran out of fuel.
  unfoldable pub validate_document : Json → Option Errors
  validate_document (array vs) =
      if ltb max_units (length (items vs))
      then some (report (lit "$: exceeds 10000 coverage units") [])
      else elim (preflight_document (array vs)) [
        | none ↦ none
        | some errors ↦ some (check_ledger (items vs) errors)
      ]
  validate_document _ = some (report (lit "$: expected a top-level array") [])
