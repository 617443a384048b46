-- ===== src/Ledger/Blocks.antt =====
-- `validateExcludedBlocks`, and the comparison of the excluded blocks with the selected ones.
-- (dot_agents/skills/security-audit/validate-coverage-ledger.cjs)
use dotfiles_ai.Base.{
  ℕ, ◌≡◌, refl, Bool, true, false, not, ◌||◌, List, [], ◌∷◌, ◌++◌, some, if◌then◌else◌,
}
use dotfiles_ai.Base.Lists.{All}
use dotfiles_ai.Js.Text.{Text, lit, text_eq}
use dotfiles_ai.Js.Number.{number_eq}
use dotfiles_ai.Js.Json.{
  Json, Fields, null, boolean, number, string, array, object, items, get, Value,
}
use dotfiles_ai.Js.Runtime.{Runtime}
use dotfiles_ai.Diagnostics.Reports.{
  Check, pass, ◌>>◌, report, report_if, for_each, for_each_with, at_index, at_field, AllFrom,
  Reports, Reports-report_if, Reports-report_unless, Reports-seq, Reports-map, Reports-pass,
  Reports-reject, Reports-for_each, Reports-for_each_with,
}
use dotfiles_ai.Ledger.Values.{is_visible_text}
use dotfiles_ai.Ledger.StringArray.{max_text_length}
use dotfiles_ai.Ledger.Arrays.{IsListOf, validate_list, validate_list-Reports}
use dotfiles_ai.Ledger.Attempts.{has_value}

-- `if (typeof entry.block === "string") seen.add(entry.block)`
unfoldable pub add_block_value : List Text → Value → List Text
add_block_value seen (some (string s)) = s ∷ seen
add_block_value seen _ = seen

unfoldable pub add_block : List Text → Json → List Text
unfolding add_block_value
add_block seen (object fs) = add_block_value seen (get (lit "block") (object fs))
add_block seen _ = seen

-- Equality of the values of a `Set`; two arrays or two objects are never one.
unfoldable pub same_value : Value → Json → Bool
same_value (some null) null = true
same_value (some (boolean a)) (boolean b) = if a then b else not b
same_value (some (number n)) (number m) = number_eq n m
same_value (some (string s)) (string t) = text_eq s t
same_value _ _ = false

-- `new Set(values).has(value)`
unfoldable pub set_has : List Json → Value → Bool
unfolding same_value
set_has [] v = false
set_has (w ∷ ws) v = same_value v w || set_has ws v

module _ ⦃rt : Runtime⦄ where
  -- the body of the loop
  unfoldable pub validate_block : Text → List Text → ℕ → Json → Check
  validate_block location seen index (object fs) = do
    report_if (not (is_visible_text (get (lit "block") (object fs)) max_text_length))
        (at_field (at_index location index) (lit "block") ++ lit ": invalid text")
    report_if (not (is_visible_text (get (lit "reason") (object fs)) max_text_length))
        (at_field (at_index location index) (lit "reason") ++ lit ": invalid text")
    report_if (has_value seen (get (lit "block") (object fs)))
        (at_field (at_index location index) (lit "block") ++ lit ": duplicate entry")
  validate_block location seen index _ = report (at_index location index ++ lit ": expected object")

  -- `validateExcludedBlocks`
  unfoldable pub validate_excluded_blocks : Value → Text → Check
  validate_excluded_blocks value location =
      validate_list (λ blocks. for_each_with (validate_block location) add_block [] 0 blocks) value
        location

  -- the body of the `forEach` over the excluded blocks
  unfoldable pub validate_not_selected : List Json → Text → ℕ → Json → Check
  validate_not_selected selected base index (object fs) =
      report_if (set_has selected (get (lit "block") (object fs))) (
        at_field (at_index (at_field base (lit "excluded_blocks")) index) (lit "block")
        ++ lit ": block is also selected")
  validate_not_selected selected base index _ = pass

  -- the statement on `selected_companion_blocks` and `excluded_blocks`
  unfoldable pub validate_selection : Value → Value → Text → Check
  validate_selection (some (array selected)) (some (array excluded)) base =
      for_each (validate_not_selected (items selected) base) 0 (items excluded)
  validate_selection _ _ base = pass

  -- An excluded block with a reason, of a name that no earlier one has.
  pub record IsBlock (seen : List Text) (entry : Json) : Type 0 where
    pub is_object : (fs : Fields) × (entry ≡ object fs)
    pub block : is_visible_text (get (lit "block") entry) max_text_length ≡ true
    pub reason : is_visible_text (get (lit "reason") entry) max_text_length ≡ true
    pub fresh : has_value seen (get (lit "block") entry) ≡ false

  validate_block-Reports :
      (location : Text) (seen : List Text) (i : ℕ) (entry : Json)
      → Reports (validate_block location seen i entry) (IsBlock seen entry)
  unfolding validate_block
  validate_block-Reports location seen i (object fs) =
      Reports-map
        (Reports-seq (Reports-report_unless _ _)
          (Reports-seq (Reports-report_unless _ _) (Reports-report_if _ _)))
        (λ h. record { is_object = (fs, refl); block = h.0; reason = h.1.0; fresh = h.1.1 })
        (λ h. (h.block, (h.reason, h.fresh)))
  validate_block-Reports location seen i _ = Reports-reject _ (λ h. let (fs, e) = h.is_object in cc)

  abbrev pub IsBlocks : List Json → Type 0
  IsBlocks blocks = AllFrom IsBlock add_block [] blocks

  pub validate_excluded_blocks-Reports :
      (v : Value) (location : Text)
      → Reports (validate_excluded_blocks v location) (IsListOf IsBlocks v)
  unfolding validate_excluded_blocks
  validate_excluded_blocks-Reports v location =
      validate_list-Reports _
        (λ blocks. Reports-for_each_with add_block (validate_block-Reports location) [] 0 blocks) v
        location

  abbrev pub NotSelected : List Json → Json → Type 0
  NotSelected selected (object fs) = set_has selected (get (lit "block") (object fs)) ≡ false
  NotSelected selected _ = Unit

  abbrev pub IsSelection : Value → Value → Type 0
  IsSelection (some (array selected)) (some (array excluded)) =
      All (NotSelected (items selected)) (items excluded)
  IsSelection _ _ = Unit

  validate_not_selected-Reports :
      (selected : List Json) (base : Text) (i : ℕ) (entry : Json)
      → Reports (validate_not_selected selected base i entry) (NotSelected selected entry)
  unfolding validate_not_selected
  validate_not_selected-Reports selected base i (object fs) = Reports-report_if _ _
  validate_not_selected-Reports selected base i _ = Reports-pass

  pub validate_selection-Reports :
      (selected excluded : Value) (base : Text)
      → Reports (validate_selection selected excluded base) (IsSelection selected excluded)
  unfolding validate_selection
  validate_selection-Reports (some (array selected)) (some (array excluded)) base =
      Reports-for_each (validate_not_selected-Reports (items selected) base) 0 (items excluded)
  validate_selection-Reports _ _ base = Reports-pass
