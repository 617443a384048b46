-- ===== src/Tests/TextChecks.antt =====
-- The scan of the text of findings at one value.
use dotfiles_ai.Base.{◌≡◌, refl, [], ◌∷◌, some, none, if◌then◌else◌}
use dotfiles_ai.Findings.TextLimits.{enforce_json_text_limits}
use dotfiles_ai.Findings.TextLimits.Printed.{
  raw, escaped, Tree, word, items, fields, between, nil, cons, end, entry, is_word_char, is_layout,
  print, IsJson, fits,
}
use dotfiles_ai.Findings.TextLimits.Printed.Scanned.{kept, standing}
use dotfiles_ai.Findings.TextLimits.Printed.Correct.{kept-enforce_json_text_limits-print}

-- `[1, {"a\"": []}]`
abbrev small_tree : Tree
small_tree = items (
    cons (word b'1' []) (
      cons
        (between (b' ' ∷ [])
          (fields (
            entry [] (raw b'a' ∷ escaped b'"' ∷ []) [] (between (b' ' ∷ []) (items (nil [])) [])
              (end [])))
          [])
        (nil [])))

small_tree-IsJson : IsJson small_tree
unfolding IsJson is_word_char is_layout
small_tree-IsJson = (
  (refl, tt),
  (((refl, tt), ((tt, (((refl, refl), (tt, tt)), (tt, (((refl, tt), (tt, tt)), tt)))), tt)), tt),
)

kept-enforce_json_text_limits-print_example :
    kept (enforce_json_text_limits (print small_tree []))
    ≡ (if fits 0 small_tree then some (standing []) else none)
kept-enforce_json_text_limits-print_example =
    kept-enforce_json_text_limits-print small_tree small_tree-IsJson

small_text_run :
    print small_tree []
    ≡ b'[' ∷ b'1' ∷ b',' ∷ b' ' ∷ b'{' ∷ b'"' ∷ b'a' ∷ b'\\' ∷ b'"' ∷ b'"' ∷ b':' ∷ b' ' ∷ b'['
      ∷ b']' ∷ b'}' ∷ b']' ∷ []
unfolding print
small_text_run = refl
