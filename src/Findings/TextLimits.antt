-- ===== src/Findings/TextLimits.antt =====
-- `enforceJsonTextLimits`: the scan of the raw text of the findings.
-- (dot_agents/skills/security-audit/validate-findings.cjs)
pub mod Printed
use dotfiles_ai.Base.{
  ℕ, suc, Bool, true, false, not, ◌||◌, List, [], ◌∷◌, ltb, leb, ◌==◌, within, if◌then◌else◌,
}
use dotfiles_ai.Base.Lists.{length}
use dotfiles_ai.Js.Text.{Text, lit}
use dotfiles_ai.Findings.DataLimits.{max_nesting, max_array_items}

-- An entry of `containers`; the innermost one stands first.
pub data Bracket : Type 0 where
  bracket : (expects_item : Bool) → (count : ℕ) → Bracket
  brace : Bracket

-- `inString` and `escaped`
pub data Quoting : Type 0 where
  outside : Quoting
  in_string : Quoting
  after_backslash : Quoting

pub record Scanner : Type 0 where
  pub containers : List Bracket
  pub quoting : Quoting

-- The message of the JsonStructureError, or a result.
pub data Limited {ℓ} (A : Type ℓ) : Type ℓ where
  throws : (message : Text) → Limited A
  passes : (value : A) → Limited A

abbrev pub then_scan {ℓ κ} : {A : Type ℓ} {B : Type κ} → (A → Limited B) → Limited A → Limited B
then_scan next (throws message) = throws message
then_scan next (passes a) = next a

-- `if (test) throw …`, and what follows it
unfoldable pub throw_if {ℓ} : {A : Type ℓ} → Bool → Text → A → Limited A
throw_if true message a = throws message
throw_if false message a = passes a

-- `markArrayItem`, on the containers
unfoldable pub mark_array_item : List Bracket → Limited (List Bracket)
unfolding throw_if lit
mark_array_item (bracket true count ∷ outer) =
    throw_if (ltb max_array_items (suc count)) (lit "input exceeds 1000 item array limit")
      (bracket false (suc count) ∷ outer)
mark_array_item containers = passes containers

-- `containers.push(…)` behind its test
unfoldable pub open_container : Bracket → List Bracket → Limited (List Bracket)
unfolding throw_if lit
open_container opened containers =
    throw_if (leb max_nesting (length containers))
      (lit "input exceeds 64 level nesting depth limit") (opened ∷ containers)

-- `containers.pop()`
abbrev pub pop_container : List Bracket → List Bracket
pop_container [] = []
pop_container (c ∷ containers) = containers

-- the branch on a comma
abbrev pub expect_item : List Bracket → List Bracket
expect_item (bracket expects count ∷ outer) = bracket true count ∷ outer
expect_item containers = containers

-- `/\s/`
unfoldable pub is_space : ℕ → Bool
is_space c =
    within 9 13 c
    || c == 0x20
    || c == 0xa0
    || c == 0x1680
    || within 0x2000 0x200a c
    || within 0x2028 0x2029 c
    || c == 0x202f
    || c == 0x205f
    || c == 0x3000
    || c == 0xfeff

-- a character outside a string
unfoldable pub scan_outside : ℕ → List Bracket → Limited (List Bracket)
unfolding mark_array_item open_container is_space
scan_outside c containers =
    if c == b'"'
    then mark_array_item containers
    else if c == b'['
    then then_scan (open_container (bracket true 0)) (mark_array_item containers)
    else if c == b'{'
    then then_scan (open_container brace) (mark_array_item containers)
    else if c == b']' || c == b'}'
    then passes (pop_container containers)
    else if c == b','
    then passes (expect_item containers)
    else if not (is_space c)
    then mark_array_item containers
    else passes containers

abbrev pub quoting_after : ℕ → Quoting
quoting_after c = if c == b'"' then in_string else outside

-- a round of the loop
unfoldable pub scan_character : ℕ → Scanner → Limited Scanner
unfolding scan_outside
scan_character c s = elim s.quoting [
  | after_backslash ↦ passes (record s { quoting = in_string })
  | in_string ↦ passes (record s {
    quoting = if c == b'\\' then after_backslash else if c == b'"' then outside else in_string;
  })
  | outside ↦
      then_scan
        (λ containers. passes (record { containers = containers; quoting = quoting_after c }))
        (scan_outside c s.containers)
]

unfoldable pub scan_characters : Text → Scanner → Limited Scanner
unfolding scan_character
scan_characters [] s = passes s
scan_characters (c ∷ text) s = then_scan (scan_characters text) (scan_character c s)

-- `enforceJsonTextLimits`
unfoldable pub enforce_json_text_limits : Text → Limited Scanner
unfolding scan_characters
enforce_json_text_limits text = scan_characters text (record { containers = []; quoting = outside })
