-- ===== src/Findings/TextLimits/Printed/Scanned.antt =====
-- `enforceJsonTextLimits` on the text of a value.
-- (dot_agents/skills/security-audit/validate-findings.cjs)
use mathlib.Core.Path.{subst}
use dotfiles_ai.Base.{
  ℕ, suc, ◌≡◌, refl, ap, sym, ◌∙◌, inl, inr, Bool, true, false, ◌&&◌, List, [], ◌∷◌, ◌++◌, Option,
  none, some, arith, ltb, leb, Bool-cases,
}
use dotfiles_ai.Base.Lists.{length, All}
use dotfiles_ai.Js.Text.{Text}
use dotfiles_ai.Findings.DataLimits.{max_nesting, max_array_items}
use dotfiles_ai.Findings.TextLimits.{
  Bracket, bracket, brace, Quoting, outside, in_string, Scanner, Limited, throws, passes, then_scan,
  throw_if, mark_array_item, open_container, is_space, quoting_after, scan_outside, scan_character,
  scan_characters, enforce_json_text_limits,
}
use dotfiles_ai.Findings.TextLimits.Printed.{
  Piece, raw, escaped, print_pieces, print_string, separate, is_word_char, is_layout, IsWord,
  AreBlanks, IsPiece,
}

-- The result, if nothing is thrown.
abbrev pub kept {ℓ} : {A : Type ℓ} → Limited A → Option A
kept (throws message) = none
kept (passes a) = some a

abbrev pub only : Bool → Option Scanner → Option Scanner
only true o = o
only false o = none

pub only-only : (a b : Bool) (o : Option Scanner) → only a (only b o) ≡ only (a && b) o
only-only true b o = refl
only-only false b o = refl

abbrev pub standing : List Bracket → Scanner
standing containers = record { containers = containers; quoting = outside }

abbrev quoting_at : List Bracket → Scanner
quoting_at containers = record { containers = containers; quoting = in_string }

unfoldable pub scan_from : Text → Scanner → Option Scanner
unfolding scan_characters
scan_from text s = kept (scan_characters text s)

-- Whether an item may begin, and the containers with it.
abbrev pub has_room : List Bracket → Bool
has_room (bracket true count ∷ outer) = ltb count 1000
has_room _ = true

abbrev pub marked : List Bracket → List Bracket
marked (bracket true count ∷ outer) = bracket false (suc count) ∷ outer
marked containers = containers

-- Nothing is thrown exactly if the test holds, and then these containers are left.
abbrev IsKept : Limited (List Bracket) → Bool → List Bracket → Type 0
IsKept (throws m) b after = b ≡ false
IsKept (passes containers) b after = (b ≡ true) × (containers ≡ after)

-- What `scan_outside` gives decides what follows.
abbrev Steps : ℕ → List Bracket → Bool → List Bracket → Type 0
Steps c containers b after =
    (text : Text)
    → scan_from (c ∷ text) (standing containers)
      ≡ only b (scan_from text (record { containers = after; quoting = quoting_after c }))

follow :
    (text : Text) (q : Quoting) (l : Limited (List Bracket)) (b : Bool) (after : List Bracket)
    → IsKept l b after
    → kept (
        then_scan
          (scan_characters text)
          (then_scan (λ containers. passes (record { containers = containers; quoting = q })) l))
      ≡ only b (kept (scan_characters text (record { containers = after; quoting = q })))
follow text q (throws m) b after h = rw h refl
follow text q (passes cs) b after h = rw (h.0, h.1) refl

IsKept-mark : (cs : List Bracket) → IsKept (mark_array_item cs) (has_room cs) (marked cs)
unfolding mark_array_item throw_if
IsKept-mark [] = (refl, refl)
IsKept-mark (brace ∷ outer) = (refl, refl)
IsKept-mark (bracket false count ∷ outer) = (refl, refl)
IsKept-mark (bracket true count ∷ outer) = elim (Bool-cases (ltb max_array_items (suc count))) [
  | inl full ↦ rw full (ground arith)
  | inr room ↦ rw room (ground arith, refl)
]

scan_from-step :
    (c : ℕ) (cs : List Bracket) (b : Bool) (after : List Bracket)
    → IsKept (scan_outside c cs) b after
    → Steps c cs b after
unfolding scan_from scan_characters scan_character
scan_from-step c cs b after h = λ text. follow text (quoting_after c) (scan_outside c cs) b after h

word-outside :
    (c : ℕ) (cs : List Bracket)
    → is_word_char c ≡ true
    → (scan_outside c cs ≡ mark_array_item cs) × (quoting_after c ≡ outside)
unfolding scan_outside is_word_char is_space
word-outside c cs h = (ground arith, ground arith)

layout-outside :
    (c : ℕ) (cs : List Bracket)
    → is_layout c ≡ true
    → (scan_outside c cs ≡ passes cs) × (quoting_after c ≡ outside)
unfolding scan_outside is_layout is_space
layout-outside c cs h = (ground arith, ground arith)

pub scan_from-word_char :
    (c : ℕ) (cs : List Bracket) (text : Text)
    → is_word_char c ≡ true
    → scan_from (c ∷ text) (standing cs)
      ≡ only (has_room cs) (scan_from text (standing (marked cs)))
scan_from-word_char c cs text h =
    let (same, q) = word-outside c cs h in
    scan_from-step c cs (has_room cs) (marked cs)
      (subst (λ l. IsKept l (has_room cs) (marked cs)) (sym same) (IsKept-mark cs)) text
    ∙ rw q refl

scan_from-blank :
    (c : ℕ) (cs : List Bracket) (text : Text)
    → is_layout c ≡ true
    → scan_from (c ∷ text) (standing cs) ≡ scan_from text (standing cs)
scan_from-blank c cs text h =
    let (same, q) = layout-outside c cs h in
    scan_from-step c cs true cs (subst (λ l. IsKept l true cs) (sym same) (refl, refl)) text
    ∙ rw q refl

pub scan_from-blanks :
    (s : Text) (cs : List Bracket) (text : Text)
    → AreBlanks s
    → scan_from (s ++ text) (standing cs) ≡ scan_from text (standing cs)
scan_from-blanks [] cs text h = refl
scan_from-blanks (c ∷ s) cs text h =
    scan_from-blank c cs (s ++ text) h.0 ∙ scan_from-blanks s cs text h.1

-- Where an item has begun, the rest of it makes no difference.
room-marked : (cs : List Bracket) → (has_room (marked cs) ≡ true) × (marked (marked cs) ≡ marked cs)
room-marked [] = (refl, refl)
room-marked (brace ∷ outer) = (refl, refl)
room-marked (bracket false count ∷ outer) = (refl, refl)
room-marked (bracket true count ∷ outer) = (refl, refl)

pub length-marked : (cs : List Bracket) → length (marked cs) ≡ length cs
length-marked [] = refl
length-marked (brace ∷ outer) = refl
length-marked (bracket false count ∷ outer) = refl
length-marked (bracket true count ∷ outer) = refl

pub scan_from-word :
    (s : Text) (cs : List Bracket) (text : Text)
    → IsWord s
    → scan_from (s ++ text) (standing (marked cs)) ≡ scan_from text (standing (marked cs))
scan_from-word [] cs text h = refl
scan_from-word (c ∷ s) cs text h =
    let (room, again) = room-marked cs in
    scan_from-word_char c (marked cs) (s ++ text) h.0
    ∙ rw (room, again) (scan_from-word s cs text h.1)

scan_from-pieces :
    (ps : List Piece) (cs : List Bracket) (text : Text)
    → All IsPiece ps
    → scan_from (print_pieces ps (b'"' ∷ text)) (quoting_at cs) ≡ scan_from text (standing cs)
unfolding scan_from scan_characters scan_character
scan_from-pieces [] cs text h = refl
scan_from-pieces (raw c ∷ ps) cs text h = rw (h.0.0, h.0.1) (scan_from-pieces ps cs text h.1)
scan_from-pieces (escaped c ∷ ps) cs text h = scan_from-pieces ps cs text h.1

scan_from-quote :
    (cs : List Bracket) (text : Text)
    → scan_from (b'"' ∷ text) (standing cs)
      ≡ only (has_room cs) (scan_from text (quoting_at (marked cs)))
unfolding scan_outside
scan_from-quote cs text = scan_from-step b'"' cs (has_room cs) (marked cs) (IsKept-mark cs) text

pub scan_from-string :
    (ps : List Piece) (cs : List Bracket) (text : Text)
    → All IsPiece ps
    → scan_from (print_string ps text) (standing cs)
      ≡ only (has_room cs) (scan_from text (standing (marked cs)))
scan_from-string ps cs text h =
    scan_from-quote cs (print_pieces ps (b'"' ∷ text))
    ∙ ap (only (has_room cs)) (scan_from-pieces ps (marked cs) text h)

IsKept-open :
    (opened : Bracket) (cs : List Bracket)
    → IsKept (open_container opened cs) (ltb (length cs) 64) (opened ∷ cs)
unfolding open_container throw_if
IsKept-open opened cs = elim (Bool-cases (leb max_nesting (length cs))) [
  | inl deep ↦ rw deep (ground arith)
  | inr shallow ↦ rw shallow (ground arith, refl)
]

IsKept-then :
    (opened : Bracket) (cs : List Bracket) (l : Limited (List Bracket)) (b : Bool)
    → IsKept l b (marked cs)
    → IsKept (then_scan (open_container opened) l) (b && ltb (length cs) 64) (opened ∷ marked cs)
IsKept-then opened cs (throws m) b h = rw h refl
IsKept-then opened cs (passes ds) b h =
    rw (h.0, h.1)
      (subst (λ n. IsKept (open_container opened (marked cs)) (ltb n 64) (opened ∷ marked cs))
        (length-marked cs) (IsKept-open opened (marked cs)))

pub scan_from-open_array :
    (cs : List Bracket) (text : Text)
    → scan_from (b'[' ∷ text) (standing cs)
      ≡ only
          (has_room cs && ltb (length cs) 64)
          (scan_from text (standing (bracket true 0 ∷ marked cs)))
unfolding scan_outside
scan_from-open_array cs text =
    scan_from-step b'[' cs _ _
      (IsKept-then (bracket true 0) cs (mark_array_item cs) (has_room cs) (IsKept-mark cs)) text

pub scan_from-open_object :
    (cs : List Bracket) (text : Text)
    → scan_from (b'{' ∷ text) (standing cs)
      ≡ only (has_room cs && ltb (length cs) 64) (scan_from text (standing (brace ∷ marked cs)))
unfolding scan_outside
scan_from-open_object cs text =
    scan_from-step b'{' cs _ _
      (IsKept-then brace cs (mark_array_item cs) (has_room cs) (IsKept-mark cs)) text

pub scan_from-close_array :
    (opened : Bracket) (cs : List Bracket) (text : Text)
    → scan_from (b']' ∷ text) (standing (opened ∷ cs)) ≡ scan_from text (standing cs)
unfolding scan_outside
scan_from-close_array opened cs text = scan_from-step b']' (opened ∷ cs) true cs (refl, refl) text

pub scan_from-close_object :
    (opened : Bracket) (cs : List Bracket) (text : Text)
    → scan_from (b'}' ∷ text) (standing (opened ∷ cs)) ≡ scan_from text (standing cs)
unfolding scan_outside
scan_from-close_object opened cs text = scan_from-step b'}' (opened ∷ cs) true cs (refl, refl) text

pub scan_from-separate_items :
    (first : Bool) (count : ℕ) (cs : List Bracket) (text : Text)
    → scan_from (separate first text) (standing (bracket first count ∷ cs))
      ≡ scan_from text (standing (bracket true count ∷ cs))
unfolding scan_outside
scan_from-separate_items true count cs text = refl
scan_from-separate_items false count cs text =
    scan_from-step b',' (bracket false count ∷ cs) true (bracket true count ∷ cs) (refl, refl) text

pub scan_from-separate_fields :
    (first : Bool) (cs : List Bracket) (text : Text)
    → scan_from (separate first text) (standing (brace ∷ cs))
      ≡ scan_from text (standing (brace ∷ cs))
unfolding scan_outside
scan_from-separate_fields true cs text = refl
scan_from-separate_fields false cs text =
    scan_from-step b',' (brace ∷ cs) true (brace ∷ cs) (refl, refl) text

pub scan_from-colon :
    (cs : List Bracket) (text : Text)
    → scan_from (b':' ∷ text) (standing (brace ∷ cs)) ≡ scan_from text (standing (brace ∷ cs))
unfolding scan_outside mark_array_item is_space
scan_from-colon cs text = scan_from-step b':' (brace ∷ cs) true (brace ∷ cs) (refl, refl) text

pub kept-enforce_json_text_limits :
    (text : Text) → kept (enforce_json_text_limits text) ≡ scan_from text (standing [])
unfolding enforce_json_text_limits scan_from
kept-enforce_json_text_limits text = refl

pub scan_from-nil : (s : Scanner) → scan_from [] s ≡ some s
unfolding scan_from scan_characters
scan_from-nil s = refl
