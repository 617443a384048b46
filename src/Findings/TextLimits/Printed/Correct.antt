-- ===== src/Findings/TextLimits/Printed/Correct.antt =====
-- `enforceJsonTextLimits` decides the limits on the values whose text it scans.
-- (dot_agents/skills/security-audit/validate-findings.cjs)
use dotfiles_ai.Base.{
  ℕ, suc, ◌+◌, ◌≡◌, refl, ap, ◌∙◌, inl, inr, Bool, true, false, ◌&&◌, List, [], ◌∷◌, ◌++◌, Option,
  none, some, arith, ltb, leb, Bool-cases, if◌then◌else◌,
}
use dotfiles_ai.Base.Lists.{length}
use dotfiles_ai.Js.Text.{Text}
use dotfiles_ai.Findings.TextLimits.{Bracket, bracket, brace, Scanner, enforce_json_text_limits}
use dotfiles_ai.Findings.TextLimits.Printed.{
  Tree, word, quoted, items, fields, between, Trees, nil, cons, Entries, end, entry, print,
  print_items, print_fields, IsJson, AreJson, AreFields, count_of, fits, all_fit, fields_fit,
}
use dotfiles_ai.Findings.TextLimits.Printed.Scanned.{
  kept, only, only-only, standing, scan_from, has_room, marked, length-marked, scan_from-word_char,
  scan_from-word, scan_from-blanks, scan_from-string, scan_from-open_array, scan_from-open_object,
  scan_from-close_array, scan_from-close_object, scan_from-separate_items,
  scan_from-separate_fields, scan_from-colon, kept-enforce_json_text_limits, scan_from-nil,
}

zero_add : (k : ℕ) → 0 + k ≡ k
zero_add k = omega arith

add_zero : (k : ℕ) → k + 0 ≡ k
add_zero k = omega arith

and_true : (a : Bool) → a ≡ (a && true)
and_true true = refl
and_true false = refl

and_assoc : (a b c : Bool) → ((a && b) && c) ≡ (a && (b && c))
and_assoc true b c = refl
and_assoc false b c = refl

counted :
    (n k : ℕ) (f g : Bool)
    → ltb n 1000 ≡ true
    → ((ltb n 1000 && f) && (leb (suc n + k) 1000 && g)) ≡ (leb (n + suc k) 1000 && (f && g))
counted n k f g h = ground arith

uncounted :
    (n k : ℕ) (f g : Bool) (o : Option Scanner) (p : Option Scanner)
    → ltb n 1000 ≡ false
    → only (ltb n 1000 && f) o ≡ only (leb (n + suc k) 1000 && g) p
uncounted n k f g o p h =
    let many : leb (n + suc k) 1000 ≡ false = ground arith in rw (h, many) refl

-- The items after the first one, where what the item does is known.
next-item :
    (n k : ℕ) (f g : Bool) (o p : Option Scanner)
    → (leb (suc n) 1000 ≡ true → o ≡ only (leb (suc n + k) 1000 && g) p)
    → only (ltb n 1000 && f) o ≡ only (leb (n + suc k) 1000 && (f && g)) p
next-item n k f g o p rest = elim (Bool-cases (ltb n 1000)) [
  | inl room ↦
      ap (only (ltb n 1000 && f)) (rest (ground arith))
      ∙ only-only _ _ p
      ∙ ap (λ b. only b p) (counted n k f g room)
  | inr full ↦ uncounted n k f (f && g) o p full
]

opened :
    {m n : ℕ} (a b : Bool) (g : ℕ → Bool) (p : Option Scanner)
    → m ≡ n
    → only (a && b) (only (g m) p) ≡ only (a && (b && g n)) p
opened {m = m} {n = n} a b g p e =
    only-only (a && b) (g m) p
    ∙ ap (λ k. only ((a && b) && g k) p) e
    ∙ ap (λ c. only c p) (and_assoc a b (g n))

mutual
  unfolding print fits IsJson

  scan_from-tree :
      (t : Tree) (cs : List Bracket) (rest : Text)
      → IsJson t
      → scan_from (print t rest) (standing cs)
        ≡ only (has_room cs && fits (length cs) t) (scan_from rest (standing (marked cs)))
  scan_from-tree (word c s) cs rest h =
      scan_from-word_char c cs (s ++ rest) h.0
      ∙ ap (only (has_room cs)) (scan_from-word s cs rest h.1)
      ∙ ap (λ b. only b (scan_from rest (standing (marked cs)))) (and_true (has_room cs))
  scan_from-tree (quoted ps) cs rest h =
      scan_from-string ps cs rest h
      ∙ ap (λ b. only b (scan_from rest (standing (marked cs)))) (and_true (has_room cs))
  scan_from-tree (items ts) cs rest h =
      scan_from-open_array cs (print_items true ts rest)
      ∙ ap (only (has_room cs && ltb (length cs) 64))
          (scan_from-items ts true 0 (marked cs) rest h refl)
      ∙ opened (has_room cs) (ltb (length cs) 64)
          (λ n. leb (0 + count_of ts) 1000 && all_fit (suc n) ts)
          (scan_from rest (standing (marked cs))) (length-marked cs)
      ∙ ap
          (λ k.
            only
              (has_room cs && (ltb (length cs) 64 && (leb k 1000 && all_fit (suc (length cs)) ts)))
              (scan_from rest (standing (marked cs))))
          (zero_add (count_of ts))
  scan_from-tree (fields es) cs rest h =
      scan_from-open_object cs (print_fields true es rest)
      ∙ ap (only (has_room cs && ltb (length cs) 64)) (scan_from-fields es true (marked cs) rest h)
      ∙ opened (has_room cs) (ltb (length cs) 64) (λ n. fields_fit (suc n) es)
          (scan_from rest (standing (marked cs))) (length-marked cs)
  scan_from-tree (between before t after) cs rest h =
      scan_from-blanks before cs (print t (after ++ rest)) h.0
      ∙ scan_from-tree t cs (after ++ rest) h.1.0
      ∙ ap (only (has_room cs && fits (length cs) t))
          (scan_from-blanks after (marked cs) rest h.1.1)

  scan_from-items :
      (ts : Trees) (first : Bool) (n : ℕ) (cs : List Bracket) (rest : Text)
      → AreJson ts
      → leb n 1000 ≡ true
      → scan_from (print_items first ts rest) (standing (bracket first n ∷ cs))
        ≡ only
            (leb (n + count_of ts) 1000 && all_fit (suc (length cs)) ts)
            (scan_from rest (standing cs))
  scan_from-items (nil blanks) first n cs rest h few =
      scan_from-blanks blanks (bracket first n ∷ cs) _ h
      ∙ scan_from-close_array (bracket first n) cs rest
      ∙ rw (add_zero n, few) refl
  scan_from-items (cons t ts) first n cs rest h few =
      scan_from-separate_items first n cs (print t (print_items false ts rest))
      ∙ scan_from-tree t (bracket true n ∷ cs) (print_items false ts rest) h.0
      ∙ next-item n (count_of ts) (fits (suc (length cs)) t) (all_fit (suc (length cs)) ts)
          (scan_from (print_items false ts rest) (standing (bracket false (suc n) ∷ cs)))
          (scan_from rest (standing cs))
          (λ fewer. scan_from-items ts false (suc n) cs rest h.1 fewer)

  scan_from-fields :
      (es : Entries) (first : Bool) (cs : List Bracket) (rest : Text)
      → AreFields es
      → scan_from (print_fields first es rest) (standing (brace ∷ cs))
        ≡ only (fields_fit (suc (length cs)) es) (scan_from rest (standing cs))
  scan_from-fields (end blanks) first cs rest h =
      scan_from-blanks blanks (brace ∷ cs) _ h ∙ scan_from-close_object brace cs rest
  scan_from-fields (entry before key after t es) first cs rest h =
      let later = print_fields false es rest in
      scan_from-separate_fields first cs _
      ∙ scan_from-blanks before (brace ∷ cs) _ h.0
      ∙ scan_from-string key (brace ∷ cs) _ h.1.0
      ∙ scan_from-blanks after (brace ∷ cs) _ h.1.1.0
      ∙ scan_from-colon cs (print t later)
      ∙ scan_from-tree t (brace ∷ cs) later h.1.1.1.0
      ∙ ap (only (fits (suc (length cs)) t)) (scan_from-fields es false cs rest h.1.1.1.1)
      ∙ only-only _ _ (scan_from rest (standing cs))

only-if : (b : Bool) → only b (some (standing [])) ≡ (if b then some (standing []) else none)
only-if true = refl
only-if false = refl

-- On the text of a JSON value, in any layout, `enforceJsonTextLimits` throws nothing exactly if no
-- array or object of the value is behind more than 64 open brackets, its own included, and no array
-- has more than 1000 items; and then no bracket is left open.
pub kept-enforce_json_text_limits-print :
    (t : Tree)
    → IsJson t
    → kept (enforce_json_text_limits (print t [])) ≡ (if fits 0 t then some (standing []) else none)
kept-enforce_json_text_limits-print t h =
    kept-enforce_json_text_limits (print t [])
    ∙ scan_from-tree t [] [] h
    ∙ rw (scan_from-nil (standing [])) (only-if (fits 0 t))
