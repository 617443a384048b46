-- ===== src/Js/Strings.antt =====
-- Methods of JavaScript strings that the scripts use.
use dotfiles_ai.Base.{
  ℕ, zero, suc, ◌≤◌, ◌≡◌, refl, Bool, true, false, ◌&&◌, ◌||◌, [], ◌∷◌, arith, ltb, ◌==◌,
  if◌then◌else◌, Bool-cases, inl, inr,
}
use dotfiles_ai.Base.Lists.{length, All}
use dotfiles_ai.Js.Text.{Text, starts_with, is_space, text_eq}

unfoldable pub drop_while : (ℕ → Bool) → Text → Text
drop_while p [] = []
drop_while p (c ∷ s) = let rest = drop_while p s in if p c then rest else c ∷ s

-- The text without the characters at its end that satisfy a test.
unfoldable pub drop_end : (ℕ → Bool) → Text → Text
drop_end p [] = []
drop_end p (c ∷ s) = elim (drop_end p s) [
  | [] ↦ if p c then [] else c ∷ []
  | d ∷ rest ↦ c ∷ d ∷ rest
]

-- `value.trim()`
unfoldable pub trim : Text → Text
unfolding is_space drop_while drop_end
trim s = drop_end is_space (drop_while is_space s)

-- `value.includes(part)`
unfoldable pub includes : Text → Text → Bool
unfolding starts_with
includes [] part = starts_with [] part
includes (c ∷ s) part = starts_with (c ∷ s) part || includes s part

-- `value.endsWith(part)`
unfoldable pub ends_with : Text → Text → Bool
unfolding text_eq
ends_with [] part = text_eq [] part
ends_with (c ∷ s) part = text_eq (c ∷ s) part || ends_with s part

-- The characters that satisfy a test, as `replace` of a negated class by "" leaves them.
unfoldable pub keep_only : (ℕ → Bool) → Text → Text
keep_only p [] = []
keep_only p (c ∷ s) = let rest = keep_only p s in if p c then c ∷ rest else rest

-- `value.split(separator)[0]` at a separator of one character.
unfoldable pub before : ℕ → Text → Text
before sep [] = []
before sep (c ∷ s) = let rest = before sep s in if c == sep then [] else c ∷ rest

-- `value.replaceAll(old, new)` on one character.
unfoldable pub replace_all : ℕ → ℕ → Text → Text
replace_all old new [] = []
replace_all old new (c ∷ s) = (if c == old then new else c) ∷ replace_all old new s

-- `value.slice(0, n)`
unfoldable pub slice_to : ℕ → Text → Text
slice_to zero s = []
slice_to (suc n) [] = []
slice_to (suc n) (c ∷ s) = c ∷ slice_to n s

-- `if (value)` on a string
unfoldable pub is_set : Text → Bool
is_set [] = false
is_set (c ∷ s) = true

-- `a || b` on strings
unfoldable pub or_else : Text → Text → Text
or_else [] t = t
or_else (c ∷ s) t = c ∷ s

-- `/^\d+$/` on one character
unfoldable pub is_digit : ℕ → Bool
is_digit c = ltb 47 c && ltb c 58

pub All-keep_only : (p : ℕ → Bool) (s : Text) → All (λ c. p c ≡ true) (keep_only p s)
unfolding keep_only
All-keep_only p [] = tt
All-keep_only p (c ∷ s) = elim (Bool-cases (p c)) [
  | inl kept ↦ rw kept (kept, All-keep_only p s)
  | inr dropped ↦ rw dropped (All-keep_only p s)
]

pub All-slice_to : (P : ℕ → Type 0) (n : ℕ) (s : Text) → All P s → All P (slice_to n s)
unfolding slice_to
All-slice_to P zero s h = tt
All-slice_to P (suc n) [] h = tt
All-slice_to P (suc n) (c ∷ s) h = (h.0, All-slice_to P n s h.1)

pub length-slice_to : (n : ℕ) (s : Text) → length (slice_to n s) ≤ n
unfolding slice_to
length-slice_to zero s = omega arith
length-slice_to (suc n) [] = omega arith
length-slice_to (suc n) (c ∷ s) = omega (arith, length-slice_to n s)

-- What satisfies the test at every character is kept whole.
pub keep_only-All : (p : ℕ → Bool) (s : Text) → All (λ c. p c ≡ true) s → keep_only p s ≡ s
unfolding keep_only
keep_only-All p [] h = refl
keep_only-All p (c ∷ s) h = rw (h.0, keep_only-All p s h.1) refl

pub slice_to-short : (n : ℕ) (s : Text) → length s ≤ n → slice_to n s ≡ s
unfolding slice_to
slice_to-short zero [] h = refl
slice_to-short zero (c ∷ s) h = absurd (omega arith)
slice_to-short (suc n) [] h = refl
slice_to-short (suc n) (c ∷ s) h = rw (slice_to-short n s (omega arith)) refl
