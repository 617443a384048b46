-- ===== src/Js/Text.antt =====
-- JavaScript strings: lists of UTF-16 code units, with the operations that the validators use.
pub mod Points
pub mod Order
pub mod Split
use Prim.Native.Char.{code}
use dotfiles_ai.Base.{
  ℕ, ◌+◌, ◌-◌, ◌*◌, ◌/◌, ◌%◌, ◌≤◌, ◌<◌, String, ◌≡◌, ◌≢◌, refl, ◌↔◌, Bool, true, false, not, ◌&&◌,
  ◌||◌, List, [], ◌∷◌, ◌++◌, arith, ltb, leb, ◌==◌, if◌then◌else◌, within,
}
use dotfiles_ai.Base.Lists.{length, take, any, all, All}

abbrev pub Text : Type 0
Text = List ℕ

-- A literal of the source. All of them are ASCII.
unfoldable pub lit : String → Text
lit String.[] = []
lit (String.◌∷◌ c s) = code c ∷ lit s

-- What every JavaScript string satisfies.
abbrev pub IsUtf16 : Text → Type 0
IsUtf16 s = All (λ c. c < 0x10000) s

-- `===` on strings.
unfoldable pub text_eq : Text → Text → Bool
text_eq [] [] = true
text_eq [] (y ∷ ys) = false
text_eq (x ∷ xs) [] = false
text_eq (x ∷ xs) (y ∷ ys) = x == y && text_eq xs ys

pub text_eq_iff : (s t : Text) → (text_eq s t ≡ true) ↔ (s ≡ t)
unfolding text_eq
text_eq_iff [] [] = (λ h. refl, λ h. refl)
text_eq_iff [] (y ∷ ys) = (λ h. cc, λ h. cc)
text_eq_iff (x ∷ xs) [] = (λ h. cc, λ h. cc)
text_eq_iff (x ∷ xs) (y ∷ ys) =
    (λ h. ground (arith, text_eq_iff xs ys), λ h. ground (arith, text_eq_iff xs ys))

-- `<` on strings, by code units.
unfoldable pub text_lt : Text → Text → Bool
text_lt xs [] = false
text_lt [] (y ∷ ys) = true
text_lt (x ∷ xs) (y ∷ ys) = ltb x y || (x == y && text_lt xs ys)

unfoldable pub starts_with : Text → Text → Bool
starts_with s [] = true
starts_with [] (p ∷ ps) = false
starts_with (c ∷ s) (p ∷ ps) = c == p && starts_with s ps

unfoldable pub contains : Text → List Text → Bool
contains s [] = false
contains s (t ∷ ts) = text_eq t s || contains s ts

pub contains-cons :
    (s t : Text) (ts : List Text)
    → (contains s (t ∷ ts) ≡ false) ↔ ((t ≢ s) × (contains s ts ≡ false))
unfolding contains
contains-cons s t ts = (
  λ h. (λ e. ground (arith, text_eq_iff t s), ground arith),
  λ h. ground (arith, text_eq_iff t s, h.0),
)

-- No text occurs twice.
abbrev pub Distinct : List Text → Type 0
Distinct [] = Unit
Distinct (t ∷ ts) = All (λ u. t ≢ u) ts × Distinct ts

-- Members that a set does not have, with one more member in the set.
pub unseen_cons :
    (t : Text) (seen ts : List Text)
    → All (λ u. contains u (t ∷ seen) ≡ false) ts
    → All (λ u. t ≢ u) ts × All (λ u. contains u seen ≡ false) ts
unseen_cons t seen [] h = (tt, tt)
unseen_cons t seen (u ∷ ts) h =
    let (ne, rest) = (contains-cons u t seen).0 h.0 in
    let (nes, rests) = unseen_cons t seen ts h.1 in ((ne, nes), (rest, rests))

pub cons_unseen :
    (t : Text) (seen ts : List Text)
    → All (λ u. t ≢ u) ts
    → All (λ u. contains u seen ≡ false) ts
    → All (λ u. contains u (t ∷ seen) ≡ false) ts
cons_unseen t seen [] h k = tt
cons_unseen t seen (u ∷ ts) h k =
    ((contains-cons u t seen).1 (h.0, k.0), cons_unseen t seen ts h.1 k.1)

-- `value.split(separator)` at a separator of one code unit.
unfoldable split_onto : Text → ℕ → Text → List Text
split_onto segment sep [] = segment ∷ []
split_onto segment sep (c ∷ s) = elim (c == sep) [
  | true ↦ segment ∷ split_onto [] sep s
  | false ↦ split_onto (segment ++ c ∷ []) sep s
]

unfoldable pub split : ℕ → Text → List Text
unfolding split_onto
split sep s = split_onto [] sep s

-- Decimal digits of a natural number; the fuel is above the number of digits.
decimal_onto : ℕ → ℕ → Text → Text
decimal_onto ℕ.zero n out = out
decimal_onto (ℕ.suc fuel) n out =
    let longer = decimal_onto fuel (n / 10) ((48 + n % 10) ∷ out) in
    if ltb n 10 then (48 + n) ∷ out else longer

unfoldable pub decimal : ℕ → Text
unfolding decimal_onto
decimal n = decimal_onto (n + 1) n []

-- A digit of `toString(16)`.
unfoldable pub hex_digit : ℕ → ℕ
hex_digit d = if ltb d 10 then 48 + d else 87 + d

-- `n.toString(16).padStart(4, "0")` for n below 65536.
unfoldable pub hex4 : ℕ → Text
unfolding hex_digit
hex4 n =
    hex_digit (n / 4096)
    ∷ hex_digit (n / 256 % 16)
    ∷ hex_digit (n / 16 % 16)
    ∷ hex_digit (n % 16)
    ∷ []

-- `WhiteSpace` and `LineTerminator` of ECMAScript, which `trim` and `\s` go by.
unfoldable pub is_space : ℕ → Bool
is_space c =
    within 9 13 c
    || c == 0x20
    || c == 0xa0
    || c == 0x1680
    || within 0x2000 0x200a c
    || within 0x2028 0x2029 c
    || c == 0x202f
    || c == 0x205f
    || c == 0x3000
    || c == 0xfeff

-- Whether the last code unit satisfies a test; false on the empty string.
unfoldable pub last_is : (ℕ → Bool) → Text → Bool
last_is p [] = false
last_is p (c ∷ []) = p c
last_is p (c ∷ d ∷ s) = last_is p (d ∷ s)

unfoldable pub first_is : (ℕ → Bool) → Text → Bool
first_is p [] = false
first_is p (c ∷ s) = p c

-- `value.trim() === value`: no white space at either end.
unfoldable pub is_trimmed : Text → Bool
unfolding is_space first_is last_is
is_trimmed s = not (first_is is_space s) && not (last_is is_space s)

decimal_runs : decimal 1000 ≡ lit "1000"
unfolding decimal lit
decimal_runs = refl

split_runs : split b'/' (lit "a//bc") ≡ lit "a" ∷ [] ∷ lit "bc" ∷ []
unfolding split lit
split_runs = refl
