-- ===== src/Js/Runtime.antt =====
-- What the runtime decides and this library leaves open: two Unicode properties, NFC and the
-- printing of numbers. The other classes that the source's patterns name are fixed lists.
use dotfiles_ai.Base.{ℕ, ◌<◌, ◌≡◌, Bool, false, true, ◌||◌, not, ◌==◌, within, [], ◌∷◌, arith}
use dotfiles_ai.Js.Text.{Text}
use dotfiles_ai.Js.Number.{Number}

pub record Runtime : Type 0 where
  -- `\p{Cf}` and `\p{Default_Ignorable_Code_Point}`
  pub is_format : ℕ → Bool
  pub is_ignorable : ℕ → Bool
  -- `value.normalize("NFC")`
  pub normalize : Text → Text
  -- `String(value)` on numbers
  pub number_text : Number → Text
  -- No ASCII character is in either class.
  pub ascii_not_format : (c : ℕ) → c < 128 → is_format c ≡ false
  pub ascii_not_ignorable : (c : ℕ) → c < 128 → is_ignorable c ≡ false

-- `\p{Cc}`
abbrev pub is_control : ℕ → Bool
is_control c = within 0 0x1f c || within 0x7f 0x9f c

-- `\p{Cs}`
abbrev pub is_surrogate : ℕ → Bool
is_surrogate c = within 0xd800 0xdfff c

-- `[\p{Zl}\p{Zp}]`
abbrev pub is_separator : ℕ → Bool
is_separator c = c == 0x2028 || c == 0x2029

-- `\p{White_Space}`
unfoldable pub is_white_space : ℕ → Bool
is_white_space c =
    within 9 13 c
    || c == 0x20
    || c == 0x85
    || c == 0xa0
    || c == 0x1680
    || within 0x2000 0x200a c
    || within 0x2028 0x2029 c
    || c == 0x202f
    || c == 0x205f
    || c == 0x3000

module _ ⦃rt : Runtime⦄ where
  -- `UNSAFE_DIAGNOSTIC_CHARACTER`
  unfoldable pub is_unsafe : ℕ → Bool
  is_unsafe c =
      is_control c || rt.is_format c || is_surrogate c || is_separator c || rt.is_ignorable c

  -- `PATH_FORBIDDEN_CHARACTER`
  unfoldable pub is_path_forbidden : ℕ → Bool
  is_path_forbidden c = is_control c || rt.is_format c || is_separator c || rt.is_ignorable c

  -- `VISIBLE_CONTENT`
  unfoldable pub is_visible : ℕ → Bool
  unfolding is_white_space
  is_visible c = not (is_white_space c || is_control c || rt.is_format c || rt.is_ignorable c)

  -- Printable ASCII is safe to print.
  pub is_unsafe-printable : (c : ℕ) → within 0x20 0x7e c ≡ true → is_unsafe c ≡ false
  unfolding is_unsafe
  is_unsafe-printable c h = ground (arith, rt.ascii_not_format c, rt.ascii_not_ignorable c)

pub soft_hyphen_not_ascii : (c : ℕ) → c < 128 → (c == 0xad) ≡ false
soft_hyphen_not_ascii c h = ground arith

pub joiner_not_ascii : (c : ℕ) → c < 128 → (c == 0x34f) ≡ false
joiner_not_ascii c h = ground arith

-- A runtime of this shape: the classes cut down to one character each, numbers printed as "0".
abbrev pub small_runtime : Runtime
small_runtime = record {
  is_format = λ c. c == 0xad;
  is_ignorable = λ c. c == 0x34f;
  normalize = λ s. s;
  number_text = λ n. b'0' ∷ [];
  ascii_not_format = soft_hyphen_not_ascii;
  ascii_not_ignorable = joiner_not_ascii;
}
