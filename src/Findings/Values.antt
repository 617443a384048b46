-- ===== src/Findings/Values.antt =====
-- `typeOf`, `deepEqual`, `codePointLength`, `propertyPath`, `canonicalKey` and
-- `isSafeRelativeSourcePath`.
-- (dot_agents/skills/security-audit/validate-findings.cjs)
use dotfiles_ai.Base.{
  ℕ, suc, ◌+◌, Bool, true, false, not, ◌&&◌, ◌||◌, List, [], ◌∷◌, ◌++◌, Option, none, some, ltb,
  ◌==◌, if◌then◌else◌, within,
}
use dotfiles_ai.Base.Lists.{length, any, all}
use dotfiles_ai.Js.Text.{Text, lit, text_eq, text_lt, split, first_is, last_is, is_trimmed}
use dotfiles_ai.Js.Text.Points.{code_points, is_high, is_low}
use dotfiles_ai.Js.Utf8.{utf8}
use dotfiles_ai.Js.Number.{number_eq}
use dotfiles_ai.Js.Json.{
  Json, Items, Fields, null, boolean, number, string, array, object, nil, cons, end, field, keys,
  get, has_own, Value,
}
use dotfiles_ai.Js.Runtime.{Runtime, is_path_forbidden}
use dotfiles_ai.Diagnostics.{quote, safe_quote}
use dotfiles_ai.Diagnostics.Reports.{at_field}
use dotfiles_ai.Ledger.Values.{
  has_valid_unicode_scalar_values, is_posix_absolute, is_win32_absolute, has_drive,
  is_reserved_component,
}

-- `typeOf`
unfoldable pub type_of : Value → Text
unfolding lit
type_of none = lit "undefined"
type_of (some null) = lit "null"
type_of (some (boolean b)) = lit "boolean"
type_of (some (number n)) = lit "number"
type_of (some (string s)) = lit "string"
type_of (some (array vs)) = lit "array"
type_of (some (object fs)) = lit "object"

abbrev pub bool_eq : Bool → Bool → Bool
bool_eq true b = b
bool_eq false b = not b

unfoldable mutual
  unfolding number_eq text_eq get has_own keys

  -- `deepEqual` on values that share no object; the right one may be a field that is not there,
  -- which `hasOwn` excludes.
  pub deep_equal : Json → Value → Bool
  deep_equal null (some null) = true
  deep_equal (boolean a) (some (boolean b)) = bool_eq a b
  deep_equal (number m) (some (number n)) = number_eq m n
  deep_equal (string s) (some (string t)) = text_eq s t
  deep_equal (array vs) (some (array ws)) = deep_equal_items vs ws
  deep_equal (object fs) (some (object gs)) =
      length (keys fs) == length (keys gs) && deep_equal_fields fs (object gs)
  deep_equal _ _ = false

  -- equal lengths, and equal entries
  pub deep_equal_items : Items → Items → Bool
  deep_equal_items nil nil = true
  deep_equal_items (cons v vs) (cons w ws) = deep_equal v (some w) && deep_equal_items vs ws
  deep_equal_items _ _ = false

  -- `leftKeys.every((key) => hasOwn(right, key) && deepEqual(left[key], right[key]))`
  pub deep_equal_fields : Fields → Json → Bool
  deep_equal_fields end right = true
  deep_equal_fields (field k v fs) right = deep_equal v (get k right) && deep_equal_fields fs right

-- `codePointLength`
unfoldable pub code_point_length : Text → ℕ
code_point_length [] = 0
code_point_length (a ∷ []) = 1
code_point_length (a ∷ b ∷ s) =
    let one = code_point_length (b ∷ s) in
    let pair = code_point_length s in if is_high a && is_low b then suc pair else suc one

abbrev pub is_name_start : ℕ → Bool
is_name_start c = within b'A' b'Z' c || within b'a' b'z' c || c == b'_'

abbrev pub is_name_char : ℕ → Bool
is_name_char c = is_name_start c || within b'0' b'9' c

-- `/^[A-Za-z_][A-Za-z0-9_]*$/`
unfoldable pub is_plain_name : Text → Bool
is_plain_name [] = false
is_plain_name (c ∷ s) = is_name_start c && all is_name_char s

-- One chunk of a canonical key and its bytes; a key with the chunks of its value.
abbrev pub Chunks : Type 0
Chunks = List Text

unfoldable pub insert_field : Text → Chunks → List (Text × Chunks) → List (Text × Chunks)
unfolding text_lt
insert_field k cs [] = (k, cs) ∷ []
insert_field k cs ((j, ds) ∷ entries) =
    let later = insert_field k cs entries in
    if text_lt j k then (j, ds) ∷ later else (k, cs) ∷ (j, ds) ∷ entries

unfoldable pub join_fields : List (Text × Chunks) → Chunks
unfolding quote lit
join_fields [] = []
join_fields ((k, cs) ∷ []) = quote k ∷ lit ":" ∷ cs
join_fields ((k, cs) ∷ next ∷ entries) =
    quote k ∷ lit ":" ∷ (cs ++ lit "," ∷ join_fields (next ∷ entries))

abbrev pub max_key_bytes : ℕ
max_key_bytes = 1048576

-- What `canonicalKey` returns.
pub record Key : Type 0 where
  pub key : Text
  pub bytes : ℕ

-- `append`, for all chunks of a value; `none` is the Error.
unfoldable pub append_all : Chunks → Key → Option Key
unfolding utf8
append_all [] done = some done
append_all (chunk ∷ chunks) done =
    let bytes = done.bytes + length (utf8 chunk) in
    let rest = append_all chunks (record { key = done.key ++ chunk; bytes = bytes }) in
    if ltb max_key_bytes bytes then none else rest

module _ ⦃rt : Runtime⦄ where
  -- `propertyPath`
  unfoldable pub property_path : Text → Text → Text
  unfolding is_plain_name at_field
  property_path base key =
      if is_plain_name key
      then at_field base key
      else base ++ (b'[' ∷ (safe_quote (some (string key)) ++ b']' ∷ []))

  unfoldable mutual
    unfolding lit quote insert_field join_fields

    -- The chunks that `encode` appends, in its order. The order of the calls makes no difference
    -- to the outcome: the error is thrown exactly if all of them are too long.
    pub chunks_of : Json → Chunks
    chunks_of null = lit "null" ∷ []
    chunks_of (boolean true) = lit "boolean:true" ∷ []
    chunks_of (boolean false) = lit "boolean:false" ∷ []
    chunks_of (number n) = (lit "number:" ++ rt.number_text n) ∷ []
    chunks_of (string s) = (lit "string:" ++ quote s) ∷ []
    chunks_of (array vs) = lit "array:[" ∷ (chunks_of_items vs ++ lit "]" ∷ [])
    chunks_of (object fs) = lit "object:{" ∷ (join_fields (sorted_fields fs) ++ lit "}" ∷ [])

    pub chunks_of_items : Items → Chunks
    chunks_of_items nil = []
    chunks_of_items (cons v nil) = chunks_of v
    chunks_of_items (cons v (cons w vs)) = chunks_of v ++ lit "," ∷ chunks_of_items (cons w vs)

    -- `Object.keys(item).sort()`
    pub sorted_fields : Fields → List (Text × Chunks)
    sorted_fields end = []
    sorted_fields (field k v fs) = insert_field k (chunks_of v) (sorted_fields fs)

  -- `canonicalKey`
  unfoldable pub canonical_key : Json → Option Key
  unfolding append_all
  canonical_key v = append_all (chunks_of v) (record { key = []; bytes = 0 })

  -- The tests of this file's own `hasValidUnicodeScalarValues`, `PATH_FORBIDDEN_CHARACTER` and
  -- `WINDOWS_RESERVED_COMPONENT` are the same, character by character, as those of the other
  -- validator, whose definitions are used.
  unfoldable pub is_safe_path : Text → Bool
  unfolding has_valid_unicode_scalar_values is_trimmed is_reserved_component lit text_eq
  is_safe_path s =
      if length s == 0
        || not (has_valid_unicode_scalar_values s)
        || not (is_trimmed s)
        || any is_path_forbidden (code_points s)
        || any (λ c. c == b'\\') s
        || any (λ c. c == b':') s
      then false
      else if is_posix_absolute s
          || is_win32_absolute s
          || has_drive s
          || first_is (λ c. c == b'~') s
      then false
      else all
          (λ segment.
            not (text_eq segment [])
            && not (text_eq segment (lit "."))
            && not (text_eq segment (lit ".."))
            && not (last_is (λ c. c == b' ' || c == b'.') segment)
            && not (is_reserved_component segment))
          (split b'/' s)

  -- `isSafeRelativeSourcePath`
  unfoldable pub is_safe_relative_source_path : Value → Bool
  unfolding is_safe_path
  is_safe_relative_source_path (some (string s)) = is_safe_path s
  is_safe_relative_source_path _ = false
