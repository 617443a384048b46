-- ===== src/Ledger/StringArray.antt =====
-- `validateStringArray`.
-- (dot_agents/skills/security-audit/validate-coverage-ledger.cjs)
pub mod Correct
use dotfiles_ai.Base.{
  ℕ, ◌≡◌, ◌⊎◌, ◌≤◌, ◌<◌, Bool, true, false, not, ◌&&◌, ◌||◌, List, [], ◌∷◌, ◌++◌, map, none, some,
  ltb, ◌==◌, if◌then◌else◌,
}
use dotfiles_ai.Base.Lists.{length, take, All}
use dotfiles_ai.Js.Text.{Text, lit, contains, Distinct}
use dotfiles_ai.Js.Json.{Json, string, array, items, from_items, is_string, Value}
use dotfiles_ai.Js.Runtime.{Runtime}
use dotfiles_ai.Diagnostics.Reports.{Check, pass, ◌>>◌, report, report_if, for_each_with, at_index}
use dotfiles_ai.Ledger.Values.{is_safe_relative_path, is_visible_text, matches_fingerprint}

-- `MAX_LIST_ITEMS` and `MAX_TEXT_LENGTH`
abbrev pub max_list_items : ℕ
max_list_items = 1000

abbrev pub max_text_length : ℕ
max_text_length = 4096

pub record Options : Type 0 where
  pub allow_empty : Bool
  pub fingerprint : Bool
  pub path_value : Bool

-- the default options
abbrev pub plain : Options
plain = record { allow_empty = true; fingerprint = false; path_value = false }

abbrev pub paths : Options
paths = record { allow_empty = true; fingerprint = false; path_value = true }

abbrev pub some_paths : Options
some_paths = record { allow_empty = false; fingerprint = false; path_value = true }

abbrev pub fingerprints : Options
fingerprints = record { allow_empty = true; fingerprint = true; path_value = false }

-- `typeof entry === "string" && seen.has(entry)`
unfoldable pub seen_has : List Text → Json → Bool
seen_has seen (string s) = contains s seen
seen_has seen _ = false

-- `if (typeof entry === "string") seen.add(entry)`
unfoldable pub seen_add : List Text → Json → List Text
seen_add seen (string s) = s ∷ seen
seen_add seen _ = seen

-- `typeof entry === "string" && !FINGERPRINT_PATTERN.test(entry)`
unfoldable pub is_bad_fingerprint : Json → Bool
is_bad_fingerprint (string s) = not (matches_fingerprint s)
is_bad_fingerprint _ = false

module _ ⦃rt : Runtime⦄ where
  unfoldable pub is_valid_entry : Options → Json → Bool
  is_valid_entry options entry =
      if options.path_value
      then is_safe_relative_path (some entry)
      else is_visible_text (some entry) max_text_length

  unfoldable pub validate_entry : Options → Text → List Text → ℕ → Json → Check
  validate_entry options location seen index entry = do
    report_if (not (is_valid_entry options entry)) (
        at_index location index
        ++ (lit ": invalid "
            ++ (if options.path_value then lit "repository-relative path" else lit "text")))
    report_if (options.fingerprint && is_bad_fingerprint entry)
        (at_index location index ++ lit ": invalid fingerprint")
    report_if (seen_has seen entry) (at_index location index ++ lit ": duplicate entry")

  -- `validateStringArray`
  unfoldable pub validate_string_array : Value → Text → Options → Check
  validate_string_array (some (array vs)) location options = do
    report_if (not options.allow_empty && length (items vs) == 0)
        (location ++ lit ": must not be empty")
    report_if (ltb max_list_items (length (items vs))) (location ++ lit ": exceeds 1000 entries")
    for_each_with (validate_entry options location) seen_add [] 0 (take max_list_items (items vs))
  validate_string_array _ location options = report (location ++ lit ": expected array")

  -- One entry: a path or a text, and a fingerprint where one is asked for.
  pub record IsEntry (options : Options) (s : Text) : Type 0 where
    pub valid : is_valid_entry options (string s) ≡ true
    pub fingerprint : (options.fingerprint && not (matches_fingerprint s)) ≡ false

  -- What the function accepts: an array of strings, all valid and all different.
  pub record IsStringArray (options : Options) (v : Value) : Type 0 where
    pub texts : List Text
    pub is_array : v ≡ some (array (from_items (map string texts)))
    pub at_most : length texts ≤ max_list_items
    pub nonempty : (options.allow_empty ≡ true) ⊎ (0 < length texts)
    pub entries : All (IsEntry options) texts
    pub distinct : Distinct texts
