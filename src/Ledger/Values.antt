-- ===== src/Ledger/Values.antt =====
-- The predicates on single values: visible text, canonical references, paths and agent IDs.
-- (dot_agents/skills/security-audit/validate-coverage-ledger.cjs; `isSafeRelativeSourcePath` of
-- validate-findings.cjs repeats `isSafeRelativePath` word for word)
use dotfiles_ai.Base.{
  ℕ, ◌+◌, Bool, true, false, not, ◌&&◌, ◌||◌, List, [], ◌∷◌, ◌++◌, some, ltb, leb, ◌==◌,
  if◌then◌else◌, within,
}
use dotfiles_ai.Base.Lists.{length, any, all}
use dotfiles_ai.Js.Text.{
  Text, lit, text_eq, starts_with, contains, split, first_is, last_is, is_trimmed,
}
use dotfiles_ai.Js.Text.Points.{is_high, is_low, code_points}
use dotfiles_ai.Js.Json.{string, Value}
use dotfiles_ai.Js.Runtime.{Runtime, is_visible, is_path_forbidden}

-- `hasValidUnicodeScalarValues`: no surrogate stands alone.
unfoldable pub has_valid_unicode_scalar_values : Text → Bool
has_valid_unicode_scalar_values [] = true
has_valid_unicode_scalar_values (first ∷ []) =
    if is_high first then false else if is_low first then false else true
has_valid_unicode_scalar_values (first ∷ second ∷ s) = elim (is_high first) [
  | true ↦ elim (is_low second) [ true ↦ has_valid_unicode_scalar_values s | false ↦ false ]
  | false ↦ elim (is_low first) [
    | true ↦ false
    | false ↦ has_valid_unicode_scalar_values (second ∷ s)
  ]
]

abbrev is_lower_digit : ℕ → Bool
is_lower_digit c = within b'a' b'z' c || within b'0' b'9' c

abbrev is_letter_digit : ℕ → Bool
is_letter_digit c = within b'A' b'Z' c || within b'a' b'z' c || within b'0' b'9' c

-- `AGENT_ID_PATTERN`
unfoldable pub matches_agent_id : Text → Bool
matches_agent_id [] = false
matches_agent_id (c ∷ s) =
    is_lower_digit c && leb (length s) 63 && all (λ d. is_lower_digit d || d == b'_' || d == b'-') s

-- `FINGERPRINT_PATTERN`
unfoldable pub matches_fingerprint : Text → Bool
matches_fingerprint [] = false
matches_fingerprint (c ∷ s) =
    is_letter_digit c
    && all
        (λ d.
          is_letter_digit d
          || d == b'.'
          || d == b'_'
          || d == b':'
          || d == b'/'
          || d == b'@'
          || d == b'+'
          || d == b'-')
        s

-- a name such as `com` and one of the digits 1 to 9
numbered : Text → Text → Bool
numbered name [] = false
numbered [] (d ∷ []) = within b'1' b'9' d
numbered [] (d ∷ e ∷ s) = false
numbered (n ∷ name) (c ∷ s) = n == c && numbered name s

-- `WINDOWS_RESERVED_AGENT_ID`
unfoldable pub is_reserved_agent_id : Text → Bool
unfolding numbered
is_reserved_agent_id s =
    contains s (lit "con" ∷ lit "prn" ∷ lit "aux" ∷ lit "nul" ∷ [])
    || numbered (lit "com") s
    || numbered (lit "lpt") s

-- Case folding under the flags `iu`: beside A to Z only the Kelvin sign folds to a letter of the
-- pattern.
unfoldable pub fold_case : ℕ → ℕ
fold_case c = if within b'A' b'Z' c then c + 32 else if c == 0x212a then b'k' else c

-- what is left of `s` behind a name, with case folded
after_name : Text → Text → List Text
unfolding fold_case
after_name [] s = s ∷ []
after_name (n ∷ name) [] = []
after_name (n ∷ name) (c ∷ s) = if n == fold_case c then after_name name s else []

-- a digit of `[1-9\u00b9\u00b2\u00b3]`
after_digit : List Text → List Text
after_digit ((d ∷ s) ∷ _) =
    if within b'1' b'9' d || d == 0xb9 || d == 0xb2 || d == 0xb3 then s ∷ [] else []
after_digit _ = []

-- `(?:\.|$)`
abbrev pub ends_name : List Text → Bool
ends_name ([] ∷ _) = true
ends_name ((c ∷ s) ∷ _) = c == b'.'
ends_name [] = false

-- `WINDOWS_RESERVED_COMPONENT`
unfoldable pub is_reserved_component : Text → Bool
unfolding after_name after_digit
is_reserved_component s =
    any (λ name. ends_name (after_name name s))
      (lit "con"
        ∷ lit "prn"
        ∷ lit "aux"
        ∷ lit "nul"
        ∷ lit "clock$"
        ∷ lit "conin$"
        ∷ lit "conout$"
        ∷ [])
    || ends_name (after_digit (after_name (lit "com") s))
    || ends_name (after_digit (after_name (lit "lpt") s))

-- one segment of a path
unfoldable pub is_safe_segment : Text → Bool
is_safe_segment segment =
    not (text_eq segment [])
    && not (text_eq segment (lit "."))
    && not (text_eq segment (lit ".."))
    && not (last_is (λ c. c == b' ' || c == b'.') segment)
    && not (is_reserved_component segment)

-- `path.posix.isAbsolute`
abbrev pub is_posix_absolute : Text → Bool
is_posix_absolute s = first_is (λ c. c == b'/') s

abbrev pub is_slash : ℕ → Bool
is_slash c = c == b'/' || c == b'\\'

abbrev pub is_letter : ℕ → Bool
is_letter c = within b'A' b'Z' c || within b'a' b'z' c

-- `path.win32.isAbsolute`
abbrev pub is_win32_absolute : Text → Bool
is_win32_absolute (c ∷ d ∷ e ∷ s) = is_slash c || (is_letter c && d == b':' && is_slash e)
is_win32_absolute s = first_is is_slash s

-- `/^[A-Za-z]:/`
abbrev pub has_drive : Text → Bool
has_drive (c ∷ d ∷ s) = is_letter c && d == b':'
has_drive _ = false

-- `isSafeAgentId`
unfoldable pub is_safe_agent_id : Value → Bool
is_safe_agent_id (some (string s)) = matches_agent_id s && not (is_reserved_agent_id s)
is_safe_agent_id _ = false

-- `agents/${agentId}/artifacts/`
unfoldable pub owned_prefix : Text → Text
owned_prefix agent_id = lit "agents/" ++ (agent_id ++ lit "/artifacts/")

module _ ⦃rt : Runtime⦄ where
  -- `hasVisibleProse`
  unfoldable pub has_visible_prose : Text → Bool
  has_visible_prose s = has_valid_unicode_scalar_values s && any is_visible (code_points s)

  -- `isVisibleText`
  unfoldable pub is_visible_text : Value → ℕ → Bool
  is_visible_text (some (string s)) max_length =
      ltb 0 (length s) && leb (length s) max_length && is_trimmed s && has_visible_prose s
  is_visible_text _ max_length = false

  -- `isCanonicalRef`
  unfoldable pub is_canonical_ref : Value → Bool
  is_canonical_ref (some (string s)) =
      is_visible_text (some (string s)) 1024
      && not (any is_path_forbidden (code_points s))
      && text_eq (rt.normalize s) s
  is_canonical_ref _ = false

  unfoldable pub is_safe_path_text : Text → Bool
  is_safe_path_text s =
      if text_eq s []
        || not (has_valid_unicode_scalar_values s)
        || not (is_trimmed s)
        || any is_path_forbidden (code_points s)
        || any (λ c. c == b'\\') s
        || any (λ c. c == b':') s
      then false
      else if is_posix_absolute s
          || is_win32_absolute s
          || has_drive s
          || first_is (λ c. c == b'~') s
      then false
      else all is_safe_segment (split b'/' s)

  -- `isSafeRelativePath`
  unfoldable pub is_safe_relative_path : Value → Bool
  unfolding is_safe_path_text
  is_safe_relative_path (some (string s)) = is_safe_path_text s
  is_safe_relative_path _ = false

  -- `isOwnedArtifactPath`
  unfoldable pub is_owned_artifact_path : Value → Value → Bool
  is_owned_artifact_path (some (string s)) (some (string agent_id)) =
      if not (is_safe_agent_id (some (string agent_id)))
        || not (is_safe_relative_path (some (string s)))
      then false
      else starts_with s (owned_prefix agent_id) && ltb (length (owned_prefix agent_id)) (length s)
  is_owned_artifact_path _ _ = false
