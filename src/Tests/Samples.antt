-- ===== src/Tests/Samples.antt =====
-- A small schema with findings, and a small world, for the runs.
use dotfiles_ai.Base.{
  ℕ, ◌+◌, ◌-◌, ◌*◌, ◌≡◌, refl, true, false, [], ◌∷◌, ◌++◌, map, none, some, arith, if◌then◌else◌,
  within,
}
use dotfiles_ai.Js.Text.{Text, lit, text_eq}
use dotfiles_ai.Js.Number.{Number, whole}
use dotfiles_ai.Js.Json.{Json, boolean, number, string, array, object, nil, cons}
use dotfiles_ai.Findings.Schema.{Patterns}
use dotfiles_ai.Environment.Host.{Host, is_token_char}
use dotfiles_ai.Base.Lists.{All}
use dotfiles_ai.Environment.Host.Names.{IsSlugChar, is_token, slug-is_token}
use dotfiles_ai.Environment.Check.{World, State}
use dotfiles_ai.Tests.Data.{fields_of, text, one}

-- Patterns that each match the text that they are.
abbrev pub literal_patterns : Patterns
literal_patterns = record { is_pattern = λ s. true; matches = λ p s. text_eq p s }

abbrev pub fingerprint_schema : Json
fingerprint_schema =
    object
      (fields_of ((lit "type", text (lit "string")) ∷ (lit "minLength", number (whole 2)) ∷ []))

abbrev pub verdict_schema : Json
verdict_schema = object (
    fields_of (
      (
        lit "oneOf",
        array (
            cons (object (fields_of ((lit "const", text (lit "rejected")) ∷ [])))
              (cons (object (fields_of ((lit "const", text (lit "confirmed")) ∷ []))) nil)),
      )
      ∷ []))

-- Findings have a fingerprint, perhaps a verdict, and nothing else.
abbrev pub finding_schema : Json
finding_schema = object (
    fields_of (
      (lit "type", text (lit "object"))
      ∷ (lit "required", one (text (lit "fingerprint")))
      ∷ (
        lit "properties",
        object (
            fields_of
              ((lit "fingerprint", fingerprint_schema) ∷ (lit "verdict", verdict_schema) ∷ [])),
      )
      ∷ (lit "additionalProperties", boolean false)
      ∷ []))

abbrev pub report_schema : Json
report_schema =
    object (fields_of ((lit "type", text (lit "array")) ∷ (lit "items", finding_schema) ∷ []))

abbrev pub rejected : Text → Json
rejected fingerprint = object (
    fields_of
      ((lit "fingerprint", string fingerprint) ∷ (lit "verdict", text (lit "rejected")) ∷ []))

abbrev pub two_findings : Json
two_findings = array (cons (rejected (lit "aa")) (cons (rejected (lit "ab")) nil))

abbrev pub two_findings_swapped : Json
two_findings_swapped = array (cons (rejected (lit "ab")) (cons (rejected (lit "aa")) nil))

-- Two faults for the schema: a short fingerprint, and a verdict that no branch has.
abbrev pub odd_finding : Json
odd_finding = one (
    object
      (fields_of ((lit "fingerprint", text (lit "a")) ∷ (lit "verdict", text (lit "open")) ∷ [])))

-- The number of decimal digits.
unfoldable pub digits_from : ℕ → Text → ℕ
digits_from n [] = n
digits_from n (c ∷ s) = digits_from (n * 10 + (c - b'0')) s

abbrev pub number_of : Text → Number
unfolding digits_from
number_of s = whole (digits_from 0 s)

abbrev pub lower_char : ℕ → ℕ
lower_char c = if within b'A' b'Z' c then c + 32 else c

-- A session of Claude Code in iTerm.
abbrev pub sample_host : Host
unfolding lit text_eq
sample_host = record {
  env = λ name.
      if text_eq name (lit "CLAUDECODE")
      then lit "1"
      else if text_eq name (lit "TERM_PROGRAM")
      then lit "iTerm.app"
      else [];
  lower = map lower_char;
  script_path = lit "/skills/jfrog/scripts/check-environment.mjs";
  argv_path = [];
}

lower_char-token : (c : ℕ) → is_token_char c ≡ true → lower_char c ≡ c
unfolding is_token_char
lower_char-token c h = ground arith

lower_char-map :
    (c : ℕ) (s : Text) → lower_char c ≡ c → map lower_char s ≡ s → map lower_char (c ∷ s) ≡ c ∷ s
lower_char-map c s h k = rw (h, k) refl

map-token : (s : Text) → is_token s ≡ true → map lower_char s ≡ s
unfolding is_token is_token_char
map-token [] h = refl
map-token (c ∷ s) h =
    lower_char-map c s (lower_char-token c (ground arith)) (map-token s (ground arith))

-- Tokens are in lower case.
pub lower-token : (s : Text) → is_token s ≡ true → sample_host.lower s ≡ s
unfolding sample_host
lower-token s h = map-token s h

pub lower-slug : (s : Text) → All IsSlugChar s → sample_host.lower s ≡ s
lower-slug s h = lower-token s (slug-is_token s h)

-- A world with `jf` 2.119.0 in one directory, no cache and a listing of two versions.
abbrev pub sample_world : World
unfolding lit text_eq
sample_world = record {
  node_major = 20;
  host = sample_host;
  number_of = number_of;
  cache_text = none;
  parse = λ s. none;
  age_seconds = λ v. none;
  hours = λ n. n;
  now = lit "2026-01-01T00:00:00Z";
  skill_file = some (lit "---\nversion: 1.2.0\n---\n");
  path_dirs = lit "/bin" ∷ lit "/opt" ∷ [];
  names = lit "jf" ∷ [];
  join = λ dir name. dir ++ (b'/' ∷ name);
  is_executable = λ path. text_eq path (lit "/opt/jf");
  version_output = λ jf. lit "jf version 2.119.0\n";
  listing = some (lit "2.118.0/ 2.120.0/");
}

-- What is in the world after the cache was written: no more than before.
abbrev pub world_after : State → World
world_after state = sample_world
