-- ===== src/Environment/UserAgent.antt =====
-- `skillVersion` and `buildUserAgent`.
-- (dot_agents/skills/jfrog/scripts/check-environment.mjs)
pub mod Header
use dotfiles_ai.Base.{
  ℕ, zero, suc, ◌+◌, Bool, true, false, not, ◌&&◌, ◌||◌, List, [], ◌∷◌, ◌++◌, Option, none, some,
  ltb, ◌==◌, if◌then◌else◌,
}
use dotfiles_ai.Js.Text.{Text, lit, text_eq, starts_with, is_space}
use dotfiles_ai.Js.Number.{Number}
use dotfiles_ai.Js.Strings.{trim, drop_while, keep_only, is_set, or_else}
use dotfiles_ai.Environment.Versions.{version_lt, unknown, match_semver}
use dotfiles_ai.Environment.Host.{
  Host, sanitize_token, canonical_agent_name, detect_harness, detect_host_client,
}

abbrev pub cons_line : ℕ → List Text → List Text
cons_line c [] = (c ∷ []) ∷ []
cons_line c (line ∷ lines) = (c ∷ line) ∷ lines

-- `text.split(/\r?\n/)`
unfoldable pub split_lines : Text → List Text
split_lines [] = [] ∷ []
split_lines (c ∷ []) = if c == 10 then [] ∷ [] ∷ [] else (c ∷ []) ∷ []
split_lines (c ∷ d ∷ s) =
    let from_next = split_lines (d ∷ s) in
    let from_third = split_lines s in
    if c == 10
    then [] ∷ from_next
    else if c == 13 && d == 10
    then [] ∷ from_third
    else cons_line c from_next

abbrev pub take_word : Text → Text
take_word [] = []
take_word (c ∷ s) = let rest = take_word s in if is_space c then [] else c ∷ rest

-- `text.split(/\s+/)[1]` of a trimmed text; `[]` where there is none
unfoldable pub second_word : Text → Text
unfolding drop_while
second_word s = take_word (drop_while is_space (drop_while (λ c. not (is_space c)) s))

-- the value of a line `version: …`
unfoldable pub version_value : Text → Text
unfolding second_word trim keep_only
version_value line =
    or_else (trim (keep_only (λ c. not (c == b'"' || c == b'\'')) (second_word (trim line))))
      unknown

-- The loop of `skillVersion` over the lines, after `fences` lines `---`.
unfoldable pub find_version : ℕ → List Text → Text
unfolding version_value
find_version fences [] = unknown
find_version fences (line ∷ lines) =
    let after_fence = find_version (suc fences) lines in
    let after = find_version fences lines in
    if text_eq line (lit "---")
    then after_fence
    else if fences == 1 && starts_with (drop_while is_space line) (lit "version:")
    then version_value line
    else if ltb 1 fences
    then unknown
    else after

-- `skillVersion`, on the text of SKILL.md, if it can be read
unfoldable pub skill_version : Option Text → Text
unfolding find_version split_lines
skill_version none = unknown
skill_version (some text) = find_version 0 (split_lines text)

-- `jfVersion` on the output of `jf --version`
unfoldable pub jf_version : Text → Text
jf_version stdout = elim (match_semver stdout) [ [] ↦ unknown | v ∷ vs ↦ v ]

unfoldable pub agent_ua_min_cli_version : Text
unfolding lit
agent_ua_min_cli_version = lit "2.120.0"

-- `meta += …` under a test
abbrev pub part : Bool → Text → Text → Text
part test name value = if test then name ++ value else []

module _ (host : Host) where
  -- `harness`, after the two statements that change it
  unfoldable pub named_harness : Text
  named_harness =
      if is_set (detect_harness host)
      then or_else (canonical_agent_name host (detect_harness host)) (detect_harness host)
      else []

  unfoldable pub is_fallback : Text → Bool
  unfolding named_harness
  is_fallback slug = not (is_set named_harness) && is_set slug

  unfoldable pub final_harness : Text → Text
  unfolding is_fallback
  final_harness slug = if is_fallback slug then unknown else named_harness

module _ (number_of : Text → Number) (host : Host) where
  -- `carryClientUa`
  unfoldable pub carries_client : Text → Text → Bool
  carries_client slug cli =
      text_eq cli unknown
      || version_lt number_of cli agent_ua_min_cli_version
      || is_fallback host slug

  -- `meta`
  unfoldable pub meta_of : Text → Text → Text
  unfolding final_harness carries_client
  meta_of slug cli =
      let harness = final_harness host slug in
      let client = detect_host_client host in
      lit "trigger=skill"
      ++ (part (is_set harness) (lit "; tool=") harness
          ++ (part (carries_client slug cli && is_set harness && is_set client) (lit "; client=")
                client
              ++ part (is_set slug) (lit "; model=") slug))

  -- `buildUserAgent`, on the model slug, the version that `jf --version` prints or "unknown", the
  -- version of the cache or "unknown", and the version of the skill
  unfoldable pub build_user_agent : Text → Text → Text → Text → Text
  unfolding meta_of
  build_user_agent slug_arg live cached skill =
      let cli = if text_eq live unknown then cached else live in
      lit "jfrog-skills/"
      ++ (skill
          ++ (lit " ("
              ++ (meta_of (sanitize_token host slug_arg) cli ++ (lit ") jfrog-cli-go/" ++ cli))))
