-- ===== src/Environment/Versions.antt =====
-- `SEMVER`, `parseVersion`, `compareVersions`, `versionLt`, the choice of the latest version and
-- `decideSuggestUpgrade`.
-- (dot_agents/skills/jfrog/scripts/check-environment.mjs)
pub mod Dotted
pub mod Order
pub mod Offers
use dotfiles_ai.Base.{
  ℕ, zero, suc, Bool, true, false, not, ◌&&◌, ◌||◌, List, [], ◌∷◌, ◌++◌, map, Option, none, some,
  ◌==◌, if◌then◌else◌,
}
use dotfiles_ai.Base.Lists.{length}
use dotfiles_ai.Js.Text.{Text, lit, text_eq, split}
use dotfiles_ai.Js.Number.{Number, number_lt, number_eq}
use dotfiles_ai.Js.Json.{Json, string, boolean, get, Value}
use dotfiles_ai.Js.Strings.{is_digit, is_set}

-- The digits that a text begins with, and what is left.
unfoldable pub take_digits : Text → Text × Text
unfolding is_digit
take_digits [] = ([], [])
take_digits (c ∷ s) =
    let rest = take_digits s in if is_digit c then (c ∷ rest.0, rest.1) else ([], c ∷ s)

-- `\.\d+` at the beginning of a text, after `matched`.
unfoldable pub dotted_digits : Text → Text → Option (Text × Text)
unfolding take_digits
dotted_digits matched [] = none
dotted_digits matched (c ∷ s) =
    if c == b'.' && is_set (take_digits s).0
    then some (matched ++ c ∷ (take_digits s).0, (take_digits s).1)
    else none

abbrev pub after_two : Option (Text × Text) → Option (Text × Text)
after_two none = none
after_two (some (matched, rest)) = dotted_digits matched rest

-- `\d+\.\d+\.\d+` at the beginning of a text: what it matches, and what is left.
unfoldable pub semver_at : Text → Option (Text × Text)
unfolding take_digits dotted_digits
semver_at s =
    if is_set (take_digits s).0
    then after_two (dotted_digits (take_digits s).0 (take_digits s).1)
    else none

-- `text.match(SEMVER)`; each match takes a character, so the length of the text is enough fuel.
unfoldable pub find_semvers : ℕ → Text → List Text
find_semvers zero s = []
find_semvers (suc fuel) [] = []
find_semvers (suc fuel) (c ∷ s) = elim (semver_at (c ∷ s)) [
  | none ↦ find_semvers fuel s
  | some found ↦ found.0 ∷ find_semvers fuel found.1
]

unfoldable pub match_semver : Text → List Text
unfolding find_semvers
match_semver s = find_semvers (length s) s

abbrev pub is_whole_match : Option (Text × Text) → Bool
is_whole_match (some (matched, [])) = true
is_whole_match _ = false

-- `EXACT_SEMVER.test(v)`
unfoldable pub is_semver : Text → Bool
is_semver v = is_whole_match (semver_at v)

-- The results -1, 0 and 1 of `compareVersions`.
pub data Sign : Type 0 where
  less : Sign
  equal : Sign
  greater : Sign

-- The loop over the parts; a part that is not there is `undefined`.
unfoldable pub compare_parts : ℕ → List Number → List Number → Sign
unfolding number_eq number_lt
compare_parts zero xs ys = equal
compare_parts (suc n) [] [] = equal
compare_parts (suc n) [] (y ∷ ys) = greater
compare_parts (suc n) (x ∷ xs) [] = greater
compare_parts (suc n) (x ∷ xs) (y ∷ ys) =
    let rest = compare_parts n xs ys in
    if not (number_eq x y) then (if number_lt x y then less else greater) else rest

abbrev pub is_less : Sign → Bool
is_less less = true
is_less _ = false

abbrev pub is_greater : Sign → Bool
is_greater greater = true
is_greater _ = false

abbrev pub unknown : Text
unknown = lit "unknown"

-- `prev?.latest_version_available ?? ""`, which this script writes as a text. Of another value
-- the pattern would test the printed form; an array of one version, which is printed as the
-- version, is read as none here.
abbrev pub prev_latest_text : Value → Text
prev_latest_text (some (string s)) = s
prev_latest_text _ = []

unfoldable pub prev_latest_of : Value → Text
prev_latest_of v = if is_semver (prev_latest_text v) then prev_latest_text v else []

-- `prevFlag`: `none` is "".
unfoldable pub prev_flag_of : Value → Option Bool
prev_flag_of (some (boolean b)) = some b
prev_flag_of _ = none

abbrev pub is_yes : Option Bool → Bool
is_yes (some b) = b
is_yes none = false

abbrev pub is_no : Option Bool → Bool
is_no (some b) = not b
is_no none = false

pub record Offer : Type 0 where
  pub latest : Text
  pub suggest : Bool

-- `prev?.name`
abbrev pub cache_field : Text → Option Json → Value
cache_field name none = none
cache_field name (some cache) = get name cache

-- the fallback to the version of the last run
unfoldable pub known_latest : Text → Text → Option Bool → Offer
known_latest latest prev_latest flag =
    if not (is_semver latest)
    then (if is_set prev_latest
        then record { latest = prev_latest; suggest = is_yes flag }
        else record { latest = latest; suggest = false })
    else record { latest = latest; suggest = is_yes flag }

module _ (number_of : Text → Number) where
  -- `parseVersion`, with `Number` of a text as a parameter
  unfoldable pub parse_version : Text → List Number
  parse_version v = map number_of (split b'.' v)

  -- `compareVersions`
  unfoldable pub compare_versions : Text → Text → Sign
  unfolding parse_version compare_parts
  compare_versions a b = compare_parts 3 (parse_version a) (parse_version b)

  -- `versionLt`
  unfoldable pub version_lt : Text → Text → Bool
  unfolding compare_versions
  version_lt a b =
      if not (is_semver a) || not (is_semver b) then false else is_less (compare_versions a b)

  -- `found.reduce((best, v) => (compareVersions(v, best) > 0 ? v : best))`
  unfoldable pub best_of : Text → List Text → Text
  unfolding compare_versions
  best_of best [] = best
  best_of best (v ∷ vs) = best_of (if is_greater (compare_versions v best) then v else best) vs

  -- `fetchLatestVersion` on the body of an answer that is `ok`
  unfoldable pub latest_of : Text → Text
  latest_of body = elim (match_semver body) [ [] ↦ unknown | v ∷ vs ↦ best_of v vs ]

  -- the last two statements
  unfoldable pub decide : Text → Text → Option Bool → Offer → Offer
  decide cli prev_latest flag offer =
      if is_semver offer.latest && version_lt cli offer.latest
      then (if not (is_set prev_latest) || not (text_eq prev_latest offer.latest)
          then record offer { suggest = true }
          else record offer { suggest = not (is_no flag) })
      else if is_semver offer.latest
      then record offer { suggest = false }
      else offer

  -- `decideSuggestUpgrade`; `prev` is null or the object of the cache
  unfoldable pub decide_suggest_upgrade : Text → Text → Option Json → Offer
  unfolding decide known_latest prev_latest_of prev_flag_of
  decide_suggest_upgrade cli latest prev =
      let prev_latest = prev_latest_of (cache_field (lit "latest_version_available") prev) in
      let flag = prev_flag_of (cache_field (lit "suggest_upgrade") prev) in
      decide cli prev_latest flag (known_latest latest prev_latest flag)
