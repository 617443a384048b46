-- ===== src/Environment/Versions/Offers.antt =====
-- When `decideSuggestUpgrade` offers an upgrade.
use dotfiles_ai.Base.{
  ◌≡◌, refl, ◌∙◌, inl, inr, Bool, true, false, not, ◌&&◌, ◌||◌, [], ◌∷◌, Option, arith, Bool-cases,
}
use dotfiles_ai.Js.Text.{Text, lit, text_eq}
use dotfiles_ai.Js.Number.{Number}
use dotfiles_ai.Js.Json.{Json}
use dotfiles_ai.Js.Strings.{is_set}
use dotfiles_ai.Environment.Versions.{
  semver_at, is_semver, version_lt, Offer, is_no, prev_latest_of, prev_flag_of, cache_field, decide,
  known_latest, decide_suggest_upgrade,
}

-- The version that the last run knew of, and what became of the offer.
abbrev pub prev_latest : Option Json → Text
prev_latest prev = prev_latest_of (cache_field (lit "latest_version_available") prev)

abbrev pub declined : Option Json → Bool
declined prev = is_no (prev_flag_of (cache_field (lit "suggest_upgrade") prev))

is_semver-nil : is_semver [] ≡ false
unfolding is_semver semver_at is_set
is_semver-nil = refl

prev_latest_of-semver :
    (v : Option Json) → is_set (prev_latest_of v) ≡ true → is_semver (prev_latest_of v) ≡ true
unfolding prev_latest_of is_set
prev_latest_of-semver v h = ground (arith, is_semver-nil)

known_latest-other :
    (latest prev : Text) (flag : Option Bool)
    → (is_set prev ≡ true → is_semver prev ≡ true)
    → is_semver (known_latest latest prev flag).latest ≡ false
    → (known_latest latest prev flag).suggest ≡ false
unfolding known_latest
known_latest-other latest prev flag h k = elim (Bool-cases (is_semver latest)) [
  | inl known ↦ cc (rw known at k)
  | inr other ↦ elim (Bool-cases (is_set prev)) [
    | inl before ↦ cc (h before, (rw (other, before) at k))
    | inr never ↦ rw (other, never) refl
  ]
]

text_eq-nil :
    (prev latest : Text)
    → is_semver latest ≡ true
    → is_set prev ≡ false
    → text_eq prev latest ≡ false
unfolding text_eq is_set
text_eq-nil [] [] h k = cc (h, is_semver-nil)
text_eq-nil [] (c ∷ latest) h k = refl
text_eq-nil (c ∷ prev) latest h k = cc

module _ (number_of : Text → Number) where
  -- Behind a version that is known, and not declined for this very version.
  abbrev pub is_offered : Text → Option Json → Text → Bool
  is_offered cli prev latest =
      is_semver latest
      && version_lt number_of cli latest
      && not (text_eq (prev_latest prev) latest && declined prev)

  decide-latest :
      (cli prev : Text) (flag : Option Bool) (offer : Offer)
      → (decide number_of cli prev flag offer).latest ≡ offer.latest
  unfolding decide
  decide-latest cli prev flag offer =
      elim (Bool-cases (is_semver offer.latest && version_lt number_of cli offer.latest)) [
        | inl behind ↦ elim (Bool-cases (not (is_set prev) || not (text_eq prev offer.latest))) [
          | inl first ↦ rw (behind, first) refl
          | inr again ↦ rw (behind, again) refl
        ]
        | inr level ↦ elim (Bool-cases (is_semver offer.latest)) [
          | inl known ↦ rw (level, known) refl
          | inr other ↦ rw (level, other) refl
        ]
      ]

  decide-suggest :
      (cli prev : Text) (flag : Option Bool) (offer : Offer)
      → (is_semver offer.latest ≡ false → offer.suggest ≡ false)
      → (decide number_of cli prev flag offer).suggest ≡ (
          is_semver offer.latest
          && version_lt number_of cli offer.latest
          && not (text_eq prev offer.latest && is_no flag))
  unfolding decide
  decide-suggest cli prev flag offer h =
      elim (Bool-cases (is_semver offer.latest && version_lt number_of cli offer.latest)) [
        | inl behind ↦ elim (Bool-cases (not (is_set prev) || not (text_eq prev offer.latest))) [
          | inl first ↦ rw (behind, first) (ground (arith, text_eq-nil prev offer.latest))
          | inr again ↦ rw (behind, again) (ground arith)
        ]
        | inr level ↦ elim (Bool-cases (is_semver offer.latest)) [
          | inl known ↦ rw (level, known) (ground arith)
          | inr other ↦ rw (level, other) (h other ∙ ground arith)
        ]
      ]

  -- `decideSuggestUpgrade` suggests an upgrade exactly if the version that it returns as the latest
  -- is one of the form X.Y.Z, the CLI is behind it, and the last run did not know this very version
  -- with the offer declined.
  pub decide_suggest_upgrade_iff :
      (cli latest : Text) (prev : Option Json)
      → let offer = decide_suggest_upgrade number_of cli latest prev in
        offer.suggest ≡ is_offered cli prev offer.latest
  unfolding decide_suggest_upgrade
  decide_suggest_upgrade_iff cli latest prev =
      let field = cache_field (lit "latest_version_available") prev in
      let flag = prev_flag_of (cache_field (lit "suggest_upgrade") prev) in
      let known = known_latest latest (prev_latest prev) flag in
      rw (decide-latest cli (prev_latest prev) flag known) (
        decide-suggest cli (prev_latest prev) flag known
          (known_latest-other latest (prev_latest prev) flag (prev_latest_of-semver field)))
