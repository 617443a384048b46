-- ===== src/Ledger/Attempts/Archive.antt =====
-- What `validateAttempts` accepts, each attempt held against the earlier ones.
-- (dot_agents/skills/security-audit/validate-coverage-ledger.cjs)
use mathlib.Core.Path.{subst}
use dotfiles_ai.Base.{◌≡◌, refl, sym, ◌∙◌, ap, ◌↔◌, true, List, [], ◌∷◌, ◌++◌, none, some}
use dotfiles_ai.Js.Text.{Text, lit}
use dotfiles_ai.Js.Number.{Number, whole}
use dotfiles_ai.Js.Json.{Json, number, string, object, get, Value}
use dotfiles_ai.Js.Runtime.{Runtime}
use dotfiles_ai.Diagnostics.Reports.{AllFrom}
use dotfiles_ai.Ledger.Arrays.{IsListOf}
use dotfiles_ai.Ledger.Attempts.{
  Prior, is_wave, add_artifacts, elements_of, next_wave, next_prior, all_prior, validate_attempts,
}
use dotfiles_ai.Ledger.Attempts.Correct.{
  IsAttempt, IsCurrent, IsArchive, artifact_of, add_artifact-artifact_of,
  validate_attempts-IsArchive,
}
use dotfiles_ai.Ledger.Attempts.History.{owner_told}

abbrev pub number_in : Value → Number
number_in (some (number n)) = n
number_in _ = whole 0

abbrev text_in : Value → List Text
text_in (some (string s)) = s ∷ []
text_in _ = []

-- The wave of the latest of the earlier attempts, or 0. The latest one stands first.
abbrev latest_wave : List Json → Number
latest_wave [] = whole 0
latest_wave (attempt ∷ before) = number_in (get (lit "wave") attempt)

-- The agents of the earlier attempts.
abbrev agents : List Json → List Text
agents [] = []
agents (attempt ∷ before) = text_in (get (lit "agent_id") attempt) ++ agents before

-- The artifacts of the local ones among the earlier checks.
abbrev local_artifacts : List Json → List Text
local_artifacts [] = []
local_artifacts (check ∷ checks) = artifact_of check ++ local_artifacts checks

abbrev earlier : List Json → List Json → Prior
earlier before checks = record {
  owners = agents before;
  artifacts = local_artifacts checks;
  wave = latest_wave before;
}

-- The later ones of two lists, in front of the earlier ones.
abbrev onto : List Json → List Json → List Json
onto [] before = before
onto (v ∷ vs) before = onto vs (v ∷ before)

abbrev with_checks : Json → List Json → List Json
with_checks attempt checks = onto (elements_of (get (lit "local_checks") attempt)) checks

abbrev all_checks : List Json → List Json → List Json
all_checks [] checks = checks
all_checks (attempt ∷ attempts) checks = all_checks attempts (with_checks attempt checks)

add_artifacts-onto :
    (checks seen : List Json)
    → add_artifacts (local_artifacts seen) checks ≡ local_artifacts (onto checks seen)
unfolding add_artifacts
add_artifacts-onto [] seen = refl
add_artifacts-onto (check ∷ checks) seen =
    rw (add_artifact-artifact_of (local_artifacts seen) check)
      (add_artifacts-onto checks (check ∷ seen))

next_wave-number_in :
    (previous : Number) (v : Value) → is_wave v ≡ true → next_wave previous v ≡ number_in v
unfolding next_wave is_wave
next_wave-number_in previous (some (number n)) h = rw h refl
next_wave-number_in previous none h = cc
next_wave-number_in previous (some _) h = cc

Prior-≡ : (a b : Prior) → a.owners ≡ b.owners → a.artifacts ≡ b.artifacts → a.wave ≡ b.wave → a ≡ b
Prior-≡ a b h k l = cc

module _ ⦃rt : Runtime⦄ where
  -- Each attempt fits the earlier ones: its wave is above the latest, its owner is none of theirs, and
  -- its checks are by none of their owners and have none of the artifacts of earlier local checks.
  abbrev pub FitFrom : Value → List Json → List Json → List Json → Type 0
  FitFrom unit_wave before checks [] = Unit
  FitFrom unit_wave before checks (attempt ∷ attempts) =
      IsAttempt unit_wave (earlier before checks) attempt
      × FitFrom unit_wave (attempt ∷ before) (with_checks attempt checks) attempts

  -- The attempts of a unit fit one after the other, and the unit fits them all.
  abbrev pub FitTogether : Json → List Json → Type 0
  FitTogether unit attempts =
      FitFrom (get (lit "wave") unit) [] [] attempts
      × IsCurrent (earlier (onto attempts []) (all_checks attempts [])) unit

  next_prior-earlier :
      (u : Value) (before checks : List Json) (attempt : Json)
      → IsAttempt u (earlier before checks) attempt
      → next_prior (earlier before checks) attempt
        ≡ earlier (attempt ∷ before) (with_checks attempt checks)
  unfolding next_prior
  next_prior-earlier u before checks (object fs) h =
      let (s, is_s, fresh, added) =
        owner_told (agents before) (get (lit "agent_id") (object fs)) h.owner in
      Prior-≡ _ _ (added ∙ ap (λ v. text_in v ++ agents before) (sym is_s))
        (add_artifacts-onto (elements_of (get (lit "local_checks") (object fs))) checks)
        (next_wave-number_in _ _ h.wave.positive)
  next_prior-earlier u before checks _ h = let (fs, e) = h.is_object in absurd (cc)

  FitFrom-iff :
      (u : Value) (before checks attempts : List Json)
      → AllFrom (IsAttempt u) next_prior (earlier before checks) attempts
        ↔ FitFrom u before checks attempts
  FitFrom-iff u before checks [] = (λ h. h, λ h. h)
  FitFrom-iff u before checks (attempt ∷ attempts) =
      let rest = FitFrom-iff u (attempt ∷ before) (with_checks attempt checks) attempts in
      (
        λ h. (
          h.0,
          rest.0 (
              subst (λ p. AllFrom (IsAttempt u) next_prior p attempts)
                (next_prior-earlier u before checks attempt h.0) h.1),
        ),
        λ h. (
          h.0,
          subst (λ p. AllFrom (IsAttempt u) next_prior p attempts)
              (sym (next_prior-earlier u before checks attempt h.0)) (rest.1 h.1),
        ),
      )

  all_prior-earlier :
      (u : Value) (before checks attempts : List Json)
      → FitFrom u before checks attempts
      → all_prior (earlier before checks) attempts
        ≡ earlier (onto attempts before) (all_checks attempts checks)
  unfolding all_prior
  all_prior-earlier u before checks [] h = refl
  all_prior-earlier u before checks (attempt ∷ attempts) h =
      rw (next_prior-earlier u before checks attempt h.0)
        (all_prior-earlier u (attempt ∷ before) (with_checks attempt checks) attempts h.1)

  FitTogether-iff :
      (unit : Json) (attempts : List Json) → IsArchive unit attempts ↔ FitTogether unit attempts
  FitTogether-iff unit attempts =
      let u = get (lit "wave") unit in
      let each = FitFrom-iff u [] [] attempts in
      (
        λ h.
            let fits = each.0 h.0 in
            (fits, subst (λ p. IsCurrent p unit) (all_prior-earlier u [] [] attempts fits) h.1),
        λ h. (
          each.1 h.0,
          subst (λ p. IsCurrent p unit) (sym (all_prior-earlier u [] [] attempts h.0)) h.1,
        ),
      )

  list_iff :
      (P Q : List Json → Type 0) (v : Value)
      → ((vs : List Json) → P vs ↔ Q vs)
      → IsListOf P v ↔ IsListOf Q v
  list_iff P Q v h = (
    λ l. record {
      elements = l.elements;
      is_array = l.is_array;
      at_most = l.at_most;
      all = (h l.elements).0 l.all;
    },
    λ l. record {
      elements = l.elements;
      is_array = l.is_array;
      at_most = l.at_most;
      all = (h l.elements).1 l.all;
    },
  )

  -- `validateAttempts` adds no error exactly if the value is an array of at most 1000 attempts that
  -- are well formed and fit the ones before them, and the unit fits them all. An attempt fits if its
  -- wave is above that of the attempt before it and below the unit's, if that is an integer, its agent is none of theirs, no
  -- check in it is by one of their agents, and no check in it has the artifact of a local check of an
  -- earlier attempt or one before it in the same attempt. The unit's agent, where it is a safe ID,
  -- and its checks are held against all attempts in the same way, its checks not against each other.
  pub validate_attempts_iff :
      (v : Value) (unit : Json) (base : Text)
      → (validate_attempts v unit base [] ≡ []) ↔ IsListOf (FitTogether unit) v
  validate_attempts_iff v unit base =
      let inner = validate_attempts-IsArchive v unit base in
      let outer = list_iff (IsArchive unit) (FitTogether unit) v (FitTogether-iff unit) in
      (λ e. outer.0 (inner.0 e), λ l. inner.1 (outer.1 l))
