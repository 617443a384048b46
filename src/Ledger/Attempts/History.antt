-- ===== src/Ledger/Attempts/History.antt =====
-- What an accepted archive says of a unit: its waves go up, and no agent is assigned twice.
use mathlib.Core.Path.{ap₂, subst, subst₂}
use dotfiles_ai.Base.{
  ℕ, suc, ◌<◌, ◌≡◌, refl, sym, ap, ◌∙◌, true, false, ◌&&◌, List, [], ◌∷◌, map, none, some, arith,
  leb, and-eq-true,
}
use dotfiles_ai.Base.Lists.{All}
use dotfiles_ai.Js.Text.{Text, lit, contains, contains-cons, Distinct, unseen_cons}
use dotfiles_ai.Js.Number.{Number, whole, is_integer, number_le, positive_whole, number_le-whole}
use dotfiles_ai.Js.Json.{Json, number, string, object, get, Value, array, from_items}
use dotfiles_ai.Js.Runtime.{Runtime}
use dotfiles_ai.Diagnostics.Reports.{AllFrom}
use dotfiles_ai.Ledger.Values.{is_safe_agent_id}
use dotfiles_ai.Ledger.Attempts.{
  Prior, no_prior, has_value, is_wave, wave_at_most, wave_reaches, next_wave, add_owner, next_prior,
  all_prior, validate_attempts,
}
use dotfiles_ai.Ledger.Attempts.Correct.{
  WaveOk, OwnerOk, IsAttempt, IsArchive, validate_attempts-IsArchive,
}

abbrev pub wave_value : ℕ → Value
wave_value k = some (number (whole k))

abbrev pub text_value : Text → Value
text_value s = some (string s)

-- Each number is above the one before it, the first above `n`.
abbrev pub Increasing : ℕ → List ℕ → Type 0
Increasing n [] = Unit
Increasing n (k ∷ ks) = (n < k) × Increasing k ks

record Told (unit_wave : Value) (n : ℕ) (prior : Prior) (attempts : List Json) : Type 0 where
  waves : List ℕ
  owners : List Text
  wave_of : map (get (lit "wave")) attempts ≡ map wave_value waves
  owner_of : map (get (lit "agent_id")) attempts ≡ map text_value owners
  increasing : Increasing n waves
  precede : (m : ℕ) → unit_wave ≡ wave_value m → All (λ k. k < m) waves
  distinct : Distinct owners
  unseen : All (λ o. contains o prior.owners ≡ false) owners
  current :
      (s : Text)
      → contains s (all_prior prior attempts).owners ≡ false
      → (contains s owners ≡ false) × (contains s prior.owners ≡ false)

le_false : (a b : ℕ) → leb a b ≡ false → b < a
le_false a b h = ground arith

precedes_lem :
    (u : Value) (w : Number) (m : ℕ) {k : ℕ}
    → u ≡ wave_value m
    → wave_reaches (some (number w)) u ≡ false
    → w ≡ whole k
    → number_le (whole m) (whole k) ≡ false
unfolding wave_reaches is_integer
precedes_lem u w m {k} at h e = subst₂ (λ x v. wave_reaches (some (number x)) v ≡ false) e at h

wave_told :
    (unit_wave : Value) (n : ℕ) (wave : Value)
    → WaveOk unit_wave (whole n) wave
    → (k : ℕ) × (wave ≡ wave_value k)
      × (n < k)
      × (next_wave (whole n) wave ≡ whole k)
      × ((m : ℕ) → unit_wave ≡ wave_value m → k < m)
unfolding is_wave wave_at_most wave_reaches next_wave
wave_told u n (some (number w)) ok =
    let (integral, low) = and-eq-true _ _ ok.positive in
    let (k, e) = positive_whole w integral (ground arith) in
    (
      suc k,
      ap (λ x. some (number x)) e,
      le_false _ _ (sym (number_le-whole (suc k) n) ∙ (rw e at ok.increases)),
      rw (integral, low) e,
      λ m at.
          let reached : number_le (whole m) (whole (suc k)) ≡ false =
            precedes_lem u w m at ok.precedes e in
          le_false _ _ (sym (number_le-whole m (suc k)) ∙ reached),
    )
wave_told u n none ok = cc (ok.positive)
wave_told u n (some _) ok = cc (ok.positive)

pub owner_told :
    (owners : List Text) (v : Value)
    → OwnerOk owners v
    → (s : Text) × (v ≡ text_value s)
      × (contains s owners ≡ false)
      × (add_owner owners v ≡ s ∷ owners)
unfolding is_safe_agent_id has_value add_owner
owner_told owners (some (string s)) ok = (s, refl, ok.fresh, ground arith)
owner_told owners none ok = cc (ok.safe)
owner_told owners (some _) ok = cc (ok.safe)

module _ ⦃rt : Runtime⦄ where
  Told-cons :
      (u : Value) (n : ℕ) (prior : Prior) (attempt : Json) (attempts : List Json)
      → prior.wave ≡ whole n
      → IsAttempt u prior attempt
      → ((k : ℕ)
          → (next_prior prior attempt).wave ≡ whole k
          → Told u k (next_prior prior attempt) attempts)
      → Told u n prior (attempt ∷ attempts)
  unfolding next_prior all_prior
  Told-cons u n prior (object fs) attempts at h rest =
      let attempt = object fs in
      let wave = get (lit "wave") attempt in
      let (k, is_k, above, next, before) =
        wave_told u n wave (subst (λ p. WaveOk u p wave) at h.wave) in
      let (s, is_s, fresh, added) =
        owner_told prior.owners (get (lit "agent_id") attempt) h.owner in
      let r = rest k (ap (λ p. next_wave p wave) at ∙ next) in
      let (others, unseen) =
        unseen_cons s prior.owners r.owners
          (subst (λ os. All (λ o. contains o os ≡ false) r.owners) added r.unseen) in
      record {
        waves = k ∷ r.waves;
        owners = s ∷ r.owners;
        wave_of = ap₂ (λ v vs. v ∷ vs) is_k r.wave_of;
        owner_of = ap₂ (λ v vs. v ∷ vs) is_s r.owner_of;
        increasing = (above, r.increasing);
        precede = λ m e. (before m e, r.precede m e);
        distinct = (others, r.distinct);
        unseen = (fresh, unseen);
        current = λ t c.
            let (later, now) = r.current t c in
            let (ne, earlier) =
              (contains-cons t s prior.owners).0 (subst (λ os. contains t os ≡ false) added now) in
            ((contains-cons t s r.owners).1 (ne, later), earlier);
      }
  Told-cons u n prior _ attempts at h rest = let (fs, e) = h.is_object in absurd (cc)

  told :
      (u : Value) (n : ℕ) (prior : Prior) (attempts : List Json)
      → prior.wave ≡ whole n
      → AllFrom (IsAttempt u) next_prior prior attempts
      → Told u n prior attempts
  unfolding all_prior contains
  told u n prior [] at h = record {
    waves = [];
    owners = [];
    wave_of = refl;
    owner_of = refl;
    increasing = tt;
    precede = λ m e. tt;
    distinct = tt;
    unseen = tt;
    current = λ s k. (refl, k);
  }
  told u n prior (attempt ∷ attempts) at h =
      Told-cons u n prior attempt attempts at h.0
        (λ k e. told u k (next_prior prior attempt) attempts e h.1)

  -- What an archive that passes says of the unit.
  pub record History (unit : Json) (attempts : List Json) : Type 0 where
    pub waves : List ℕ
    pub owners : List Text
    pub wave_of : map (get (lit "wave")) attempts ≡ map wave_value waves
    pub owner_of : map (get (lit "agent_id")) attempts ≡ map text_value owners
    pub increasing : Increasing 0 waves
    pub precede : (m : ℕ) → get (lit "wave") unit ≡ wave_value m → All (λ k. k < m) waves
    pub distinct : Distinct owners
    pub reassigned :
        (s : Text)
        → get (lit "agent_id") unit ≡ text_value s
        → is_safe_agent_id (text_value s) ≡ true
        → contains s owners ≡ false

  current_owner :
      (unit : Json) (owners : List Text) (s : Text)
      → get (lit "agent_id") unit ≡ text_value s
      → is_safe_agent_id (text_value s) ≡ true
      → (is_safe_agent_id (get (lit "agent_id") unit)
          && has_value owners (get (lit "agent_id") unit))
        ≡ false
      → contains s owners ≡ false
  unfolding has_value
  current_owner unit owners s e safe h =
      let found : (is_safe_agent_id (text_value s) && contains s owners) ≡ false =
        subst (λ v. (is_safe_agent_id v && has_value owners v) ≡ false) e h in
      ground arith

  -- The waves of an accepted archive are positive, go up strictly and stay below the unit's wave;
  -- its owners are pairwise different, and none of them is the unit's present owner.
  IsArchive-History :
      (unit : Json) (attempts : List Json) → IsArchive unit attempts → History unit attempts
  IsArchive-History unit attempts (entries, current) =
      let t = told (get (lit "wave") unit) 0 no_prior attempts refl entries in
      record {
        waves = t.waves;
        owners = t.owners;
        wave_of = t.wave_of;
        owner_of = t.owner_of;
        increasing = t.increasing;
        precede = t.precede;
        distinct = t.distinct;
        reassigned = λ s e safe. (t.current s (current_owner unit _ s e safe current.owner)).0;
      }

  -- If `validateAttempts` adds no error, the value is an array of attempts whose waves are
  -- positive, go up strictly and stay below the unit's wave, and whose owners are pairwise
  -- different; a unit with an owner that is a safe ID has one that owned none of the attempts.
  pub validate_attempts-History :
      (v : Value) (unit : Json) (base : Text)
      → validate_attempts v unit base [] ≡ []
      → (attempts : List Json) × (v ≡ some (array (from_items attempts))) × History unit attempts
  validate_attempts-History v unit base h =
      let archive = (validate_attempts-IsArchive v unit base).0 h in
      (archive.elements, archive.is_array, IsArchive-History unit archive.elements archive.all)
