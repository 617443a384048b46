-- ===== src/Findings/Semantic/Order.antt =====
-- The block on fingerprints accepts exactly the lists of findings whose fingerprints ascend.
-- (dot_agents/skills/security-audit/validate-findings.cjs)
use dotfiles_ai.Base.{
  ℕ, ◌≡◌, ◌≢◌, refl, sym, ◌↔◌, ◌⊎◌, inl, inr, true, false, List, [], ◌∷◌, Option, none, some,
  Bool-cases, Option-cases,
}
use dotfiles_ai.Js.Text.{Text, lit, text_eq, text_eq_iff, text_lt}
use dotfiles_ai.Js.Text.Order.{text_lt_irrefl, text_lt_trans, text_lt_total, text_lt_asym}
use dotfiles_ai.Js.Json.{Json, null, boolean, number, string, array, object, get, Value}
use dotfiles_ai.Js.Runtime.{Runtime}
use dotfiles_ai.Diagnostics.Reports.{
  Reports, Reports-map, Reports-seq, Reports-pass, Reports-reject, Reports-report_if, AllFrom,
  report, report_if, pass,
}
use dotfiles_ai.Findings.Semantic.{
  Fingerprints, index_of, add_known, known_after, remember_value, remember, report_fingerprint,
}

abbrev NotBefore : Option Text → Text → Type 0
NotBefore none s = Unit
NotBefore (some t) s = text_lt s t ≡ false

-- What the block asks of a fingerprint in a state of the variables.
abbrev pub FitsState : Fingerprints → Value → Type 0
FitsState state (some (string s)) = (index_of s state.known ≡ none) × NotBefore state.previous s
FitsState state _ = Unit

-- The fingerprint comes after the one before it, if there is one.
abbrev pub After : Option Text → Text → Type 0
After none s = Unit
After (some t) s = text_lt t s ≡ true

-- A fingerprint, if there is one, comes after the one before it, and the rest goes on from it.
unfoldable pub AscendsWith : Value → Option Text → (Option Text → Type 0) → Type 0
AscendsWith (some (string s)) previous rest = After previous s × rest (some s)
AscendsWith _ previous rest = rest previous

-- The fingerprints of the findings that have one ascend, from `previous` on.
unfoldable pub Ascends : Option Text → List Json → Type 0
unfolding lit AscendsWith
Ascends previous [] = Unit
Ascends previous (finding ∷ findings) =
    AscendsWith (get (lit "fingerprint") finding) previous (λ next. Ascends next findings)

-- In the state the last fingerprint is known, and every other that is known comes before it.
abbrev pub IsLatest : Option Text → List (Text × ℕ) → Type 0
IsLatest none known = (u : Text) → index_of u known ≡ none
IsLatest (some t) known =
    (index_of t known ≢ none)
    × ((u : Text) → index_of u known ≢ none → (u ≡ t) ⊎ (text_lt u t ≡ true))

After-fits :
    (previous : Option Text) (known : List (Text × ℕ)) (s : Text)
    → IsLatest previous known
    → ((index_of s known ≡ none) × NotBefore previous s) ↔ After previous s
After-fits none known s h = (λ _. tt, λ _. (h s, tt))
After-fits (some t) known s h = (
  λ f. elim (Bool-cases (text_lt t s)) [
    | inl later ↦ later
    | inr not_later ↦
        let same : s ≡ t = text_lt_total s t f.1 not_later in absurd (h.0 (rw same at f.0))
  ],
  λ later. (
    elim (Option-cases (index_of s known)) [
      | inl new ↦ new
      | inr (i, old) ↦ elim (h.1 s (λ e. cc)) [
        | inl same ↦
            let never : text_lt t t ≡ false = text_lt_irrefl t in
            let later_itself : text_lt t t ≡ true = rw same at later in cc
        | inr before ↦ let never = text_lt_asym s t before in cc
      ]
    ],
    text_lt_asym t s later,
  ),
)

-- What is known comes before a fingerprint that comes after the last one.
latest-before :
    (previous : Option Text) (known : List (Text × ℕ)) (s u : Text)
    → IsLatest previous known
    → After previous s
    → index_of u known ≢ none
    → text_lt u s ≡ true
latest-before none known s u h later found = absurd (found (h u))
latest-before (some t) known s u h later found = elim (h.1 u found) [
  | inl same ↦ rw same later
  | inr before ↦ text_lt_trans u t s before later
]

-- A fingerprint that comes after the others becomes the last one.
IsLatest-After :
    (state : Fingerprints) (s : Text)
    → IsLatest state.previous state.known
    → index_of s state.known ≡ none
    → After state.previous s
    → IsLatest (some s) (known_after s state)
unfolding add_known index_of
IsLatest-After state s h new later = rw new (
  (λ e. let self = (text_eq_iff s s).1 refl in let found = rw self at e in cc),
  λ u found. elim (Bool-cases (text_eq s u)) [
    | inl same ↦ inl (sym ((text_eq_iff s u).0 same))
    | inr other ↦
        inr (latest-before state.previous state.known s u h later (λ e. found (rw other e)))
  ],
)

unfoldable pub FitsFinding : Fingerprints → Json → Type 0
unfolding lit
FitsFinding state finding = FitsState state (get (lit "fingerprint") finding)

fits_value :
    (state : Fingerprints) (v : Value) (findings : List Json)
    → IsLatest state.previous state.known
    → ((next : Fingerprints)
        → IsLatest next.previous next.known
        → AllFrom FitsFinding remember next findings ↔ Ascends next.previous findings)
    → (FitsState state v × AllFrom FitsFinding remember (remember_value state v) findings)
      ↔ AscendsWith v state.previous (λ next. Ascends next findings)
unfolding AscendsWith remember_value
fits_value state (some (string s)) findings h k =
    let here = After-fits state.previous state.known s h in
    let next = remember_value state (some (string s)) in
    (
      λ f. let later = here.0 f.0 in (later, (k next (IsLatest-After state s h f.0.0 later)).0 f.1),
      λ a. let fits = here.1 a.0 in (fits, (k next (IsLatest-After state s h fits.0 a.0)).1 a.1),
    )
fits_value state none findings h k =
    let rest = k (remember_value state none) h in (λ f. rest.0 f.1, λ a. (tt, rest.1 a))
fits_value state (some null) findings h k =
    let rest = k (remember_value state (some null)) h in (λ f. rest.0 f.1, λ a. (tt, rest.1 a))
fits_value state (some (boolean b)) findings h k =
    let rest = k (remember_value state (some (boolean b))) h in
    (λ f. rest.0 f.1, λ a. (tt, rest.1 a))
fits_value state (some (number n)) findings h k =
    let rest = k (remember_value state (some (number n))) h in
    (λ f. rest.0 f.1, λ a. (tt, rest.1 a))
fits_value state (some (array vs)) findings h k =
    let rest = k (remember_value state (some (array vs))) h in
    (λ f. rest.0 f.1, λ a. (tt, rest.1 a))
fits_value state (some (object fs)) findings h k =
    let rest = k (remember_value state (some (object fs))) h in
    (λ f. rest.0 f.1, λ a. (tt, rest.1 a))

pub fits_iff :
    (state : Fingerprints) (findings : List Json)
    → IsLatest state.previous state.known
    → AllFrom FitsFinding remember state findings ↔ Ascends state.previous findings
unfolding Ascends remember FitsFinding
fits_iff state [] h = (λ _. tt, λ _. tt)
fits_iff state (finding ∷ findings) h =
    fits_value state (get (lit "fingerprint") finding) findings h
      (λ next k. fits_iff next findings k)

module _ ⦃rt : Runtime⦄ where
  report_known-Reports :
      (o : Option ℕ) (message : ℕ → Text)
      → Reports (elim o [ none ↦ pass | some i ↦ report (message i) ]) (o ≡ none)
  report_known-Reports none message = Reports-map Reports-pass (λ _. refl) (λ _. tt)
  report_known-Reports (some i) message = Reports-reject _ (λ e. cc)

  report_before-Reports :
      (previous : Option Text) (s message : Text)
      → Reports
          (elim previous [ none ↦ pass | some t ↦ report_if (text_lt s t) message ])
          (NotBefore previous s)
  report_before-Reports none s message = Reports-pass
  report_before-Reports (some t) s message = Reports-report_if (text_lt s t) message

  pub report_fingerprint-Reports :
      (state : Fingerprints) (v : Value) (base : Text)
      → Reports (report_fingerprint state v base) (FitsState state v)
  unfolding report_fingerprint
  report_fingerprint-Reports state (some (string s)) base =
      Reports-seq (report_known-Reports (index_of s state.known) _)
        (report_before-Reports state.previous s _)
  report_fingerprint-Reports state none base = Reports-pass
  report_fingerprint-Reports state (some _) base = Reports-pass
