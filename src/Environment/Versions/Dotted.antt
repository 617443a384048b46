-- ===== src/Environment/Versions/Dotted.antt =====
-- What the pattern of a version accepts, and the parts that `split` gives.
-- (dot_agents/skills/jfrog/scripts/check-environment.mjs)
use mathlib.Core.Path.{subst}
use mathlib.Core.List.{append_assoc, append-nil}
use dotfiles_ai.Base.{
  ℕ, ◌≤◌, ◌≡◌, ◌≢◌, refl, sym, ◌∙◌, ap, inl, inr, true, false, ◌&&◌, [], ◌∷◌, ◌++◌, Option, none,
  some, arith, ◌==◌, Bool-cases,
}
use dotfiles_ai.Base.Lists.{All}
use dotfiles_ai.Js.Text.{Text, split}
use dotfiles_ai.Js.Text.Split.{split-part, split-last}
use dotfiles_ai.Js.Strings.{is_digit, is_set}
use dotfiles_ai.Environment.Versions.{
  take_digits, dotted_digits, after_two, semver_at, is_whole_match, is_semver,
}

abbrev pub IsDigit : ℕ → Type 0
IsDigit c = (48 ≤ c) × (c ≤ 57)

abbrev pub IsNumeral : Text → Type 0
IsNumeral s = (s ≢ []) × All IsDigit s

-- Three numerals with full stops between them.
pub record IsVersion (v a b c : Text) : Type 0 where
  pub text : v ≡ a ++ b'.' ∷ b ++ b'.' ∷ c
  pub major : IsNumeral a
  pub minor : IsNumeral b
  pub patch : IsNumeral c

is_digit-IsDigit : (c : ℕ) → is_digit c ≡ true → IsDigit c
unfolding is_digit
is_digit-IsDigit c h = (ground arith, ground arith)

IsDigit-is_digit : (c : ℕ) → IsDigit c → is_digit c ≡ true
unfolding is_digit
IsDigit-is_digit c h = let low = h.0 in let high = h.1 in ground arith

is_set-≢ : (s : Text) → is_set s ≡ true → s ≢ []
unfolding is_set
is_set-≢ [] h = cc
is_set-≢ (c ∷ s) h = λ e. cc

≢-is_set : (s : Text) → s ≢ [] → is_set s ≡ true
unfolding is_set
≢-is_set [] h = absurd (h refl)
≢-is_set (c ∷ s) h = refl

take_digits-append :
    (s rest : Text)
    → All IsDigit s
    → take_digits rest ≡ ([], rest)
    → take_digits (s ++ rest) ≡ (s, rest)
unfolding take_digits
take_digits-append [] rest h none_left = none_left
take_digits-append (c ∷ s) rest h none_left =
    rw (IsDigit-is_digit c h.0, take_digits-append s rest h.1 none_left) refl

append-take_digits : (s : Text) → s ≡ (take_digits s).0 ++ (take_digits s).1
unfolding take_digits
append-take_digits [] = refl
append-take_digits (c ∷ s) = elim (Bool-cases (is_digit c)) [
  | inl digit ↦ rw digit (ap (λ t. c ∷ t) (append-take_digits s))
  | inr other ↦ rw other refl
]

All-take_digits : (s : Text) → All IsDigit (take_digits s).0
unfolding take_digits
All-take_digits [] = tt
All-take_digits (c ∷ s) = elim (Bool-cases (is_digit c)) [
  | inl digit ↦ rw digit (is_digit-IsDigit c digit, All-take_digits s)
  | inr other ↦ rw other tt
]

tail-take_digits : (s : Text) → take_digits (b'.' ∷ s) ≡ ([], b'.' ∷ s)
unfolding take_digits is_digit
tail-take_digits s = refl

dotted_digits-append :
    (matched s rest : Text)
    → IsNumeral s
    → take_digits rest ≡ ([], rest)
    → dotted_digits matched (b'.' ∷ s ++ rest) ≡ some (matched ++ b'.' ∷ s, rest)
unfolding dotted_digits
dotted_digits-append matched s rest h none_left =
    rw (take_digits-append s rest h.1 none_left, ≢-is_set s h.0) refl

semver_at-IsVersion :
    (v a b c : Text) → IsVersion v a b c → semver_at v ≡ some (a ++ b'.' ∷ b ++ b'.' ∷ c, [])
unfolding semver_at
semver_at-IsVersion v a b c h =
    let first = take_digits-append a (b'.' ∷ b ++ b'.' ∷ c) h.major.1 (tail-take_digits _) in
    let second = dotted_digits-append a b (b'.' ∷ c) h.minor (tail-take_digits c) in
    let third =
      ap (λ t. dotted_digits (a ++ b'.' ∷ b) (b'.' ∷ t)) (sym (append-nil c))
      ∙ dotted_digits-append (a ++ b'.' ∷ b) c [] h.patch refl in
    let text = h.text ∙ append_assoc a (b'.' ∷ b) (b'.' ∷ c) in
    rw (text, first, ≢-is_set a h.major.0, second, third) refl

data Dotted (rest matched : Text) (found : Text × Text) : Type 0 where
  dotted :
      (s : Text)
      → IsNumeral s
      → rest ≡ b'.' ∷ s ++ found.1
      → found.0 ≡ matched ++ b'.' ∷ s
      → Dotted rest matched found

Dotted-found :
    (matched : Text) (c : ℕ) (s : Text) (found : Text × Text)
    → (c == b'.' && is_set (take_digits s).0) ≡ true
    → (matched ++ c ∷ (take_digits s).0, (take_digits s).1) ≡ found
    → Dotted (c ∷ s) matched found
Dotted-found matched c s found dot e =
    let digits = (take_digits s).0 in
    let stop : c ≡ b'.' = ground arith in
    let nonempty : is_set digits ≡ true = ground arith in
    subst (λ f. Dotted (c ∷ s) matched f) e
      (dotted digits (is_set-≢ digits nonempty, All-take_digits s)
        (rw stop (ap (λ t. b'.' ∷ t) (append-take_digits s))) (rw stop refl))

dotted_digits-Dotted :
    (matched rest : Text) (found : Text × Text)
    → dotted_digits matched rest ≡ some found
    → Dotted rest matched found
unfolding dotted_digits
dotted_digits-Dotted matched [] found = λ h. cc
dotted_digits-Dotted matched (c ∷ s) found =
    elim (Bool-cases (c == b'.' && is_set (take_digits s).0)) [
      | inr other ↦ rw other (λ h. cc)
      | inl dot ↦ rw dot (λ h. Dotted-found matched c s found dot (cc))
    ]

pub data Parts (v : Text) : Type 0 where
  parts : (a b c : Text) → IsVersion v a b c → Parts v

whole_match : (o : Option (Text × Text)) → is_whole_match o ≡ true → (m : Text) × (o ≡ some (m, []))
whole_match none h = cc
whole_match (some (m, [])) h = (m, refl)
whole_match (some (m, c ∷ s)) h = cc

All-no_stop : (s : Text) → All IsDigit s → All (λ c. (c == b'.') ≡ false) s
All-no_stop [] h = tt
All-no_stop (c ∷ s) h = (let low = h.0.0 in ground arith, All-no_stop s h.1)

pub split-IsVersion : (v a b c : Text) → IsVersion v a b c → split b'.' v ≡ a ∷ b ∷ c ∷ []
split-IsVersion v a b c h = rw (h.text ∙ append_assoc a (b'.' ∷ b) (b'.' ∷ c)) (
    rw
      (
        split-part a (b ++ b'.' ∷ c) b'.' (All-no_stop a h.major.1) refl,
        split-part b c b'.' (All-no_stop b h.minor.1) refl,
        split-last c b'.' (All-no_stop c h.patch.1),
      )
      refl)

pub IsVersion-is_semver : (v a b c : Text) → IsVersion v a b c → is_semver v ≡ true
unfolding is_semver
IsVersion-is_semver v a b c h = rw (semver_at-IsVersion v a b c h) refl

two-Parts :
    (a rest m : Text) (o : Option (Text × Text))
    → IsNumeral a
    → dotted_digits a rest ≡ o
    → after_two o ≡ some (m, [])
    → Parts (a ++ rest)
two-Parts a rest m none h e k = cc
two-Parts a rest m (some (m', r)) h e k = elim (dotted_digits-Dotted a rest (m', r) e) [
  | dotted b nb rest_is first ↦ elim (dotted_digits-Dotted m' r (m, []) k) [
    | dotted c nc r_is second ↦ parts a b c (record {
      text =
          ap (λ t. a ++ t) (rest_is ∙ ap (λ t. (b'.' ∷ b) ++ t) (r_is ∙ append-nil (b'.' ∷ c)))
          ∙ sym (append_assoc a (b'.' ∷ b) (b'.' ∷ c));
      major = h;
      minor = nb;
      patch = nc;
    })
  ]
]

semver_at-Parts : (v m : Text) → semver_at v ≡ some (m, []) → Parts v
unfolding semver_at
semver_at-Parts v m = elim (Bool-cases (is_set (take_digits v).0)) [
  | inr empty ↦ rw empty (λ h. cc)
  | inl set ↦ rw set (λ h. subst Parts (sym (append-take_digits v)) (
      two-Parts (take_digits v).0 (take_digits v).1 m
        (dotted_digits (take_digits v).0 (take_digits v).1) (is_set-≢ _ set, All-take_digits v) refl
        h))
]

-- What the pattern accepts is a version of three numerals.
pub is_semver-Parts : (v : Text) → is_semver v ≡ true → Parts v
unfolding is_semver
is_semver-Parts v h = let whole = whole_match (semver_at v) h in semver_at-Parts v whole.0 whole.1
