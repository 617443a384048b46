-- ===== src/Environment/Versions/Order.antt =====
-- What `versionLt` compares.
-- (dot_agents/skills/jfrog/scripts/check-environment.mjs)
use mathlib.Core.Path.{subst}
use dotfiles_ai.Base.{
  ℕ, suc, ◌≡◌, refl, sym, ◌∙◌, ◌↔◌, ◌⊎◌, inl, inr, Bool-cases, true, false, not, ◌&&◌, ◌||◌, List,
  [], ◌∷◌, arith,
}
use dotfiles_ai.Js.Text.{Text}
use dotfiles_ai.Js.Number.{Number, ltb_ℤ, eqb_ℤ, number_lt, number_eq}
use dotfiles_ai.Environment.Versions.Dotted.{
  IsVersion, Parts, parts, split-IsVersion, IsVersion-is_semver, is_semver-Parts,
}
use dotfiles_ai.Environment.Versions.{
  parse_version, is_semver, Sign, less, equal, greater, compare_parts, is_less, compare_versions,
  version_lt,
}

number_eq_refl : (x : Number) → number_eq x x ≡ true
unfolding number_eq eqb_ℤ
number_eq_refl x = ground arith

number_eq-≡ : (x y : Number) → number_eq x y ≡ true → x ≡ y
unfolding number_eq eqb_ℤ
number_eq-≡ x y h = ground arith

number_lt_irrefl : (x : Number) → number_lt x x ≡ false
unfolding number_lt ltb_ℤ eqb_ℤ
number_lt_irrefl x = ground arith

is_less-≡ : (s : Sign) → is_less s ≡ true → s ≡ less
is_less-≡ less h = refl
is_less-≡ equal h = cc
is_less-≡ greater h = cc

-- Three numbers stand before three others in the lexicographic order.
abbrev pub Precedes : Number → Number → Number → Number → Number → Number → Type 0
Precedes a b c d e f =
    (number_lt a d ≡ true)
    ⊎ ((a ≡ d) × ((number_lt b e ≡ true) ⊎ ((b ≡ e) × (number_lt c f ≡ true))))

-- One turn of the loop.
compare_parts-step :
    (n : ℕ) (x y : Number) (xs ys : List Number)
    → (compare_parts (suc n) (x ∷ xs) (y ∷ ys) ≡ less)
      ↔ ((number_lt x y ≡ true) ⊎ ((x ≡ y) × (compare_parts n xs ys ≡ less)))
unfolding compare_parts
compare_parts-step n x y xs ys = elim (Bool-cases (number_eq x y)) [
  | inl same ↦
      let e = number_eq-≡ x y same in
      rw same (
        λ h. inr (e, h),
        λ k. elim k [
          | inl lt ↦
              let never = subst (λ z. number_lt z y ≡ true) e lt in
              let no = number_lt_irrefl y in cc
          | inr rest ↦ rest.1
        ],
      )
  | inr differs ↦ rw differs (elim (Bool-cases (number_lt x y)) [
    | inl lt ↦ rw lt (λ h. inl refl, λ k. refl)
    | inr not_lt ↦ rw not_lt (
      λ h. cc,
      λ k. elim k [
        | inl lt ↦ cc
        | inr rest ↦ let is_same = subst (λ z. number_eq x z ≡ true) rest.0 (number_eq_refl x) in cc
      ],
    )
  ])
]

map_later : {A E P Q : Type 0} → (P → Q) → A ⊎ (E × P) → A ⊎ (E × Q)
map_later f (inl a) = inl a
map_later f (inr (e, p)) = inr (e, f p)

last_less :
    (x y : Number)
    → (number_lt x y ≡ true) ⊎ ((x ≡ y) × (compare_parts 0 [] [] ≡ less))
    → number_lt x y ≡ true
unfolding compare_parts
last_less x y (inl lt) = lt
last_less x y (inr rest) = let never = rest.1 in cc

compare_parts_iff :
    (a b c d e f : Number)
    → (compare_parts 3 (a ∷ b ∷ c ∷ []) (d ∷ e ∷ f ∷ []) ≡ less) ↔ Precedes a b c d e f
compare_parts_iff a b c d e f =
    let first = compare_parts-step 2 a d (b ∷ c ∷ []) (e ∷ f ∷ []) in
    let second = compare_parts-step 1 b e (c ∷ []) (f ∷ []) in
    let third = compare_parts-step 0 c f [] [] in
    (
      λ h. map_later (λ k. map_later (λ l. last_less c f (third.0 l)) (second.0 k)) (first.0 h),
      λ h. first.1 (map_later (λ k. second.1 (map_later (λ l. third.1 (inl l)) k)) h),
    )

module _ (number_of : Text → Number) where
  -- Two versions of three numerals, the first before the second in the order of their parts.
  pub data IsEarlier (v w : Text) : Type 0 where
    earlier :
        (a b c d e f : Text)
        → IsVersion v a b c
        → IsVersion w d e f
        → Precedes
            (number_of a)
            (number_of b)
            (number_of c)
            (number_of d)
            (number_of e)
            (number_of f)
        → IsEarlier v w

  compare-parts :
      (v a b c w d e f : Text)
      → IsVersion v a b c
      → IsVersion w d e f
      → compare_versions number_of v w
        ≡ compare_parts 3
            (number_of a ∷ number_of b ∷ number_of c ∷ [])
            (number_of d ∷ number_of e ∷ number_of f ∷ [])
  unfolding compare_versions parse_version
  compare-parts v a b c w d e f h k = rw (split-IsVersion v a b c h, split-IsVersion w d e f k) refl

  version_lt-compare :
      (v w : Text)
      → version_lt number_of v w ≡ true
      → (is_semver v ≡ true) × (is_semver w ≡ true) × (compare_versions number_of v w ≡ less)
  unfolding version_lt
  version_lt-compare v w h =
      let test : (not (not (is_semver v) || not (is_semver w))
            && is_less (compare_versions number_of v w))
          ≡ true =
        ground arith in
      (ground arith, ground arith, is_less-≡ _ (ground arith))

  less-version_lt :
      (v w : Text)
      → is_semver v ≡ true
      → is_semver w ≡ true
      → compare_versions number_of v w ≡ less
      → version_lt number_of v w ≡ true
  unfolding version_lt
  less-version_lt v w h k l = rw (h, k, l) refl

  parts-earlier :
      (v w : Text) → compare_versions number_of v w ≡ less → Parts v → Parts w → IsEarlier v w
  parts-earlier v w h (parts a b c p) (parts d e f q) =
      earlier a b c d e f p q
        ((compare_parts_iff _ _ _ _ _ _).0 (sym (compare-parts v a b c w d e f p q) ∙ h))

  -- `versionLt` is true exactly of two texts that are three numerals each, with full stops between
  -- them and nothing else, of which the first three numbers stand before the second three: the first
  -- number that differs is less, for every way to read numerals as numbers.
  pub version_lt_iff : (v w : Text) → (version_lt number_of v w ≡ true) ↔ IsEarlier v w
  version_lt_iff v w = (
    λ h.
        let (sv, sw, lt) = version_lt-compare v w h in
        parts-earlier v w lt (is_semver-Parts v sv) (is_semver-Parts w sw),
    λ h. elim h [
      | earlier a b c d e f p q before ↦
          less-version_lt v w (IsVersion-is_semver v a b c p) (IsVersion-is_semver w d e f q)
            (compare-parts v a b c w d e f p q ∙ (compare_parts_iff _ _ _ _ _ _).1 before)
    ],
  )
