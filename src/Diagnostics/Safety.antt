-- ===== src/Diagnostics/Safety.antt =====
-- What `escapeUnsafeDiagnosticCharacters` returns is safe to print.
use dotfiles_ai.Base.{
  ℕ, zero, suc, ◌+◌, ◌-◌, ◌/◌, ◌%◌, ◌<◌, ◌≡◌, refl, ap, ◌∙◌, true, false, ◌&&◌, List, [], ◌∷◌, ◌++◌,
  inl, inr, arith, ltb, leb, within, Bool-cases,
}
use dotfiles_ai.Base.Lists.{All, All-append}
use dotfiles_ai.Js.Text.{Text, IsUtf16, hex_digit, hex4}
use dotfiles_ai.Js.Text.Points.{is_high, is_low, combine, code_points, from_point, from_points}
use dotfiles_ai.Js.Runtime.{Runtime, is_surrogate, is_unsafe, is_unsafe-printable}
use dotfiles_ai.Diagnostics.{hex_onto, escape_point, escape_points, escape}

abbrev IsPoint : ℕ → Type 0
IsPoint c = (c < 0x110000) × (is_surrogate c ≡ false)

code_points-below : (a : ℕ) (s : Text) → is_high a ≡ false → code_points (a ∷ s) ≡ a ∷ code_points s
unfolding code_points
code_points-below a [] h = refl
code_points-below a (b ∷ s) h =
    let single : (is_high a && is_low b) ≡ false = ground arith in rw (single, code_points) refl

code_points-pair :
    (a b : ℕ) (s : Text)
    → (is_high a && is_low b) ≡ true
    → code_points (a ∷ b ∷ s) ≡ combine a b ∷ code_points s
unfolding code_points
code_points-pair a b s h = rw (h, code_points) refl

code_points-from_point :
    (c : ℕ) (s : Text) → IsPoint c → code_points (from_point c ++ s) ≡ c ∷ code_points s
unfolding from_point
code_points-from_point c s h = elim (Bool-cases (leb c 0xffff)) [
  | inl small ↦ rw small (code_points-below c s (ground arith))
  | inr large ↦
      let a = 0xd800 + (c - 0x10000) / 0x400 in
      let b = 0xdc00 + (c - 0x10000) % 0x400 in
      let above : 0xffff < c = ground arith in
      let pair : (is_high a && is_low b) ≡ true = ground (arith, h.0) in
      let same : combine a b ≡ c = omega (arith, h.0) in
      rw large (code_points-pair a b s pair ∙ ap (λ p. p ∷ code_points s) same)
]

code_points-from_points : (cs : List ℕ) → All IsPoint cs → code_points (from_points cs) ≡ cs
unfolding from_points code_points
code_points-from_points [] h = refl
code_points-from_points (c ∷ cs) h =
    code_points-from_point c (from_points cs) h.0 ∙ ap (λ s. c ∷ s) (code_points-from_points cs h.1)

code_points-small : (s : Text) → IsUtf16 s → All (λ c. c < 0x110000) (code_points s)
unfolding code_points
code_points-small [] h = tt
code_points-small (a ∷ []) h = (omega (arith, h.0), tt)
code_points-small (a ∷ b ∷ s) h =
    ground (arith, h.0, h.1.0, code_points-small s h.1.1, code_points-small (b ∷ s) h.1)

abbrev IsPrintable : ℕ → Type 0
IsPrintable c = within 0x20 0x7e c ≡ true

hex_digit-IsPrintable : (d : ℕ) → d < 16 → IsPrintable (hex_digit d)
unfolding hex_digit
hex_digit-IsPrintable d h = ground arith

hex_onto-IsPrintable :
    (fuel n : ℕ) (out : Text) → All IsPrintable out → All IsPrintable (hex_onto fuel n out)
unfolding hex_onto
hex_onto-IsPrintable zero n out h = h
hex_onto-IsPrintable (suc fuel) n out h = elim (Bool-cases (ltb n 16)) [
  | inl few ↦ rw few (hex_digit-IsPrintable n (ground arith), h)
  | inr more ↦
      rw more
        (hex_onto-IsPrintable fuel (n / 16) _ (hex_digit-IsPrintable (n % 16) (omega arith), h))
]

hex4-IsPrintable : (c : ℕ) → c < 0x10000 → All IsPrintable (hex4 c)
unfolding hex4
hex4-IsPrintable c h = (
  hex_digit-IsPrintable (c / 4096) (omega arith),
  (
    hex_digit-IsPrintable (c / 256 % 16) (omega arith),
    (
      hex_digit-IsPrintable (c / 16 % 16) (omega arith),
      (hex_digit-IsPrintable (c % 16) (omega arith), tt),
    ),
  ),
)

escape_point-IsPrintable : (c : ℕ) → All IsPrintable (escape_point c)
unfolding escape_point
escape_point-IsPrintable c = elim (Bool-cases (leb c 0xffff)) [
  | inl small ↦ rw small (refl, (refl, hex4-IsPrintable c (ground arith)))
  | inr large ↦ rw large (
    refl,
    (
      refl,
      (
        refl,
        All-append IsPrintable (hex_onto (c + 1) c []) _ (hex_onto-IsPrintable (c + 1) c [] tt)
            (refl, tt),
      ),
    ),
  )
]

IsPrintable-IsPoint : (c : ℕ) → IsPrintable c → IsPoint c
IsPrintable-IsPoint c h = (ground arith, ground arith)

module _ ⦃rt : Runtime⦄ where
  abbrev IsSafePoint : ℕ → Type 0
  IsSafePoint c = IsPoint c × (is_unsafe c ≡ false)

  printable-safe : (cs : List ℕ) → All IsPrintable cs → All IsSafePoint cs
  printable-safe [] h = tt
  printable-safe (c ∷ cs) h =
      ((IsPrintable-IsPoint c h.0, is_unsafe-printable c h.0), printable-safe cs h.1)

  not_surrogate : (c : ℕ) → is_unsafe c ≡ false → is_surrogate c ≡ false
  unfolding is_unsafe
  not_surrogate c h = ground arith

  escape_points-safe :
      (cs : List ℕ) → All (λ c. c < 0x110000) cs → All IsSafePoint (escape_points cs)
  unfolding escape_points
  escape_points-safe [] h = tt
  escape_points-safe (c ∷ cs) h =
      All-append IsSafePoint _ (escape_points cs)
        (elim (Bool-cases (is_unsafe c)) [
          | inl bad ↦ rw bad (printable-safe _ (escape_point-IsPrintable c))
          | inr fine ↦ rw fine (((h.0, not_surrogate c fine), fine), tt)
        ])
        (escape_points-safe cs h.1)

  points_of : (cs : List ℕ) → All IsSafePoint cs → All IsPoint cs
  points_of [] h = tt
  points_of (c ∷ cs) h = (h.0.0, points_of cs h.1)

  safe_of : (cs : List ℕ) → All IsSafePoint cs → All (λ c. is_unsafe c ≡ false) cs
  safe_of [] h = tt
  safe_of (c ∷ cs) h = (h.0.1, safe_of cs h.1)

  -- No character of an escaped message is a control, format, surrogate, separator or default
  -- ignorable character, whatever string the message was.
  pub is_unsafe-escape :
      (s : Text) → IsUtf16 s → All (λ c. is_unsafe c ≡ false) (code_points (escape s))
  unfolding escape
  is_unsafe-escape s h =
      let safe = escape_points-safe (code_points s) (code_points-small s h) in
      rw (code_points-from_points _ (points_of _ safe)) (safe_of _ safe)
