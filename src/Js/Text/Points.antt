-- ===== src/Js/Text/Points.antt =====
-- Code points of a UTF-16 string, which a regular expression with the flag `u` walks, and back.
use dotfiles_ai.Base.{
  ℕ, ◌+◌, ◌-◌, ◌*◌, ◌/◌, ◌%◌, ◌<◌, ◌≡◌, refl, Bool, true, false, ◌&&◌, List, [], ◌∷◌, ◌++◌, inl,
  inr, arith, leb, if◌then◌else◌, within, Bool-cases,
}
use dotfiles_ai.Base.Lists.{All}

abbrev pub is_high : ℕ → Bool
is_high c = within 0xd800 0xdbff c

abbrev pub is_low : ℕ → Bool
is_low c = within 0xdc00 0xdfff c

abbrev pub combine : ℕ → ℕ → ℕ
combine a b = 0x10000 + (a - 0xd800) * 0x400 + (b - 0xdc00)

unfoldable pub code_points : List ℕ → List ℕ
code_points [] = []
code_points (a ∷ []) = a ∷ []
code_points (a ∷ b ∷ s) = elim (is_high a && is_low b) [
  | true ↦ combine a b ∷ code_points s
  | false ↦ a ∷ code_points (b ∷ s)
]

-- `String.fromCodePoint`.
unfoldable pub from_point : ℕ → List ℕ
from_point c =
    if leb c 0xffff
    then c ∷ []
    else (0xd800 + (c - 0x10000) / 0x400) ∷ (0xdc00 + (c - 0x10000) % 0x400) ∷ []

unfoldable pub from_points : List ℕ → List ℕ
unfolding from_point
from_points [] = []
from_points (c ∷ cs) = from_point c ++ from_points cs

from_point_unit : (a : ℕ) → a < 0x10000 → from_point a ≡ a ∷ []
unfolding from_point
from_point_unit a h = ground arith

from_point-combine :
    (a b : ℕ) → (is_high a && is_low b) ≡ true → from_point (combine a b) ≡ a ∷ b ∷ []
unfolding from_point
from_point-combine a b h = ground arith

-- No string loses anything when it is read as code points.
pub from_points-code_points :
    (s : List ℕ) → All (λ c. c < 0x10000) s → from_points (code_points s) ≡ s
unfolding from_points code_points
from_points-code_points [] h = refl
from_points-code_points (a ∷ []) h = rw (from_point_unit a h.0)
from_points-code_points (a ∷ b ∷ s) h = elim (Bool-cases (is_high a && is_low b)) [
  | inl pair ↦
      rw (pair, code_points) (rw (from_point-combine a b pair, from_points-code_points s h.1.1))
  | inr single ↦
      rw (single, code_points) (rw (from_point_unit a h.0, from_points-code_points (b ∷ s) h.1))
]
