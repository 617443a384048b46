-- ===== src/Js/Utf8.antt =====
-- `Buffer.from(value, "utf8")`: a lone surrogate is written as U+FFFD.
use dotfiles_ai.Base.{
  ℕ, zero, suc, ◌+◌, ◌-◌, ◌*◌, ◌/◌, ◌%◌, ◌<◌, ◌≡◌, ◌≢◌, false, List, [], ◌∷◌, ◌++◌, arith, ltb,
  if◌then◌else◌, within,
}
use dotfiles_ai.Base.Lists.{All}
use dotfiles_ai.Base.PrefixCode.{concat_map, concat_map-injective}
use dotfiles_ai.Js.Text.{Text}
use dotfiles_ai.Js.Text.Points.{code_points}

unfoldable pub utf8_point : ℕ → List ℕ
utf8_point c =
    if ltb c 0x80
    then c ∷ []
    else if ltb c 0x800
    then (0xc0 + c / 64) ∷ (0x80 + c % 64) ∷ []
    else if within 0xd800 0xdfff c
    then 0xef ∷ 0xbf ∷ 0xbd ∷ []
    else if ltb c 0x10000
    then (0xe0 + c / 4096) ∷ (0x80 + c / 64 % 64) ∷ (0x80 + c % 64) ∷ []
    else (0xf0 + c / 262144) ∷ (0x80 + c / 4096 % 64) ∷ (0x80 + c / 64 % 64) ∷ (0x80 + c % 64) ∷ []

unfoldable pub utf8 : Text → List ℕ
unfolding utf8_point concat_map code_points
utf8 s = concat_map utf8_point (code_points s)

-- A Unicode scalar value.
abbrev pub IsScalar : ℕ → Type 0
IsScalar c = (c < 0x110000) × (within 0xd800 0xdfff c ≡ false)

byte_at : ℕ → List ℕ → ℕ
byte_at i [] = 0
byte_at zero (b ∷ s) = b
byte_at (suc i) (b ∷ s) = byte_at i s

-- The scalar value at the front of well-formed UTF-8.
read_point : List ℕ → ℕ
unfolding byte_at
read_point s =
    let a = byte_at 0 s in
    let b = byte_at 1 s in
    let c = byte_at 2 s in
    let d = byte_at 3 s in
    if ltb a 0x80
    then a
    else if ltb a 0xe0
    then (a - 0xc0) * 64 + (b - 0x80)
    else if ltb a 0xf0
    then (a - 0xe0) * 4096 + (b - 0x80) * 64 + (c - 0x80)
    else (a - 0xf0) * 262144 + (b - 0x80) * 4096 + (c - 0x80) * 64 + (d - 0x80)

read_point-utf8_point : (c : ℕ) (rest : List ℕ) → IsScalar c → read_point (utf8_point c ++ rest) ≡ c
unfolding read_point utf8_point
read_point-utf8_point c rest h = ground arith

utf8_point-ne-nil : (c : ℕ) (rest : List ℕ) → utf8_point c ++ rest ≢ []
unfolding utf8_point
utf8_point-ne-nil c rest = ground arith

-- Two lists of scalar values with the same UTF-8 form are equal.
pub utf8_points-injective :
    (cs ds : List ℕ)
    → All IsScalar cs
    → All IsScalar ds
    → concat_map utf8_point cs ≡ concat_map utf8_point ds
    → cs ≡ ds
utf8_points-injective =
    concat_map-injective IsScalar utf8_point read_point utf8_point-ne-nil read_point-utf8_point

abbrev pub IsByte : ℕ → Type 0
IsByte b = b < 256

pub utf8_point-IsByte : (c : ℕ) → c < 0x110000 → All IsByte (utf8_point c)
unfolding utf8_point
utf8_point-IsByte c h = ground arith
