-- ===== src/Js/Text/Order.antt =====
-- The order of strings by code units is a strict total order.
use dotfiles_ai.Base.{◌≡◌, inl, inr, refl, true, false, [], ◌∷◌, arith, Bool-cases}
use dotfiles_ai.Js.Text.{Text, text_lt}

pub text_lt_irrefl : (s : Text) → text_lt s s ≡ false
unfolding text_lt
text_lt_irrefl [] = refl
text_lt_irrefl (c ∷ s) = ground (arith, text_lt_irrefl s)

pub text_lt_trans : (s t u : Text) → text_lt s t ≡ true → text_lt t u ≡ true → text_lt s u ≡ true
unfolding text_lt
text_lt_trans s t [] h k = cc
text_lt_trans s [] (e ∷ u) h k = cc
text_lt_trans [] (d ∷ t) (e ∷ u) h k = refl
text_lt_trans (c ∷ s) (d ∷ t) (e ∷ u) h k = ground (arith, text_lt_trans s t u)

pub text_lt_total : (s t : Text) → text_lt s t ≡ false → text_lt t s ≡ false → s ≡ t
unfolding text_lt
text_lt_total [] [] h k = refl
text_lt_total [] (d ∷ t) h k = cc
text_lt_total (c ∷ s) [] h k = cc
text_lt_total (c ∷ s) (d ∷ t) h k = ground (arith, text_lt_total s t)

-- What is after `s` is not before it.
pub text_lt_asym : (s t : Text) → text_lt s t ≡ true → text_lt t s ≡ false
text_lt_asym s t h = elim (Bool-cases (text_lt t s)) [
  | inl k ↦ cc (text_lt_irrefl s, text_lt_trans s t s h k)
  | inr k ↦ k
]
