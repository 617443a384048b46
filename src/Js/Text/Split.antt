-- ===== src/Js/Text/Split.antt =====
-- The parts of `value.split(separator)`.
use mathlib.Core.List.{append_assoc, append-nil}
use dotfiles_ai.Base.{ℕ, ◌≡◌, sym, ap, ◌∙◌, false, true, [], ◌∷◌, ◌++◌, ◌==◌}
use dotfiles_ai.Base.Lists.{All}
use dotfiles_ai.Js.Text.{Text, split_onto, split}

split_onto-part :
    (segment s rest : Text) (sep : ℕ)
    → All (λ c. (c == sep) ≡ false) s
    → (sep == sep) ≡ true
    → split_onto segment sep (s ++ sep ∷ rest) ≡ (segment ++ s) ∷ split_onto [] sep rest
unfolding split_onto
split_onto-part segment [] rest sep h e =
    rw (split_onto, e) (ap (λ t. t ∷ split_onto [] sep rest) (sym (append-nil segment)))
split_onto-part segment (c ∷ s) rest sep h e =
    rw (split_onto, h.0)
      (split_onto-part (segment ++ c ∷ []) s rest sep h.1 e
        ∙ ap (λ t. t ∷ split_onto [] sep rest) (append_assoc segment (c ∷ []) s))

split_onto-last :
    (segment s : Text) (sep : ℕ)
    → All (λ c. (c == sep) ≡ false) s
    → split_onto segment sep s ≡ (segment ++ s) ∷ []
unfolding split_onto
split_onto-last segment [] sep h = ap (λ t. t ∷ []) (sym (append-nil segment))
split_onto-last segment (c ∷ s) sep h =
    rw (split_onto, h.0)
      (split_onto-last (segment ++ c ∷ []) s sep h.1
        ∙ ap (λ t. t ∷ []) (append_assoc segment (c ∷ []) s))

-- The first part is what stands before the first separator.
pub split-part :
    (s rest : Text) (sep : ℕ)
    → All (λ c. (c == sep) ≡ false) s
    → (sep == sep) ≡ true
    → split sep (s ++ sep ∷ rest) ≡ s ∷ split sep rest
unfolding split
split-part s rest sep = split_onto-part [] s rest sep

pub split-last : (s : Text) (sep : ℕ) → All (λ c. (c == sep) ≡ false) s → split sep s ≡ s ∷ []
unfolding split
split-last s sep = split_onto-last [] s sep
