-- ===== src/Base/PrefixCode.antt =====
-- Codes that write each number as a block which can be read back off the front of any text.
use Prim.Native.Nat.{ℕ}
use mathlib.Core.Path.{◌≡◌, refl, sym, ap, ◌∙◌}
use mathlib.Core.Logic.{◌≢◌}
use mathlib.Core.List.{List, [], ◌∷◌, ◌++◌}
use dotfiles_ai.Base.Lists.{All}

unfoldable pub concat_map : (ℕ → List ℕ) → List ℕ → List ℕ
concat_map f [] = []
concat_map f (c ∷ cs) = f c ++ concat_map f cs

pub append-cancel : (xs ys zs : List ℕ) → xs ++ ys ≡ xs ++ zs → ys ≡ zs
append-cancel [] ys zs h = h
append-cancel (x ∷ xs) ys zs h = append-cancel xs ys zs (cc)

module _ (Ok : ℕ → Type 0) (f : ℕ → List ℕ) (read : List ℕ → ℕ)
    (nonempty : (c : ℕ) (rest : List ℕ) → f c ++ rest ≢ [])
    (reads : (c : ℕ) (rest : List ℕ) → Ok c → read (f c ++ rest) ≡ c) where
  same_head : (c d : ℕ) (xs ys : List ℕ) → Ok c → Ok d → f c ++ xs ≡ f d ++ ys → c ≡ d
  same_head c d xs ys p q h = sym (reads c xs p) ∙ ap read h ∙ reads d ys q

  pub concat_map-injective :
      (cs ds : List ℕ) → All Ok cs → All Ok ds → concat_map f cs ≡ concat_map f ds → cs ≡ ds
  unfolding concat_map
  concat_map-injective [] [] p q h = refl
  concat_map-injective [] (d ∷ ds) p q h = absurd (nonempty d (concat_map f ds) (sym h))
  concat_map-injective (c ∷ cs) [] p q h = absurd (nonempty c (concat_map f cs) h)
  concat_map-injective (c ∷ cs) (d ∷ ds) p q h =
      let e = same_head c d (concat_map f cs) (concat_map f ds) p.0 q.0 h in
      let tails =
        append-cancel (f c) (concat_map f cs) (concat_map f ds)
          (h ∙ ap (λ x. f x ++ concat_map f ds) (sym e)) in
      cc (e, concat_map-injective cs ds p.1 q.1 tails)
