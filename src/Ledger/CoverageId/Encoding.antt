-- ===== src/Ledger/CoverageId/Encoding.antt =====
-- Percent-encoding of references: it loses nothing and writes no colon.
use dotfiles_ai.Base.{
  ℕ, ◌+◌, ◌-◌, ◌*◌, ◌≡◌, ◌≢◌, refl, sym, ap, ◌∙◌, true, List, [], ◌∷◌, ◌++◌, arith, ltb, ◌==◌,
  if◌then◌else◌,
}
use dotfiles_ai.Base.Lists.{All, All-append}
use dotfiles_ai.Base.PrefixCode.{concat_map, concat_map-injective}
use dotfiles_ai.Js.Text.{Text, IsUtf16}
use dotfiles_ai.Js.Text.Points.{code_points, from_points, from_points-code_points}
use dotfiles_ai.Js.Utf8.{utf8_point, IsScalar, IsByte, utf8_points-injective, utf8_point-IsByte}
use dotfiles_ai.Ledger.Values.{has_valid_unicode_scalar_values}
use dotfiles_ai.Ledger.CoverageId.{encode_byte, encode_text, join_colons}

hex_value : ℕ → ℕ
hex_value d = if ltb d 58 then d - 48 else d - 55

-- The byte that a percent-encoded text begins with.
read_byte : List ℕ → ℕ
unfolding hex_value
read_byte (a ∷ b ∷ c ∷ s) = if a == b'%' then hex_value b * 16 + hex_value c else a
read_byte (a ∷ s) = a
read_byte [] = 0

read_byte-encode_byte : (b : ℕ) (rest : List ℕ) → IsByte b → read_byte (encode_byte b ++ rest) ≡ b
unfolding read_byte encode_byte
read_byte-encode_byte b rest h = ground arith

encode_byte-ne-nil : (b : ℕ) (rest : List ℕ) → encode_byte b ++ rest ≢ []
unfolding encode_byte
encode_byte-ne-nil b rest = ground arith

-- What `hasValidUnicodeScalarValues` is for: the code points of such a string are scalar values.
pub code_points-IsScalar :
    (s : Text) → IsUtf16 s → has_valid_unicode_scalar_values s ≡ true → All IsScalar (code_points s)
unfolding has_valid_unicode_scalar_values code_points
code_points-IsScalar [] u h = tt
code_points-IsScalar (a ∷ []) u h = ground arith
code_points-IsScalar (a ∷ b ∷ s) u h =
    ground (arith, code_points-IsScalar s u.1.1, code_points-IsScalar (b ∷ s) u.1)

bytes-IsByte : (cs : List ℕ) → All IsScalar cs → All IsByte (concat_map utf8_point cs)
unfolding concat_map
bytes-IsByte [] h = tt
bytes-IsByte (c ∷ cs) h =
    All-append IsByte (utf8_point c) (concat_map utf8_point cs) (utf8_point-IsByte c h.0.0)
      (bytes-IsByte cs h.1)

pub encode_text-injective :
    (s t : Text)
    → IsUtf16 s
    → IsUtf16 t
    → has_valid_unicode_scalar_values s ≡ true
    → has_valid_unicode_scalar_values t ≡ true
    → encode_text s ≡ encode_text t
    → s ≡ t
unfolding encode_text
encode_text-injective s t us ut vs vt h =
    sym (from_points-code_points s us)
    ∙ ap from_points (utf8_points-injective _ _ points_s points_t bytes)
    ∙ from_points-code_points t ut
  where
    points_s : All IsScalar (code_points s)
    points_s = code_points-IsScalar s us vs

    points_t : All IsScalar (code_points t)
    points_t = code_points-IsScalar t ut vt

    bytes : concat_map utf8_point (code_points s) ≡ concat_map utf8_point (code_points t)
    bytes =
        concat_map-injective IsByte encode_byte read_byte encode_byte-ne-nil read_byte-encode_byte _
          _ (bytes-IsByte (code_points s) points_s) (bytes-IsByte (code_points t) points_t) h

abbrev pub HasNoColon : Text → Type 0
HasNoColon s = All (λ c. c ≢ b':') s

encode_byte-HasNoColon : (b : ℕ) → IsByte b → HasNoColon (encode_byte b)
unfolding encode_byte
encode_byte-HasNoColon b h = ground arith

bytes-HasNoColon : (bs : List ℕ) → All IsByte bs → HasNoColon (concat_map encode_byte bs)
unfolding concat_map
bytes-HasNoColon [] h = tt
bytes-HasNoColon (b ∷ bs) h =
    All-append (λ c. c ≢ b':') (encode_byte b) (concat_map encode_byte bs)
      (encode_byte-HasNoColon b h.0) (bytes-HasNoColon bs h.1)

-- An encoded reference holds no colon, so the separator cannot be part of it.
pub encode_text-HasNoColon :
    (s : Text) → IsUtf16 s → has_valid_unicode_scalar_values s ≡ true → HasNoColon (encode_text s)
unfolding encode_text
encode_text-HasNoColon s u v =
    bytes-HasNoColon _ (bytes-IsByte (code_points s) (code_points-IsScalar s u v))

colons_split :
    (a b x y : Text)
    → HasNoColon a
    → HasNoColon b
    → a ++ (b':' ∷ b':' ∷ x) ≡ b ++ (b':' ∷ b':' ∷ y)
    → (a ≡ b) × (x ≡ y)
colons_split [] [] x y p q h = (refl, cc)
colons_split [] (d ∷ b) x y p q h = absurd (q.0 (cc))
colons_split (c ∷ a) [] x y p q h = absurd (p.0 (cc))
colons_split (c ∷ a) (d ∷ b) x y p q h =
    let ih = colons_split a b x y p.1 q.1 (cc) in (cc (ih.0), ih.1)

no_colons : (a b x : Text) → HasNoColon a → a ≢ b ++ (b':' ∷ b':' ∷ x)
no_colons [] [] x p h = cc
no_colons [] (d ∷ b) x p h = cc
no_colons (c ∷ a) [] x p h = p.0 (cc)
no_colons (c ∷ a) (d ∷ b) x p h = no_colons a b x p.1 (cc)

pub join_colons-injective :
    (p q : Text) (ps qs : List Text)
    → All HasNoColon (p ∷ ps)
    → All HasNoColon (q ∷ qs)
    → join_colons (p ∷ ps) ≡ join_colons (q ∷ qs)
    → p ∷ ps ≡ q ∷ qs
unfolding join_colons
join_colons-injective p q [] [] hp hq e = cc
join_colons-injective p q [] (q' ∷ qs) hp hq e = absurd (no_colons p q _ hp.0 e)
join_colons-injective p q (p' ∷ ps) [] hp hq e = absurd (no_colons q p _ hq.0 (sym e))
join_colons-injective p q (p' ∷ ps) (q' ∷ qs) hp hq e =
    let (heads, tails) = colons_split p q _ _ hp.0 hq.0 e in
    cc (heads, join_colons-injective p' q' ps qs hp.1 hq.1 tails)
