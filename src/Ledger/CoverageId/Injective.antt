-- ===== src/Ledger/CoverageId/Injective.antt =====
-- Coverage IDs name their references: no two sets of references share an ID.
use dotfiles_ai.Base.{
  ◌+◌, ◌<◌, ◌≡◌, ◌⊎◌, refl, sym, ap, ◌∙◌, true, List, [], ◌∷◌, ◌++◌, none, some, arith,
  Option-cases, suc, inl, inr,
}
use dotfiles_ai.Base.Lists.{length, All, All-append, length-append}
use dotfiles_ai.Js.Text.{Text, IsUtf16}
use dotfiles_ai.Js.Json.{Json, object, string, get, has_own, Value}
use dotfiles_ai.Js.Runtime.{Runtime}
use dotfiles_ai.Ledger.Values.{
  has_valid_unicode_scalar_values, has_visible_prose, is_visible_text, is_canonical_ref,
}
use dotfiles_ai.Ledger.CoverageId.{
  ref_fields, lifecycle, expected_fields, encode_text, join_colons, encode_canonical_ref,
  encode_fields, canonical_coverage_id,
}
use dotfiles_ai.Ledger.CoverageId.Encoding.{
  HasNoColon, encode_text-injective, encode_text-HasNoColon, join_colons-injective,
}

-- The strings of an object are UTF-16, as all JavaScript strings are.
abbrev pub HasUtf16 : Json → Type 0
HasUtf16 v = (k s : Text) → get k v ≡ some (string s) → IsUtf16 s

module _ ⦃rt : Runtime⦄ where
  encoded_ref :
      (v : Value) (p : Text)
      → encode_canonical_ref v ≡ some p
      → (s : Text) × (v ≡ some (string s))
        × (has_valid_unicode_scalar_values s ≡ true)
        × (p ≡ encode_text s)
  unfolding encode_canonical_ref is_canonical_ref is_visible_text has_visible_prose
  encoded_ref (some (string s)) p h = (s, refl, ground arith, ground arith)
  encoded_ref none p h = cc
  encoded_ref (some _) p h = cc

  encode_fields-cons :
      (a : Json) (f : Text) (fs : List Text) (ps : List Text)
      → encode_fields a (f ∷ fs) ≡ some ps
      → (p : Text) × (qs : List Text) × (encode_canonical_ref (get f a) ≡ some p)
        × (encode_fields a fs ≡ some qs)
        × (p ∷ qs ≡ ps)
  unfolding encode_fields
  encode_fields-cons a f fs ps h = elim (Option-cases (encode_canonical_ref (get f a))) [
    | inl e ↦ absurd (ground arith)
    | inr (p, e) ↦ elim (Option-cases (encode_fields a fs)) [
      | inl e' ↦ absurd (ground arith)
      | inr (qs, e') ↦ (p, qs, e, e', ground arith)
    ]
  ]

  encoded_part-HasNoColon :
      (a : Json) (f p : Text) → HasUtf16 a → encode_canonical_ref (get f a) ≡ some p → HasNoColon p
  encoded_part-HasNoColon a f p u h =
      let (s, e, v, q) = encoded_ref (get f a) p h in rw q (encode_text-HasNoColon s (u f s e) v)

  encode_fields-HasNoColon :
      (a : Json) (fields : List Text) (ps : List Text)
      → HasUtf16 a
      → encode_fields a fields ≡ some ps
      → All HasNoColon ps
  unfolding encode_fields
  encode_fields-HasNoColon a [] ps u h = let e : [] ≡ ps = cc in rw (← e) tt
  encode_fields-HasNoColon a (f ∷ fs) ps u h =
      let (p, qs, hp, hqs, e) = encode_fields-cons a f fs ps h in
      rw (← e) ((encoded_part-HasNoColon a f p u hp, encode_fields-HasNoColon a fs qs u hqs))

  length-encode_fields :
      (a : Json) (fields ps : List Text)
      → encode_fields a fields ≡ some ps
      → length ps ≡ length fields
  unfolding encode_fields
  length-encode_fields a [] ps h = ground arith
  length-encode_fields a (f ∷ fs) ps h =
      let (p, qs, hp, hqs, e) = encode_fields-cons a f fs ps h in
      ap length (sym e) ∙ ap suc (length-encode_fields a fs qs hqs)

  encoded_ref-injective :
      (a b : Json) (f p : Text)
      → HasUtf16 a
      → HasUtf16 b
      → encode_canonical_ref (get f a) ≡ some p
      → encode_canonical_ref (get f b) ≡ some p
      → get f a ≡ get f b
  encoded_ref-injective a b f p u v h k =
      let (s, e, x, q) = encoded_ref (get f a) p h in
      let (t, e', y, q') = encoded_ref (get f b) p k in
      e
      ∙ ap (λ z. some (string z)) (encode_text-injective s t (u f s e) (v f t e') x y (sym q ∙ q'))
      ∙ sym e'

  encode_fields-agree :
      (a b : Json) (fields : List Text) (ps : List Text)
      → HasUtf16 a
      → HasUtf16 b
      → encode_fields a fields ≡ some ps
      → encode_fields b fields ≡ some ps
      → All (λ f. get f a ≡ get f b) fields
  encode_fields-agree a b [] ps u v h k = tt
  encode_fields-agree a b (f ∷ fs) ps u v h k =
      let (p, qs, hp, hqs, e) = encode_fields-cons a f fs ps h in
      let (r, ss, kr, kss, e') = encode_fields-cons b f fs ps k in
      let same : p ∷ qs ≡ r ∷ ss = e ∙ sym e' in
      (
        encoded_ref-injective a b f p u v hp (kr ∙ ap some (cc same)),
        encode_fields-agree a b fs qs u v hqs (kss ∙ ap some (cc same)),
      )

  canonical_coverage_id-parts :
      (a : Json) (id : Text)
      → canonical_coverage_id (some a) ≡ some id
      → (ps : List Text) × (encode_fields a (expected_fields a) ≡ some ps) × (join_colons ps ≡ id)
  unfolding canonical_coverage_id
  canonical_coverage_id-parts (object fs) id h =
      elim (Option-cases (encode_fields (object fs) (expected_fields (object fs)))) [
        | inl e ↦ absurd (ground arith)
        | inr (ps, e) ↦ (ps, e, ground arith)
      ]
  canonical_coverage_id-parts _ id h = cc

  join_colons-injective_lem :
      (ps qs : List Text)
      → 0 < length ps
      → 0 < length qs
      → All HasNoColon ps
      → All HasNoColon qs
      → join_colons ps ≡ join_colons qs
      → ps ≡ qs
  join_colons-injective_lem [] qs l k hp hq e = absurd (omega arith)
  join_colons-injective_lem (p ∷ ps) [] l k hp hq e = absurd (omega arith)
  join_colons-injective_lem (p ∷ ps) (q ∷ qs) l k hp hq e = join_colons-injective p q ps qs hp hq e

  -- The lifecycle is in the ID exactly when it is in the references.
  expected_fields-cases :
      (v : Json)
      → ((get lifecycle v ≡ none) × (expected_fields v ≡ ref_fields))
        ⊎ (expected_fields v ≡ ref_fields ++ lifecycle ∷ [])
  unfolding expected_fields has_own
  expected_fields-cases v = elim (Option-cases (get lifecycle v)) [
    | inl e ↦ inl (e, rw e refl)
    | inr (x, e) ↦ inr (rw e refl)
  ]

  length-expected_fields : length (ref_fields ++ lifecycle ∷ []) ≡ length ref_fields + 1
  length-expected_fields = length-append ref_fields (lifecycle ∷ [])

  differ_in_lifecycle :
      (a b : Json) (ps : List Text)
      → encode_fields a ref_fields ≡ some ps
      → encode_fields b (ref_fields ++ lifecycle ∷ []) ≡ some ps
      → ⊥
  differ_in_lifecycle a b ps ha hb = omega (
    arith,
    length-encode_fields a _ ps ha,
    length-encode_fields b _ ps hb,
    length-expected_fields,
  )

  same_fields :
      (a b : Json) (ps : List Text)
      → HasUtf16 a
      → HasUtf16 b
      → encode_fields a (expected_fields a) ≡ some ps
      → encode_fields b (expected_fields b) ≡ some ps
      → All (λ f. get f a ≡ get f b) (ref_fields ++ lifecycle ∷ [])
  same_fields a b ps u v ha hb = elim (expected_fields-cases a) [
    | inl (na, ea) ↦ elim (expected_fields-cases b) [
      | inl (nb, eb) ↦
          All-append (λ f. get f a ≡ get f b) ref_fields (lifecycle ∷ [])
            (encode_fields-agree a b ref_fields ps u v (rw (← ea) ha) (rw (← eb) hb))
            (na ∙ sym nb, tt)
      | inr eb ↦ absurd (differ_in_lifecycle a b ps (rw (← ea) ha) (rw (← eb) hb))
    ]
    | inr ea ↦ elim (expected_fields-cases b) [
      | inl (nb, eb) ↦ absurd (differ_in_lifecycle b a ps (rw (← eb) hb) (rw (← ea) ha))
      | inr eb ↦ encode_fields-agree a b _ ps u v (rw (← ea) ha) (rw (← eb) hb)
    ]
  ]

  length-ref_fields : length ref_fields ≡ 4
  unfolding ref_fields
  length-ref_fields = refl

  encoded_nonempty :
      (a : Json) (ps : List Text) → encode_fields a (expected_fields a) ≡ some ps → 0 < length ps
  encoded_nonempty a ps h = elim (expected_fields-cases a) [
    | inl (na, e) ↦
        omega (arith, length-encode_fields a ref_fields ps (rw (← e) h), length-ref_fields)
    | inr e ↦ omega (
      arith,
      length-encode_fields a (ref_fields ++ lifecycle ∷ []) ps (rw (← e) h),
      length-expected_fields,
    )
  ]

  -- Two objects of references whose strings are UTF-16 and that have the same coverage ID have the
  -- same surface, boundary, subsystem and attack class, and the same lifecycle or none.
  pub canonical_coverage_id-injective :
      (a b : Json) (id : Text)
      → HasUtf16 a
      → HasUtf16 b
      → canonical_coverage_id (some a) ≡ some id
      → canonical_coverage_id (some b) ≡ some id
      → All (λ f. get f a ≡ get f b) (ref_fields ++ lifecycle ∷ [])
  canonical_coverage_id-injective a b id u v h k =
      let (ps, ha, ja) = canonical_coverage_id-parts a id h in
      let (qs, hb, jb) = canonical_coverage_id-parts b id k in
      let same =
        join_colons-injective_lem ps qs (encoded_nonempty a ps ha) (encoded_nonempty b qs hb)
          (encode_fields-HasNoColon a _ ps u ha) (encode_fields-HasNoColon b _ qs v hb)
          (ja ∙ sym jb) in
      same_fields a b ps u v ha (hb ∙ ap some (sym same))
