-- ===== src/Ledger/CoverageId.antt =====
-- `encodeCanonicalRef` and `canonicalCoverageId`.
-- (dot_agents/skills/security-audit/validate-coverage-ledger.cjs)
mod Encoding
pub mod Injective
use dotfiles_ai.Base.{
  ℕ, ◌+◌, ◌/◌, ◌%◌, Bool, true, false, not, ◌&&◌, ◌||◌, List, [], ◌∷◌, ◌++◌, Option, none, some,
  ltb, ◌==◌, if◌then◌else◌, within,
}
use dotfiles_ai.Base.Lists.{length, any}
use dotfiles_ai.Base.PrefixCode.{concat_map}
use dotfiles_ai.Js.Text.{Text, lit}
use dotfiles_ai.Js.Utf8.{utf8}
use dotfiles_ai.Js.Json.{Json, object, string, keys, get, has_own, Value}
use dotfiles_ai.Js.Runtime.{Runtime}
use dotfiles_ai.Ledger.Values.{is_canonical_ref}

-- `REF_FIELDS`
unfoldable pub ref_fields : List Text
unfolding lit
ref_fields = lit "surface" ∷ lit "boundary" ∷ lit "subsystem" ∷ lit "attack_class" ∷ []

unfoldable pub lifecycle : Text
unfolding lit
lifecycle = lit "lifecycle"

-- the fields that `canonical_refs` has: `REF_FIELDS`, and `lifecycle` if it is there
unfoldable pub expected_fields : Json → List Text
expected_fields refs = if has_own lifecycle refs then ref_fields ++ lifecycle ∷ [] else ref_fields

unfoldable pub is_unreserved : ℕ → Bool
is_unreserved b =
    within 0x41 0x5a b
    || within 0x61 0x7a b
    || within 0x30 0x39 b
    || b == 0x2d
    || b == 0x2e
    || b == 0x5f
    || b == 0x7e

-- a digit of `toString(16).toUpperCase()`
unfoldable pub upper_hex : ℕ → ℕ
upper_hex d = if ltb d 10 then 48 + d else 55 + d

unfoldable pub encode_byte : ℕ → List ℕ
unfolding is_unreserved upper_hex
encode_byte b =
    if is_unreserved b then b ∷ [] else b'%' ∷ upper_hex (b / 16) ∷ upper_hex (b % 16) ∷ []

unfoldable pub encode_text : Text → Text
unfolding concat_map encode_byte utf8
encode_text s = concat_map encode_byte (utf8 s)

-- `parts.join("::")`
unfoldable pub join_colons : List Text → Text
join_colons [] = []
join_colons (part ∷ []) = part
join_colons (part ∷ next ∷ parts) = part ++ (b':' ∷ b':' ∷ join_colons (next ∷ parts))

module _ ⦃rt : Runtime⦄ where
  -- `encodeCanonicalRef`; `none` is the TypeError.
  unfoldable pub encode_canonical_ref : Value → Option Text
  encode_canonical_ref (some (string s)) =
      if not (is_canonical_ref (some (string s))) then none else some (encode_text s)
  encode_canonical_ref _ = none

  -- `fields.map((field) => encodeCanonicalRef(refs[field]))`
  unfoldable pub encode_fields : Json → List Text → Option (List Text)
  encode_fields refs [] = some []
  encode_fields refs (field ∷ fields) = elim (encode_canonical_ref (get field refs)) [
    | none ↦ none
    | some part ↦ elim (encode_fields refs fields) [
      | none ↦ none
      | some parts ↦ some (part ∷ parts)
    ]
  ]

  -- `canonicalCoverageId`; `none` is a TypeError.
  unfoldable pub canonical_coverage_id : Value → Option Text
  canonical_coverage_id (some (object fs)) =
      let refs = object fs in
      let fields = expected_fields refs in
      let encoded = encode_fields refs fields in
      if not (length (keys fs) == length fields) || any (λ field. not (has_own field refs)) fields
      then none
      else elim encoded [ none ↦ none | some parts ↦ some (join_colons parts) ]
  canonical_coverage_id _ = none
