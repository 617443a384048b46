-- ===== src/Findings/Validate/Valid.antt =====
-- What it is for a value to be valid: a predicate by recursion on the schema, without paths,
-- messages or lists of errors.
-- (dot_agents/skills/security-audit/validate-findings.cjs)
use dotfiles_ai.Base.{
  ℕ, ◌+◌, ◌≤◌, ◌≡◌, ◌⊎◌, Bool, true, false, not, ◌&&◌, List, [], ◌∷◌, Option, none, some, ltb,
  if◌then◌else◌,
}
use dotfiles_ai.Base.Lists.{length, any, All}
use dotfiles_ai.Js.Text.{Text, lit, text_eq, contains}
use dotfiles_ai.Js.Text.Points.{code_points}
use dotfiles_ai.Js.Number.{Number, number_lt}
use dotfiles_ai.Js.Json.{
  Json, Items, Fields, number, string, array, object, nil, cons, end, field, items, get_field,
  has_own, is_some, Value,
}
use dotfiles_ai.Js.Runtime.{Runtime, is_visible}
use dotfiles_ai.Ledger.Values.{has_valid_unicode_scalar_values}
use dotfiles_ai.Findings.Values.{deep_equal, code_point_length, canonical_key, Key}
use dotfiles_ai.Findings.Schema.{Patterns}
use dotfiles_ai.Findings.Keywords.{
  has_type, natural_of, is_true, is_false, entry_text, max_set_bytes,
}

abbrev pub Predicate : Type 1
Predicate = Json → Type 0

-- No predicate of the list holds, or exactly one does.
abbrev pub NoneOf : List Predicate → Json → Type 0
NoneOf [] v = Unit
NoneOf (P ∷ Ps) v = (¬ P v) × NoneOf Ps v

abbrev pub OneOf : List Predicate → Json → Type 0
OneOf [] v = ⊥
OneOf (P ∷ Ps) v = (P v × NoneOf Ps v) ⊎ ((¬ P v) × OneOf Ps v)

abbrev pub ValidBranches : Option (List Predicate) → Json → Type 0
ValidBranches none v = Unit
ValidBranches (some Ps) v = OneOf Ps v

abbrev pub IsConst : Value → Json → Type 0
IsConst none v = Unit
IsConst (some c) v = deep_equal v (some c) ≡ true

abbrev pub IsAllowed : Value → Json → Type 0
IsAllowed (some (array vs)) v = any (λ a. deep_equal v (some a)) (items vs) ≡ true
IsAllowed _ v = Unit

abbrev pub HasRequired : Value → Json → Type 0
HasRequired (some (array required)) v = All (λ r. has_own (entry_text r) v ≡ true) (items required)
HasRequired _ v = Unit

-- Every field fits its property; one that has none is there only if the schema is open.
abbrev pub FieldFits : Option Predicate → Bool → Json → Type 0
FieldFits (some P) closed v = P v
FieldFits none closed v = closed ≡ false

abbrev pub ValidFields : (Text → Option Predicate) → Bool → Fields → Type 0
ValidFields find closed end = Unit
ValidFields find closed (field k v fs) = FieldFits (find k) closed v × ValidFields find closed fs

abbrev pub HasMinItems : Value → List Json → Type 0
HasMinItems none vs = Unit
HasMinItems (some least) vs = natural_of (some least) ≤ length vs

abbrev pub ValidItems : Option Predicate → List Json → Type 0
ValidItems none vs = Unit
ValidItems (some P) vs = All P vs

abbrev pub Matches : Patterns → Value → Text → Type 0
Matches patterns (some (string pattern)) s = patterns.matches pattern s ≡ true
Matches patterns _ s = Unit

abbrev pub AtLeast : Value → Number → Type 0
AtLeast (some (number least)) n = number_lt n least ≡ false
AtLeast _ n = Unit

module _ ⦃rt : Runtime⦄ where
  -- The items have keys, which differ from those of `seen` and among each other, and which are not
  -- too long all together.
  abbrev pub Unique : List Text → ℕ → List Json → Type 0
  Unique seen bytes [] = Unit
  Unique seen bytes (v ∷ vs) =
      (k : Key) × (canonical_key v ≡ some k)
      × (contains k.key seen ≡ false)
      × (bytes + k.bytes ≤ max_set_bytes)
      × Unique (k.key ∷ seen) (bytes + k.bytes) vs

  abbrev pub IsVisible : Text → Type 0
  IsVisible s = (has_valid_unicode_scalar_values s ≡ true) × (any is_visible (code_points s) ≡ true)

  unfoldable pub ValidString : Patterns → Fields → Text → Type 0
  unfolding lit
  ValidString patterns fs s =
      ((is_some (get_field (lit "minLength") fs)
          && ltb (code_point_length s) (natural_of (get_field (lit "minLength") fs)))
        ≡ false)
      × (if is_true (get_field (lit "visibleContent") fs) then IsVisible s else Unit)
      × Matches patterns (get_field (lit "pattern") fs) s

  unfoldable pub ValidParts :
      Patterns → Fields → (Text → Option Predicate) → Option Predicate → Predicate
  unfolding lit ValidString
  ValidParts patterns fs find item (object gs) =
      HasRequired (get_field (lit "required") fs) (object gs)
      × ValidFields find (is_false (get_field (lit "additionalProperties") fs)) gs
  ValidParts patterns fs find item (array vs) =
      HasMinItems (get_field (lit "minItems") fs) (items vs)
      × (if is_true (get_field (lit "uniqueItems") fs) then Unique [] 0 (items vs) else Unit)
      × ValidItems item (items vs)
  ValidParts patterns fs find item (string s) = ValidString patterns fs s
  ValidParts patterns fs find item (number n) = AtLeast (get_field (lit "minimum") fs) n
  ValidParts patterns fs find item _ = Unit

  unfoldable mutual
    unfolding lit text_eq ValidParts

    -- The value is valid for the schema.
    pub Valid : Patterns → Json → Predicate
    Valid patterns (object fs) v =
        ValidBranches (valid_branches patterns fs) v
        × IsConst (get_field (lit "const") fs) v
        × IsAllowed (get_field (lit "enum") fs) v
        × ((is_some (get_field (lit "type") fs) && not (has_type v (get_field (lit "type") fs)))
            ≡ false)
        × ValidParts patterns fs (valid_properties patterns fs) (valid_items patterns fs) v
    Valid patterns _ v = Unit

    pub valid_branches : Patterns → Fields → Option (List Predicate)
    valid_branches patterns end = none
    valid_branches patterns (field k s fs) =
        let here = valid_branches_of patterns s in
        let rest = valid_branches patterns fs in if text_eq k (lit "oneOf") then here else rest

    pub valid_branches_of : Patterns → Json → Option (List Predicate)
    valid_branches_of patterns (array vs) = some (valid_each patterns vs)
    valid_branches_of patterns _ = none

    pub valid_each : Patterns → Items → List Predicate
    valid_each patterns nil = []
    valid_each patterns (cons s vs) = (λ v. Valid patterns s v) ∷ valid_each patterns vs

    pub valid_properties : Patterns → Fields → Text → Option Predicate
    valid_properties patterns end key = none
    valid_properties patterns (field k s fs) key =
        let here = valid_property_of patterns s key in
        let rest = valid_properties patterns fs key in
        if text_eq k (lit "properties") then here else rest

    pub valid_property_of : Patterns → Json → Text → Option Predicate
    valid_property_of patterns (object fs) key = valid_find patterns fs key
    valid_property_of patterns _ key = none

    pub valid_find : Patterns → Fields → Text → Option Predicate
    valid_find patterns end key = none
    valid_find patterns (field k s fs) key =
        let rest = valid_find patterns fs key in
        if text_eq k key then some (λ v. Valid patterns s v) else rest

    pub valid_items : Patterns → Fields → Option Predicate
    valid_items patterns end = none
    valid_items patterns (field k s fs) =
        let rest = valid_items patterns fs in
        if text_eq k (lit "items") then some (λ v. Valid patterns s v) else rest
