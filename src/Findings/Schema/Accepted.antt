-- ===== src/Findings/Schema/Accepted.antt =====
-- What a schema is, for the validator of findings: a predicate by recursion on the value.
-- (dot_agents/skills/security-audit/validate-findings.cjs)
use dotfiles_ai.Base.{◌≡◌, Bool, true, false, not, ◌&&◌, List, [], ◌∷◌, none, some, if◌then◌else◌}
use dotfiles_ai.Base.Lists.{any, All}
use dotfiles_ai.Js.Text.{Text, lit, text_eq, contains}
use dotfiles_ai.Js.Json.{
  Json, Items, Fields, null, boolean, number, string, array, object, nil, cons, end, field, items,
  keys, get, has_own, is_text, is_string, Value,
}
use dotfiles_ai.Js.Runtime.{Runtime}
use dotfiles_ai.Findings.Values.{canonical_key, Key}
use dotfiles_ai.Findings.Schema.{
  Patterns, supported_keywords, is_boolean, is_supported_type, has_repeat, is_natural,
  is_finite_number,
}

-- A field that is there has the property.
abbrev pub Has : Text → Json → (Value → Bool) → Type 0
Has name node test = (has_own name node && not (test (get name node))) ≡ false

abbrev pub IsRequired : Value → Type 0
IsRequired none = Unit
IsRequired (some (array vs)) =
    (any (λ v. not (is_string (some v))) (items vs) ≡ false) × (has_repeat [] (items vs) ≡ false)
IsRequired (some _) = ⊥

abbrev pub IsPatternText : Patterns → Value → Type 0
IsPatternText patterns none = Unit
IsPatternText patterns (some (string s)) = patterns.is_pattern s ≡ true
IsPatternText patterns (some _) = ⊥

-- visible content is asked of strings only
unfoldable pub IsVisibleFlag : Value → Value → Type 0
unfolding lit
IsVisibleFlag none type = Unit
IsVisibleFlag (some (boolean b)) type = (b && not (is_text (lit "string") type)) ≡ false
IsVisibleFlag (some _) type = ⊥

module _ ⦃rt : Runtime⦄ where
  -- The values have keys, which differ from those of `seen` and among each other.
  abbrev pub DifferentKeys : List Text → List Json → Type 0
  DifferentKeys seen [] = Unit
  DifferentKeys seen (v ∷ vs) =
      (k : Key) × (canonical_key v ≡ some k)
      × (contains k.key seen ≡ false)
      × DifferentKeys (k.key ∷ seen) vs

  abbrev pub IsEnum : Value → Type 0
  IsEnum none = Unit
  IsEnum (some (array (cons v vs))) = DifferentKeys [] (v ∷ items vs)
  IsEnum (some _) = ⊥

  -- The keywords of a node, without the schemas in it.
  pub record HasKeywords (patterns : Patterns) (fs : Fields) : Type 0 where
    pub known : All (λ key. contains key supported_keywords ≡ true) (keys fs)
    pub comment : Has (lit "$comment") (object fs) is_string
    pub description : Has (lit "description") (object fs) is_string
    pub type : Has (lit "type") (object fs) is_supported_type
    pub required : IsRequired (get (lit "required") (object fs))
    pub additional : Has (lit "additionalProperties") (object fs) is_boolean
    pub enum : IsEnum (get (lit "enum") (object fs))
    pub min_items : Has (lit "minItems") (object fs) is_natural
    pub min_length : Has (lit "minLength") (object fs) is_natural
    pub minimum : Has (lit "minimum") (object fs) is_finite_number
    pub pattern_text : IsPatternText patterns (get (lit "pattern") (object fs))
    pub unique : Has (lit "uniqueItems") (object fs) is_boolean
    pub visible :
        IsVisibleFlag (get (lit "visibleContent") (object fs)) (get (lit "type") (object fs))

  unfoldable mutual
    unfolding lit text_eq

    -- The value is a schema.
    pub IsSchema : Patterns → Json → Type 0
    IsSchema patterns (object fs) =
        HasKeywords patterns fs
        × HasProperties patterns fs
        × HasItems patterns fs
        × HasOneOf patterns fs
    IsSchema patterns null = ⊥
    IsSchema patterns (boolean b) = ⊥
    IsSchema patterns (number n) = ⊥
    IsSchema patterns (string s) = ⊥
    IsSchema patterns (array vs) = ⊥

    -- the first field of the name, if there is one, has schemas as its fields
    pub HasProperties : Patterns → Fields → Type 0
    HasProperties patterns end = Unit
    HasProperties patterns (field k v fs) =
        let here = AreProperties patterns v in
        let rest = HasProperties patterns fs in if text_eq k (lit "properties") then here else rest

    pub AreProperties : Patterns → Json → Type 0
    AreProperties patterns (object fs) = EachIsSchema patterns fs
    AreProperties patterns null = ⊥
    AreProperties patterns (boolean b) = ⊥
    AreProperties patterns (number n) = ⊥
    AreProperties patterns (string s) = ⊥
    AreProperties patterns (array vs) = ⊥

    pub EachIsSchema : Patterns → Fields → Type 0
    EachIsSchema patterns end = Unit
    EachIsSchema patterns (field k v fs) = IsSchema patterns v × EachIsSchema patterns fs

    pub HasItems : Patterns → Fields → Type 0
    HasItems patterns end = Unit
    HasItems patterns (field k v fs) =
        let here = IsSchema patterns v in
        let rest = HasItems patterns fs in if text_eq k (lit "items") then here else rest

    pub HasOneOf : Patterns → Fields → Type 0
    HasOneOf patterns end = Unit
    HasOneOf patterns (field k v fs) =
        let here = AreBranches patterns v in
        let rest = HasOneOf patterns fs in if text_eq k (lit "oneOf") then here else rest

    pub AreBranches : Patterns → Json → Type 0
    AreBranches patterns (array vs) = SomeBranches patterns vs
    AreBranches patterns null = ⊥
    AreBranches patterns (boolean b) = ⊥
    AreBranches patterns (number n) = ⊥
    AreBranches patterns (string s) = ⊥
    AreBranches patterns (object fs) = ⊥

    -- at least one branch, and all of them schemas
    pub SomeBranches : Patterns → Items → Type 0
    SomeBranches patterns nil = ⊥
    SomeBranches patterns (cons v vs) = IsSchema patterns v × BranchesAreSchemas patterns vs

    pub BranchesAreSchemas : Patterns → Items → Type 0
    BranchesAreSchemas patterns nil = Unit
    BranchesAreSchemas patterns (cons v vs) = IsSchema patterns v × BranchesAreSchemas patterns vs
