-- ===== src/Js/Json.antt =====
-- JSON values as `JSON.parse` returns them: trees, with the fields of an object in the order of
-- `Object.keys`. A missing property reads as `undefined`, which is `none` here.
use dotfiles_ai.Base.{
  ◌≡◌, ◌↔◌, refl, arith, Bool, true, false, Option, none, some, List, [], ◌∷◌, if◌then◌else◌,
}
use dotfiles_ai.Js.Number.{Number}
use dotfiles_ai.Js.Text.{Text, text_eq, text_eq_iff}

mutual
  pub data Json : Type 0 where
    null : Json
    boolean : Bool → Json
    number : Number → Json
    string : Text → Json
    array : Items → Json
    object : Fields → Json

  pub data Items : Type 0 where
    nil : Items
    cons : Json → Items → Items

  pub data Fields : Type 0 where
    end : Fields
    field : Text → Json → Fields → Fields

abbrev pub items : Items → List Json
items nil = []
items (cons v vs) = v ∷ items vs

abbrev pub from_items : List Json → Items
from_items [] = nil
from_items (v ∷ vs) = cons v (from_items vs)

unfoldable pub keys : Fields → List Text
keys end = []
keys (field k v fs) = k ∷ keys fs

unfoldable pub get_field : Text → Fields → Option Json
get_field k end = none
get_field k (field j v fs) = if text_eq j k then some v else get_field k fs

-- `value.key` for a value that is not null or undefined. The keys that the source reads are on no
-- prototype, so only an object has them.
unfoldable pub get : Text → Json → Option Json
unfolding get_field
get k (object fs) = get_field k fs
get k _ = none

abbrev pub is_some {ℓ} : {A : Type ℓ} → Option A → Bool
is_some none = false
is_some (some a) = true

-- `hasOwn(value, key)`.
unfoldable pub has_own : Text → Json → Bool
unfolding get
has_own k v = is_some (get k v)

-- A value or `undefined`.
abbrev pub Value : Type 0
Value = Option Json

-- `value === null`.
abbrev pub is_null : Value → Bool
is_null (some null) = true
is_null _ = false

-- The same with a literal for the value that is wanted, as in `value === "local"`.
unfoldable pub is_text : Text → Value → Bool
is_text t (some (string s)) = text_eq s t
is_text t _ = false

abbrev pub is_object : Value → Bool
is_object (some (object _)) = true
is_object _ = false

abbrev pub is_string : Value → Bool
is_string (some (string _)) = true
is_string _ = false

abbrev pub is_array : Value → Bool
is_array (some (array _)) = true
is_array _ = false

pub is_text_iff : (t : Text) (v : Value) → (is_text t v ≡ true) ↔ (v ≡ some (string t))
unfolding is_text
is_text_iff t (some (string s)) =
    (λ h. ground (arith, text_eq_iff s t), λ h. ground (arith, text_eq_iff s t))
is_text_iff t none = (λ h. cc, λ h. cc)
is_text_iff t (some _) = (λ h. cc, λ h. cc)

pub is_null_iff : (v : Value) → (is_null v ≡ true) ↔ (v ≡ some null)
is_null_iff (some null) = (λ h. refl, λ h. refl)
is_null_iff none = (λ h. cc, λ h. cc)
is_null_iff (some _) = (λ h. cc, λ h. cc)

-- A value is at most one of two different texts.
pub is_text-exclusive :
    (s t : Text) (v : Value) → text_eq s t ≡ false → is_text s v ≡ true → is_text t v ≡ false
unfolding is_text
is_text-exclusive s t (some (string u)) d h =
    ground (arith, text_eq_iff u s, text_eq_iff u t, text_eq_iff s t)
is_text-exclusive s t none d h = cc
is_text-exclusive s t (some _) d h = cc
