-- ===== src/Ledger/Evidence/Ownership.antt =====
-- `validateReviewedPathOwnership` compares two sets: what the unit has reviewed and what its
-- checks own.
use dotfiles_ai.Base.{
  ◌≡◌, refl, sym, ◌∙◌, Bool, true, false, ◌||◌, List, [], ◌∷◌, ◌++◌, some, arith, Bool-cases, inl,
  inr, ◌↔◌,
}
use dotfiles_ai.Base.Lists.{All}
use dotfiles_ai.Js.Text.{Text, lit, text_eq, text_eq_iff, contains}
use dotfiles_ai.Js.Json.{Json, string, array, items, get, Value}
use dotfiles_ai.Js.Runtime.{Runtime}
use dotfiles_ai.Diagnostics.Reports.{
  Reports_iff, Reports, Reports-report_unless, Reports-seq, Reports-map, Reports-pass,
  Reports-for_each,
}
use dotfiles_ai.Ledger.Evidence.{
  add_string, add_strings, checked_paths, owned_paths, compare_paths, compare_values,
  validate_reviewed_path_ownership,
}

-- The strings of a list, in order.
abbrev pub string_values : List Json → List Text
string_values [] = []
string_values (string s ∷ vs) = s ∷ string_values vs
string_values (_ ∷ vs) = string_values vs

-- Every path that a check of the list names.
abbrev pub all_owned : List Json → List Text
all_owned [] = []
all_owned (check ∷ checks) = string_values (checked_paths check) ++ all_owned checks

-- The same members, whatever the order and the repetitions.
abbrev pub SameMembers : List Text → List Text → Type 0
SameMembers a b = (p : Text) → contains p a ≡ contains p b

contains-append :
    (p : Text) (a b : List Text) → contains p (a ++ b) ≡ (contains p a || contains p b)
unfolding contains
contains-append p [] b = refl
contains-append p (x ∷ a) b = ground (arith, contains-append p a b)

contains-add_string :
    (p : Text) (set : List Text) (v : Json)
    → contains p (add_string set v) ≡ (contains p set || contains p (string_values (v ∷ [])))
unfolding add_string contains
contains-add_string p set (string s) =
    ground (arith, contains-append p set (s ∷ []), text_eq_iff s p)
contains-add_string p set _ = ground arith

contains-nil : (p : Text) → contains p [] ≡ false
unfolding contains
contains-nil p = refl

string_values-cons :
    (p : Text) (v : Json) (vs : List Json)
    → contains p (string_values (v ∷ vs))
      ≡ (contains p (string_values (v ∷ [])) || contains p (string_values vs))
unfolding contains
string_values-cons p (string s) vs = ground arith
string_values-cons p _ vs = refl

contains-add_strings :
    (p : Text) (set : List Text) (vs : List Json)
    → contains p (add_strings set vs) ≡ (contains p set || contains p (string_values vs))
unfolding add_strings
contains-add_strings p set [] = ground (arith, contains-nil p)
contains-add_strings p set (v ∷ vs) = ground (
  arith,
  contains-add_strings p (add_string set v) vs,
  contains-add_string p set v,
  string_values-cons p v vs,
)

contains-owned_paths :
    (p : Text) (set : List Text) (checks : List Json)
    → contains p (owned_paths set checks) ≡ (contains p set || contains p (all_owned checks))
unfolding owned_paths
contains-owned_paths p set [] = ground (arith, contains-nil p)
contains-owned_paths p set (c ∷ cs) = ground (
  arith,
  contains-owned_paths p (add_strings set (checked_paths c)) cs,
  contains-add_strings p set (checked_paths c),
  contains-append p (string_values (checked_paths c)) (all_owned cs),
)

-- A list whose members are all in another.
all_contained :
    (a b : List Text)
    → All (λ p. contains p b ≡ true) a
    → (p : Text) → contains p a ≡ true
    → contains p b ≡ true
unfolding contains
all_contained [] b h p k = cc
all_contained (x ∷ a) b h p k = elim (Bool-cases (text_eq x p)) [
  | inl e ↦ let same : x ≡ p = (text_eq_iff x p).0 e in rw same at h.0
  | inr e ↦ all_contained a b h.1 p (ground arith)
]

contained_all :
    (a b : List Text)
    → ((p : Text) → contains p a ≡ true → contains p b ≡ true)
    → All (λ p. contains p b ≡ true) a
unfolding contains
contained_all [] b h = tt
contained_all (x ∷ a) b h =
    (h x (ground (arith, text_eq_iff x x)), contained_all a b (λ p k. h p (ground arith)))

module _ ⦃rt : Runtime⦄ where
  compare_paths-Reports :
      (aggregate owned : List Text) (base : Text)
      → Reports (compare_paths aggregate owned base) (SameMembers aggregate owned)
  unfolding compare_paths
  compare_paths-Reports aggregate owned base =
      Reports-map
        (Reports-seq (Reports-for_each (λ i path. Reports-report_unless _ _) 0 aggregate)
          (Reports-for_each (λ i path. Reports-report_unless _ _) 0 owned))
        (λ h p. same (all_contained aggregate owned h.0 p) (all_contained owned aggregate h.1 p))
        (λ h. (
          contained_all aggregate owned (λ p k. sym (h p) ∙ k),
          contained_all owned aggregate (λ p k. h p ∙ k),
        ))
    where
      same : {a b : Bool} → (a ≡ true → b ≡ true) → (b ≡ true → a ≡ true) → a ≡ b
      same {a = true} f g = sym (f refl)
      same {a = false} {b = true} f g = g refl
      same {a = false} {b = false} f g = refl

  -- The aggregate paths are those of the checks, where both lists are there.
  abbrev pub OwnsPaths : Value → Value → Type 0
  OwnsPaths (some (array reviewed)) (some (array checks)) =
      SameMembers (string_values (items reviewed)) (all_owned (items checks))
  OwnsPaths _ _ = Unit

  sets_are_lists :
      (p : Text) (reviewed checks : List Json)
      → (contains p (add_strings [] reviewed) ≡ contains p (string_values reviewed))
        × (contains p (owned_paths [] checks) ≡ contains p (all_owned checks))
  sets_are_lists p reviewed checks = (
    ground (arith, contains-add_strings p [] reviewed, contains-nil p),
    ground (arith, contains-owned_paths p [] checks, contains-nil p),
  )

  compare_values-Reports :
      (v w : Value) (base : Text) → Reports (compare_values v w base) (OwnsPaths v w)
  unfolding compare_values
  compare_values-Reports (some (array r)) (some (array c)) base =
      Reports-map (compare_paths-Reports _ _ base)
        (λ h p. let (x, y) = sets_are_lists p (items r) (items c) in sym x ∙ h p ∙ y)
        (λ h p. let (x, y) = sets_are_lists p (items r) (items c) in x ∙ h p ∙ sym y)
  compare_values-Reports _ _ base = Reports-pass

  -- Nothing is reported exactly when the paths that the unit lists are the paths that its checks
  -- list, in any order and with any repetition.
  pub validate_reviewed_path_ownership-Reports :
      (unit : Json) (base : Text)
      → Reports
          (validate_reviewed_path_ownership unit base)
          (OwnsPaths (get (lit "reviewed_paths") unit) (get (lit "local_checks") unit))
  unfolding validate_reviewed_path_ownership
  validate_reviewed_path_ownership-Reports unit base = compare_values-Reports _ _ base

  -- `validateReviewedPathOwnership` adds no error exactly if the strings that the unit lists and
  -- the strings that its checks list are the same set, where both fields are arrays; where one of
  -- them is not, it adds none.
  pub validate_reviewed_path_ownership_iff :
      (unit : Json) (base : Text)
      → (validate_reviewed_path_ownership unit base [] ≡ [])
        ↔ OwnsPaths (get (lit "reviewed_paths") unit) (get (lit "local_checks") unit)
  validate_reviewed_path_ownership_iff unit base =
      Reports_iff (validate_reviewed_path_ownership-Reports unit base)
