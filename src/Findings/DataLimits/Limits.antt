-- ===== src/Findings/DataLimits/Limits.antt =====
-- The walk of `collectDataLimitErrors` ends, and decides the limits.
-- (dot_agents/skills/security-audit/validate-findings.cjs)
use dotfiles_ai.Base.{
  ℕ, zero, suc, ◌+◌, ◌≤◌, ◌≡◌, ◌≢◌, refl, ◌↔◌, inl, inr, false, List, [], ◌∷◌, Option, none, some,
  ltb, ltb-false_iff, arith, Bool-cases,
}
use dotfiles_ai.Base.Lists.{length, All}
use dotfiles_ai.Js.Text.{Text}
use dotfiles_ai.Js.Json.{
  Json, Items, nil, cons, Fields, end, field, null, boolean, number, string, array, object, items,
}
use dotfiles_ai.Js.Runtime.{Runtime}
use dotfiles_ai.Diagnostics.{Errors, escape}
use dotfiles_ai.Diagnostics.Reports.{at_index}
use dotfiles_ai.Ledger.Preflight.{size, size_items, size_fields}
use dotfiles_ai.Findings.Values.{property_path}
use dotfiles_ai.Findings.DataLimits.{
  max_nesting, max_array_items, Current, is_container, push_child, push_array, push_object, Visit,
  returns, continues, visit_value, walk_values, root_depth, collect_data_limit_errors,
}

-- The value, at its depth, is nested and its arrays are long within the limits.
abbrev mutual
  pub IsLimited : ℕ → Json → Type 0
  IsLimited depth (array vs) =
      (depth ≤ max_nesting) × (length (items vs) ≤ max_array_items) × AreLimited (depth + 1) vs
  IsLimited depth (object fs) = (depth ≤ max_nesting) × FieldsLimited (depth + 1) fs
  IsLimited depth null = Unit
  IsLimited depth (boolean b) = Unit
  IsLimited depth (number n) = Unit
  IsLimited depth (string s) = Unit

  pub AreLimited : ℕ → Items → Type 0
  AreLimited depth nil = Unit
  AreLimited depth (cons v vs) = IsLimited depth v × AreLimited depth vs

  pub FieldsLimited : ℕ → Fields → Type 0
  FieldsLimited depth end = Unit
  FieldsLimited depth (field k v fs) = IsLimited depth v × FieldsLimited depth fs

abbrev StackLimited : List Current → Type 0
StackLimited = All (λ c. IsLimited c.depth c.value)

abbrev weight : List Current → ℕ
weight [] = 0
weight (c ∷ stack) = size c.value + weight stack

size-positive : (v : Json) → 1 ≤ size v
size-positive (array vs) = omega arith
size-positive (object fs) = omega arith
size-positive null = omega arith
size-positive (boolean b) = omega arith
size-positive (number n) = omega arith
size-positive (string s) = omega arith

nothing_weighs_nothing : (c : Current) (stack : List Current) → ¬ (weight (c ∷ stack) ≤ 0)
nothing_weighs_nothing c stack h = omega (arith, size-positive c.value)

child-weight :
    (c : Current) (stack : List Current) → weight (push_child c stack) ≤ size c.value + weight stack
unfolding push_child
child-weight c stack = elim (Bool-cases (is_container c.value)) [
  | inl in_stack ↦ rw in_stack (omega arith)
  | inr out ↦ rw out (omega arith)
]

scalar-IsLimited : (d : ℕ) (v : Json) → is_container v ≡ false → IsLimited d v
scalar-IsLimited d (array vs) h = cc
scalar-IsLimited d (object fs) h = cc
scalar-IsLimited d null h = tt
scalar-IsLimited d (boolean b) h = tt
scalar-IsLimited d (number n) h = tt
scalar-IsLimited d (string s) h = tt

child_iff :
    (c : Current) (stack : List Current)
    → StackLimited (push_child c stack) ↔ (IsLimited c.depth c.value × StackLimited stack)
unfolding push_child
child_iff c stack = elim (Bool-cases (is_container c.value)) [
  | inl in_stack ↦ rw in_stack (λ h. h, λ h. h)
  | inr out ↦ rw out (λ h. (scalar-IsLimited c.depth c.value out, h), λ h. h.1)
]

array-weight :
    (d : ℕ) (p : Text) (i : ℕ) (vs : Items) (stack : List Current)
    → weight (push_array d p i vs stack) ≤ size_items vs + weight stack
unfolding push_array
array-weight d p i nil stack = omega arith
array-weight d p i (cons v vs) stack =
    let child : Current = record { value = v; depth = d; location = at_index p i } in
    omega (
      arith,
      child-weight child (push_array d p (i + 1) vs stack),
      array-weight d p (i + 1) vs stack,
    )

array_iff :
    (d : ℕ) (p : Text) (i : ℕ) (vs : Items) (stack : List Current)
    → StackLimited (push_array d p i vs stack) ↔ (AreLimited d vs × StackLimited stack)
unfolding push_array
array_iff d p i nil stack = (λ h. (tt, h), λ h. h.1)
array_iff d p i (cons v vs) stack =
    let child : Current = record { value = v; depth = d; location = at_index p i } in
    let here = child_iff child (push_array d p (i + 1) vs stack) in
    let rest = array_iff d p (i + 1) vs stack in
    (
      λ h. let later = rest.0 (here.0 h).1 in (((here.0 h).0, later.0), later.1),
      λ h. here.1 (h.0.0, rest.1 (h.0.1, h.1)),
    )

-- at most one message
abbrev pub AtMostOne : Option Errors → Type 0
AtMostOne none = Unit
AtMostOne (some errors) = length errors ≤ 1

module _ ⦃rt : Runtime⦄ where
  object-weight :
      (d : ℕ) (p : Text) (fs : Fields) (stack : List Current)
      → weight (push_object d p fs stack) ≤ size_fields fs + weight stack
  unfolding push_object
  object-weight d p end stack = omega arith
  object-weight d p (field k v fs) stack =
      let child : Current = record { value = v; depth = d; location = property_path p k } in
      omega (arith, child-weight child (push_object d p fs stack), object-weight d p fs stack)

  object_iff :
      (d : ℕ) (p : Text) (fs : Fields) (stack : List Current)
      → StackLimited (push_object d p fs stack) ↔ (FieldsLimited d fs × StackLimited stack)
  unfolding push_object
  object_iff d p end stack = (λ h. (tt, h), λ h. h.1)
  object_iff d p (field k v fs) stack =
      let child : Current = record { value = v; depth = d; location = property_path p k } in
      let here = child_iff child (push_object d p fs stack) in
      let rest = object_iff d p fs stack in
      (
        λ h. let later = rest.0 (here.0 h).1 in (((here.0 h).0, later.0), later.1),
        λ h. here.1 (h.0.0, rest.1 (h.0.1, h.1)),
      )

  -- What a round does: it returns on a value beyond the limits, or it goes on with less to do.
  abbrev RoundOk : Visit → ℕ → Json → List Current → Type 0
  RoundOk (returns m) d v stack = ¬ IsLimited d v
  RoundOk (continues next) d v stack =
      (weight next + 1 ≤ size v + weight stack)
      × (StackLimited next ↔ (IsLimited d v × StackLimited stack))

  visit-RoundOk :
      (v : Json) (d : ℕ) (p : Text) (stack : List Current)
      → RoundOk (visit_value v d p stack) d v stack
  unfolding visit_value
  visit-RoundOk (array vs) d p stack = elim (Bool-cases (ltb max_nesting d)) [
    | inl deep ↦ rw deep (λ h. let n = h.0 in ground arith)
    | inr flat ↦ rw flat (elim (Bool-cases (ltb max_array_items (length (items vs)))) [
      | inl long ↦ rw long (λ h. let n = h.1 in ground arith)
      | inr short ↦
          let step = array_iff (d + 1) p 0 vs stack in
          rw short (
            omega (arith, array-weight (d + 1) p 0 vs stack),
            (
              λ h.
                  let both = step.0 h in
                  (((ltb-false_iff _ _).0 flat, (ltb-false_iff _ _).0 short, both.0), both.1),
              λ h. step.1 (h.0.2, h.1),
            ),
          )
    ])
  ]
  visit-RoundOk (object fs) d p stack = elim (Bool-cases (ltb max_nesting d)) [
    | inl deep ↦ rw deep (λ h. let n = h.0 in ground arith)
    | inr flat ↦
        let step = object_iff (d + 1) p fs stack in
        rw flat (
          omega (arith, object-weight (d + 1) p fs stack),
          (
            λ h. let both = step.0 h in (((ltb-false_iff _ _).0 flat, both.0), both.1),
            λ h. step.1 (h.0.1, h.1),
          ),
        )
  ]
  visit-RoundOk null d p stack = (omega arith, (λ h. (tt, h), λ h. h.1))
  visit-RoundOk (boolean b) d p stack = (omega arith, (λ h. (tt, h), λ h. h.1))
  visit-RoundOk (number n) d p stack = (omega arith, (λ h. (tt, h), λ h. h.1))
  visit-RoundOk (string s) d p stack = (omega arith, (λ h. (tt, h), λ h. h.1))

  abbrev Decided : Option Errors → List Current → Type 0
  Decided o stack = (o ≢ none) × ((o ≡ some []) ↔ StackLimited stack)

  round-Decided :
      (fuel : ℕ) (c : Current) (stack : List Current) (r : Visit)
      → RoundOk r c.depth c.value stack
      → weight (c ∷ stack) ≤ suc fuel
      → ((next : List Current) → weight next ≤ fuel → Decided (walk_values fuel next) next)
      → Decided
          (elim r [
            | returns message ↦ some (escape message ∷ [])
            | continues next ↦ walk_values fuel next
          ])
          (c ∷ stack)
  round-Decided fuel c stack (returns m) bad h k = (λ e. cc, (λ e. cc, λ g. absurd (bad g.0)))
  round-Decided fuel c stack (continues next) step h k =
      let rest = k next (omega (arith, step.0)) in
      (rest.0, (λ e. step.1.0 (rest.1.0 e), λ g. rest.1.1 (step.1.1 g)))

  walk-Decided :
      (fuel : ℕ) (stack : List Current)
      → weight stack ≤ fuel
      → Decided (walk_values fuel stack) stack
  unfolding walk_values
  walk-Decided zero [] h = (λ e. cc, (λ _. tt, λ _. refl))
  walk-Decided (suc fuel) [] h = (λ e. cc, (λ _. tt, λ _. refl))
  walk-Decided zero (c ∷ stack) h = absurd (nothing_weighs_nothing c stack h)
  walk-Decided (suc fuel) (c ∷ stack) h =
      round-Decided fuel c stack (visit_value c.value c.depth c.location stack)
        (visit-RoundOk c.value c.depth c.location stack) h (λ next k. walk-Decided fuel next k)

  length-round :
      (fuel : ℕ) (r : Visit)
      → ((next : List Current) → AtMostOne (walk_values fuel next))
      → AtMostOne (elim r [
        | returns message ↦ some (escape message ∷ [])
        | continues next ↦ walk_values fuel next
      ])
  length-round fuel (returns m) h = omega arith
  length-round fuel (continues next) h = h next

  length-walk_values : (fuel : ℕ) (stack : List Current) → AtMostOne (walk_values fuel stack)
  unfolding walk_values
  length-walk_values zero [] = omega arith
  length-walk_values (suc fuel) [] = omega arith
  length-walk_values zero (c ∷ stack) = tt
  length-walk_values (suc fuel) (c ∷ stack) =
      length-round fuel (visit_value c.value c.depth c.location stack)
        (λ next. length-walk_values fuel next)

  pub length-collect_data_limit_errors :
      (v : Json) (p : Text) → AtMostOne (collect_data_limit_errors v p)
  unfolding collect_data_limit_errors
  length-collect_data_limit_errors v p =
      length-walk_values (size v) (record { value = v; depth = root_depth v; location = p } ∷ [])

  -- The walk ends on every value, and finds nothing exactly if no array or object is nested deeper
  -- than 64 levels and no array has more than 1000 entries.
  pub collect_data_limit_errors_iff :
      (v : Json) (p : Text)
      → (collect_data_limit_errors v p ≢ none)
        × ((collect_data_limit_errors v p ≡ some []) ↔ IsLimited (root_depth v) v)
  unfolding collect_data_limit_errors
  collect_data_limit_errors_iff v p =
      let root : Current = record { value = v; depth = root_depth v; location = p } in
      let all = walk-Decided (size v) (root ∷ []) (omega arith) in
      (all.0, (λ e. (all.1.0 e).0, λ h. all.1.1 (h, tt)))
