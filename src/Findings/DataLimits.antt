-- ===== src/Findings/DataLimits.antt =====
-- `collectDataLimitErrors`: nesting and array lengths of a parsed value, by a walk with an explicit
-- stack. A parsed value is a tree, so that no object is met twice and `seen` finds nothing.
-- (dot_agents/skills/security-audit/validate-findings.cjs)
pub mod Limits
use dotfiles_ai.Base.{
  ℕ, zero, suc, ◌+◌, Bool, true, false, Option, none, some, List, [], ◌∷◌, ◌++◌, ltb, if◌then◌else◌,
}
use dotfiles_ai.Base.Lists.{length}
use dotfiles_ai.Js.Text.{Text, lit}
use dotfiles_ai.Js.Json.{
  Json, Items, nil, cons, Fields, end, field, null, boolean, number, string, array, object, items,
}
use dotfiles_ai.Js.Runtime.{Runtime}
use dotfiles_ai.Diagnostics.{Errors, escape}
use dotfiles_ai.Diagnostics.Reports.{at_index}
use dotfiles_ai.Ledger.Preflight.{size}
use dotfiles_ai.Findings.Values.{property_path}

-- `LIMITS.nestingDepth` and `LIMITS.arrayItems`
abbrev pub max_nesting : ℕ
max_nesting = 64

abbrev pub max_array_items : ℕ
max_array_items = 1000

-- An entry of the stack.
pub record Current : Type 0 where
  pub value : Json
  pub depth : ℕ
  pub location : Text

-- `value !== null && typeof value === "object"`
abbrev pub is_container : Json → Bool
is_container (array _) = true
is_container (object _) = true
is_container _ = false

-- `if (child !== null && typeof child === "object") stack.push(…)`
unfoldable pub push_child : Current → List Current → List Current
push_child child stack = if is_container child.value then child ∷ stack else stack

-- The entries for the children, the first on top.
unfoldable pub push_array : ℕ → Text → ℕ → Items → List Current → List Current
unfolding push_child
push_array depth location i nil stack = stack
push_array depth location i (cons v vs) stack =
    push_child (record { value = v; depth = depth; location = at_index location i })
      (push_array depth location (i + 1) vs stack)

-- A round that returns with a message, or goes on with a new stack.
pub data Visit : Type 0 where
  returns : Text → Visit
  continues : List Current → Visit

module _ ⦃rt : Runtime⦄ where
  unfoldable pub push_object : ℕ → Text → Fields → List Current → List Current
  unfolding push_child
  push_object depth location end stack = stack
  push_object depth location (field k v fs) stack =
      push_child (record { value = v; depth = depth; location = property_path location k })
        (push_object depth location fs stack)

  -- the body of the loop
  unfoldable pub visit_value : Json → ℕ → Text → List Current → Visit
  unfolding push_array push_object
  visit_value (array vs) depth location stack =
      if ltb max_nesting depth
      then returns (location ++ lit ": exceeds 64 level nesting depth limit")
      else if ltb max_array_items (length (items vs))
      then returns (location ++ lit ": exceeds 1000 item array limit")
      else continues (push_array (depth + 1) location 0 vs stack)
  visit_value (object fs) depth location stack =
      if ltb max_nesting depth
      then returns (location ++ lit ": exceeds 64 level nesting depth limit")
      else continues (push_object (depth + 1) location fs stack)
  visit_value _ depth location stack = continues stack

  -- The loop; `none` is an end of the fuel.
  unfoldable pub walk_values : ℕ → List Current → Option Errors
  unfolding visit_value
  walk_values fuel [] = some []
  walk_values zero (current ∷ stack) = none
  walk_values (suc fuel) (current ∷ stack) =
      elim (visit_value current.value current.depth current.location stack) [
        | returns message ↦ some (escape message ∷ [])
        | continues next ↦ walk_values fuel next
      ]

  unfoldable pub root_depth : Json → ℕ
  root_depth v = if is_container v then 1 else 0

  -- `collectDataLimitErrors`
  unfoldable pub collect_data_limit_errors : Json → Text → Option Errors
  unfolding walk_values root_depth
  collect_data_limit_errors v location =
      walk_values (size v) (record { value = v; depth = root_depth v; location = location } ∷ [])
