-- ===== src/Ledger/Preflight.antt =====
-- `preflightDocument`: the size of a parsed document, by a walk with an explicit stack.
-- (dot_agents/skills/security-audit/validate-coverage-ledger.cjs)
pub mod Correct
use dotfiles_ai.Base.{
  ℕ, zero, suc, ◌+◌, Bool, true, false, Option, none, some, List, [], ◌∷◌, ◌++◌, ltb, leb,
  if◌then◌else◌,
}
use dotfiles_ai.Base.Lists.{length}
use dotfiles_ai.Js.Text.{Text, lit, text_eq, decimal}
use dotfiles_ai.Js.Json.{Json, Items, nil, cons, Fields, end, field, array, object, items, keys}
use dotfiles_ai.Js.Runtime.{Runtime}
use dotfiles_ai.Diagnostics.{Errors, push}
use dotfiles_ai.Diagnostics.Reports.{report, at_index}

-- `LIMITS`
abbrev pub max_units : ℕ
max_units = 10000

abbrev pub max_items : ℕ
max_items = 1000

abbrev pub max_fields : ℕ
max_fields = 1000

abbrev pub max_depth : ℕ
max_depth = 64

abbrev pub max_values : ℕ
max_values = 500000

-- An entry of the stack.
pub record Frame : Type 0 where
  pub value : Json
  pub depth : ℕ
  pub location : Text

-- `${location}{${index}}`
unfoldable pub at_key : Text → ℕ → Text
at_key base i = base ++ (b'{' ∷ (decimal i ++ b'}' ∷ []))

-- The entries for the items of an array, the first on top.
unfoldable pub push_items : ℕ → Text → ℕ → Items → List Frame → List Frame
push_items depth location i nil stack = stack
push_items depth location i (cons v vs) stack =
    record { value = v; depth = depth; location = at_index location i }
    ∷ push_items depth location (i + 1) vs stack

unfoldable pub push_fields : ℕ → Text → ℕ → Fields → List Frame → List Frame
push_fields depth location i end stack = stack
push_fields depth location i (field k v fs) stack =
    record { value = v; depth = depth; location = at_key location i }
    ∷ push_fields depth location (i + 1) fs stack

-- `location === "$" ? MAX_UNITS : MAX_LIST_ITEMS`
unfoldable pub item_limit : Text → ℕ
item_limit location = if text_eq location (lit "$") then max_units else max_items

-- The number of values in a document, which is fuel enough for a walk.
abbrev mutual
  pub size : Json → ℕ
  size (array vs) = suc (size_items vs)
  size (object fs) = suc (size_fields fs)
  size _ = 1

  pub size_items : Items → ℕ
  size_items nil = 0
  size_items (cons v vs) = size v + size_items vs

  pub size_fields : Fields → ℕ
  size_fields end = 0
  size_fields (field k v fs) = size v + size_fields fs

-- What one round does with a frame: stop with a message, or go on with a new stack.
pub data Round : Type 0 where
  stop : Text → Round
  go : List Frame → Round

unfoldable pub visit : Json → ℕ → Text → List Frame → Round
visit (array vs) depth location stack =
    if leb max_depth depth
    then stop (location ++ lit ": exceeds nesting depth limit 64")
    else if ltb (item_limit location) (length (items vs))
    then stop (location ++ (lit ": exceeds " ++ (decimal (item_limit location) ++ lit " entries")))
    else go (push_items (depth + 1) location 0 vs stack)
visit (object fs) depth location stack =
    if leb max_depth depth
    then stop (location ++ lit ": exceeds nesting depth limit 64")
    else if ltb max_fields (length (keys fs))
    then stop (location ++ lit ": exceeds 1000 object fields")
    else go (push_fields (depth + 1) location 0 fs stack)
visit _ depth location stack = go stack

module _ ⦃rt : Runtime⦄ where
  -- The loop, with its count of visited values; `none` is an end of the fuel.
  unfoldable pub walk : ℕ → ℕ → List Frame → Option Errors
  walk fuel visited [] = some []
  walk zero visited (frame ∷ stack) = none
  walk (suc fuel) visited (frame ∷ stack) = elim (ltb max_values (visited + 1)) [
    | true ↦ some (report (lit "$: exceeds 500000 total values") [])
    | false ↦ elim (visit frame.value frame.depth frame.location stack) [
      | stop message ↦ some (report message [])
      | go next ↦ walk fuel (visited + 1) next
    ]
  ]

  abbrev pub root_frame : Json → Frame
  root_frame root = record { value = root; depth = 0; location = lit "$" }

  -- `preflightDocument`
  unfoldable pub preflight_document : Json → Option Errors
  unfolding walk
  preflight_document root = walk (size root) 0 (root_frame root ∷ [])
