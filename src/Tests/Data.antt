-- ===== src/Tests/Data.antt =====
-- Small ledgers, for the runs.
use dotfiles_ai.Base.{List, [], ◌∷◌, ◌++◌, true, some, none, ◌==◌, if◌then◌else◌}
use dotfiles_ai.Ledger.Run.{System, opened}
use dotfiles_ai.Js.Text.{Text, lit, text_eq}
use dotfiles_ai.Js.Number.{whole}
use dotfiles_ai.Js.Json.{Json, Fields, null, number, string, array, object, nil, cons, end, field}

abbrev pub fields_of : List (Text × Json) → Fields
fields_of [] = end
fields_of ((k, v) ∷ entries) = field k v (fields_of entries)

abbrev pub text : Text → Json
text s = string s

abbrev pub no_items : Json
no_items = array nil

abbrev pub one : Json → Json
one v = array (cons v nil)

abbrev pub one_wave : Json
one_wave = number (whole 1)

-- The references of a unit whose surface is `surface`.
abbrev pub refs_of : Text → Json
refs_of surface = object (
    fields_of (
      (lit "surface", string surface)
      ∷ (lit "boundary", text (lit "b:1"))
      ∷ (lit "subsystem", text (lit "core"))
      ∷ (lit "attack_class", text (lit "dos"))
      ∷ []))

-- A planned unit, with the ID that the references give.
abbrev pub planned_unit : Text → Json
planned_unit surface = object (
    fields_of (
      (lit "coverage_id", string (surface ++ lit "::b%3A1::core::dos"))
      ∷ (lit "canonical_refs", refs_of surface)
      ∷ (lit "surface", string surface)
      ∷ (lit "boundary", text (lit "b 1"))
      ∷ (lit "subsystem", text (lit "core"))
      ∷ (lit "attack_class", text (lit "dos"))
      ∷ (lit "starting_paths", one (text (lit "src/a.c")))
      ∷ (lit "ordinary_attack_class_block", null)
      ∷ (lit "selected_companion_blocks", no_items)
      ∷ (lit "excluded_blocks", no_items)
      ∷ (lit "prior_status", text (lit "new"))
      ∷ (lit "attempts", no_items)
      ∷ (lit "wave", one_wave)
      ∷ (lit "status", text (lit "planned"))
      ∷ (lit "agent_id", null)
      ∷ (lit "reviewed_paths", no_items)
      ∷ (lit "local_checks", no_items)
      ∷ (lit "result_fingerprints", no_items)
      ∷ (lit "unresolved", no_items)
      ∷ []))

abbrev pub two_units : Json
two_units = array (cons (planned_unit (lit "api")) (cons (planned_unit (lit "web")) nil))

-- A check that the agent `a1` ran, with its evidence.
abbrev pub local_check : Json
local_check = object (
    fields_of (
      (lit "agent_id", text (lit "a1"))
      ∷ (lit "reviewed_paths", one (text (lit "src/a.c")))
      ∷ (lit "invariant", text (lit "no overflow"))
      ∷ (lit "method", text (lit "local"))
      ∷ (lit "result", text (lit "held"))
      ∷ (lit "artifact", text (lit "agents/a1/artifacts/log"))
      ∷ []))

abbrev pub blocked_attempt : Json
blocked_attempt = object (
    fields_of (
      (lit "wave", one_wave)
      ∷ (lit "status", text (lit "blocked"))
      ∷ (lit "agent_id", text (lit "a1"))
      ∷ (lit "reviewed_paths", one (text (lit "src/a.c")))
      ∷ (lit "local_checks", one local_check)
      ∷ (lit "result_fingerprints", no_items)
      ∷ (lit "unresolved", one (text (lit "no network")))
      ∷ (lit "reassignment_reason", text (lit "network is up"))
      ∷ []))

abbrev pub one_attempt : Json
one_attempt = one blocked_attempt

-- The part of a reassigned unit that its archive is compared with.
abbrev pub reassigned : Json
reassigned = object (
    fields_of (
      (lit "wave", number (whole 2))
      ∷ (lit "status", text (lit "in_progress"))
      ∷ (lit "agent_id", text (lit "a2"))
      ∷ (lit "local_checks", no_items)
      ∷ []))

abbrev pub two_units_swapped : Json
two_units_swapped = array (cons (planned_unit (lit "web")) (cons (planned_unit (lit "api")) nil))

abbrev pub unit_twice : Json
unit_twice = array (cons (planned_unit (lit "api")) (cons (planned_unit (lit "api")) nil))

-- Node with one file, whose bytes are `[]`, and a parser that knows this text only.
abbrev pub sample_system : System
sample_system = record {
  has_no_follow = true;
  has_non_block = true;
  open_sync = λ name. opened;
  stat = some (record { is_file = true; size = 2 });
  read = λ i. if i == 0 then some (lit "[]") else some [];
  decode = λ bytes. some bytes;
  parse = λ text. if text_eq text (lit "[]") then some no_items else none;
}
