-- ===== src/Ledger/State.antt =====
-- The statuses of coverage units and `validateStateInvariants`.
-- (dot_agents/skills/security-audit/validate-coverage-ledger.cjs)
pub mod Rules
use dotfiles_ai.Base.{
  ℕ, ◌≡◌, refl, ◌↔◌, Bool, true, false, not, ◌&&◌, ◌||◌, List, [], ◌∷◌, ◌++◌, Option, none, some,
  ltb, if◌then◌else◌, arith,
}
use dotfiles_ai.Base.Lists.{length}
use dotfiles_ai.Js.Text.{Text, lit, text_eq}
use dotfiles_ai.Js.Json.{Json, string, array, items, get, is_text, is_text_iff, is_null, Value}
use dotfiles_ai.Js.Runtime.{Runtime}
use dotfiles_ai.Diagnostics.{safe_quote}
use dotfiles_ai.Diagnostics.Reports.{Check, pass, ◌>>◌, report_if, at_field}
use dotfiles_ai.Ledger.Values.{is_safe_agent_id}

-- The members of `STATUSES`.
pub data Status : Type 0 where
  planned not_applicable out_of_scope in_progress covered candidate blocked deferred : Status

pub status_name : Status → Text
status_name planned = lit "planned"
status_name not_applicable = lit "not_applicable"
status_name out_of_scope = lit "out_of_scope"
status_name in_progress = lit "in_progress"
status_name covered = lit "covered"
status_name candidate = lit "candidate"
status_name blocked = lit "blocked"
status_name deferred = lit "deferred"

-- `STATUSES.has(value)`, and which of them it is.
unfoldable pub status_of : Value → Option Status
status_of v =
    if is_text (lit "planned") v
    then some planned
    else if is_text (lit "not_applicable") v
    then some not_applicable
    else if is_text (lit "out_of_scope") v
    then some out_of_scope
    else if is_text (lit "in_progress") v
    then some in_progress
    else if is_text (lit "covered") v
    then some covered
    else if is_text (lit "candidate") v
    then some candidate
    else if is_text (lit "blocked") v
    then some blocked
    else if is_text (lit "deferred") v
    then some deferred
    else none

-- `ATTEMPT_STATUSES.has(value)`
unfoldable pub is_attempt_status : Option Status → Bool
is_attempt_status (some covered) = true
is_attempt_status (some candidate) = true
is_attempt_status (some blocked) = true
is_attempt_status _ = false

abbrev is_candidate : Option Status → Bool
is_candidate (some candidate) = true
is_candidate _ = false

-- `Array.isArray(value) && value.length > 0`
unfoldable pub has_entries : Value → Bool
has_entries (some (array vs)) = ltb 0 (length (items vs))
has_entries _ = false

module _ ⦃rt : Runtime⦄ (unit : Json) (base : Text) where
  abbrev status_text : Text
  status_text = safe_quote (get (lit "status") unit)

  -- `requireEmptyArray`
  require_empty_array : Text → Check
  require_empty_array field = report_if (has_entries (get field unit)) (
      at_field base field
      ++ (lit ": unit with status " ++ (status_text ++ lit " must keep this array empty")))

  -- `requireNonemptyArray`
  require_nonempty_array : Text → Check
  require_nonempty_array field = report_if (not (has_entries (get field unit))) (
      at_field base field
      ++ (lit ": unit with status " ++ (status_text ++ lit " requires entries")))

  empty_evidence : Check
  empty_evidence = do
    require_empty_array (lit "reviewed_paths")
    require_empty_array (lit "local_checks")

  require_owner : Check
  require_owner = report_if (not (is_safe_agent_id (get (lit "agent_id") unit))) (
      at_field base (lit "agent_id")
      ++ (lit ": unit with status "
          ++ (status_text ++ lit " requires a canonical lowercase agent ID")))

  -- the case of the statuses `not_applicable`, `out_of_scope` and `deferred`
  set_aside : Check
  set_aside = do
    report_if (not (is_null (get (lit "agent_id") unit))) (
        at_field base (lit "agent_id")
        ++ (lit ": unit with status " ++ (status_text ++ lit " must be unassigned")))
    empty_evidence
    require_nonempty_array (lit "unresolved")

  -- the `switch` on the status
  switch_status : Option Status → Check
  switch_status none = pass
  switch_status (some planned) = do
    report_if (not (is_null (get (lit "agent_id") unit)))
        (at_field base (lit "agent_id") ++ lit ": planned unit must be unassigned")
    empty_evidence
    require_empty_array (lit "unresolved")
  switch_status (some not_applicable) = set_aside
  switch_status (some out_of_scope) = set_aside
  switch_status (some deferred) = set_aside
  switch_status (some in_progress) = do
    require_owner
    empty_evidence
    require_empty_array (lit "unresolved")
  switch_status (some blocked) = do
    require_owner
    require_nonempty_array (lit "reviewed_paths")
    require_nonempty_array (lit "local_checks")
    require_nonempty_array (lit "unresolved")
  switch_status (some covered) = do
    require_owner
    require_nonempty_array (lit "reviewed_paths")
    require_nonempty_array (lit "local_checks")
    require_empty_array (lit "unresolved")
  switch_status (some candidate) = do
    require_owner
    require_nonempty_array (lit "reviewed_paths")
    require_nonempty_array (lit "local_checks")
    require_nonempty_array (lit "result_fingerprints")

  -- `validateStateInvariants`
  unfoldable pub validate_state_invariants : Check
  unfolding require_empty_array require_nonempty_array empty_evidence require_owner set_aside
      switch_status
  validate_state_invariants =
      let status = status_of (get (lit "status") unit) in
      (if is_candidate status then pass else require_empty_array (lit "result_fingerprints"))
      >> switch_status status
