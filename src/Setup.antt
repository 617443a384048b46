-- ===== src/Setup.antt =====
-- The state file of the initialisation, ~/.jfrog/setup.json: its lock, its records, and `set` and
-- `get-current-project` on it.
-- (dot_agents/skills/jfrog-init/scripts/jfrog-state-file.mjs)
pub mod Records
pub mod Outcomes
use dotfiles_ai.Base.{
  ℕ, ◌+◌, Bool, true, false, not, ◌&&◌, ◌||◌, List, [], ◌∷◌, ◌++◌, Option, none, some, ltb,
  if◌then◌else◌,
}
use dotfiles_ai.Js.Text.{Text, lit, text_eq}
use dotfiles_ai.Js.Number.{whole}
use dotfiles_ai.Js.Json.{
  Json, Fields, null, boolean, number, string, array, object, end, field, get, get_field, is_string,
  Value,
}
use dotfiles_ai.Js.Strings.{trim, is_set}
use dotfiles_ai.Environment.Check.{is_truthy}

-- What the script finds outside: `JSON.parse` and `JSON.stringify`, the clock, and whether the
-- directory can be made, the lock be created where there is none, a stale lock be looked at and
-- removed, the own lock be removed, and the file be written.
pub record Machine : Type 0 where
  pub parse : Text → Option Json
  pub stringify : Json → Text
  pub now : ℕ
  pub makes_dir : Bool
  pub creates_lock : Bool
  pub reclaims : Bool
  pub releases : Bool
  pub writes : Bool

-- The contents of the state file, if it is there, and the time of the lock file.
pub record Disk : Type 0 where
  pub setup : Option Text
  pub lock : Option ℕ

-- `STALE_LOCK_MS`
abbrev pub stale_lock_ms : ℕ
stale_lock_ms = 30000

-- `acquireLock` throws, or returns false or true.
pub data Locked : Type 0 where
  lock_error : Locked
  busy : Locked
  acquired : Locked

-- `reclaimIfStale`, where a `statSync` or an `unlinkSync` that fails is passed over
unfoldable pub reclaim_if_stale : Machine → Disk → ℕ → Disk
reclaim_if_stale m disk made =
    if m.reclaims && ltb (made + stale_lock_ms) m.now then record disk { lock = none } else disk

-- the second `writeFileSync`, whose exceptions are caught
unfoldable pub retry_lock : Machine → Disk → Option ℕ → Locked × Disk
retry_lock m disk (some made) = (busy, disk)
retry_lock m disk none =
    if m.creates_lock then (acquired, record disk { lock = some m.now }) else (busy, disk)

-- `acquireLock`, on the lock that is there
unfoldable pub acquire_lock : Machine → Disk → Option ℕ → Locked × Disk
unfolding retry_lock reclaim_if_stale
acquire_lock m disk none =
    if m.creates_lock then (acquired, record disk { lock = some m.now }) else (lock_error, disk)
acquire_lock m disk (some made) =
    let next = reclaim_if_stale m disk made in retry_lock m next next.lock

-- `releaseLock`, where an `unlinkSync` that fails is passed over
unfoldable pub release_lock : Machine → Disk → Disk
release_lock m disk = if m.releases then record disk { lock = none } else disk

-- `fields[key] = value`: in its place, or at the end. (Keys that are indices would stand first.)
unfoldable pub set_field : Text → Json → Fields → Fields
unfolding text_eq
set_field key v end = field key v end
set_field key v (field k w fs) =
    let rest = set_field key v fs in if text_eq k key then field k v fs else field k w rest

-- `{ version: CURRENT_VERSION, servers: {} }`
unfoldable pub empty_state : Fields
unfolding lit
empty_state = field (lit "version") (number (whole 1)) (field (lit "servers") (object end) end)

-- `!parsed.servers || typeof parsed.servers !== "object"`
unfoldable pub has_servers : Value → Bool
has_servers (some (object fs)) = true
has_servers (some (array vs)) = true
has_servers _ = false

-- `loadState` on what was parsed
unfoldable pub parsed_state : Option Json → Fields
unfolding get lit set_field has_servers empty_state
parsed_state (some (object fs)) =
    if has_servers (get (lit "servers") (object fs))
    then fs
    else set_field (lit "servers") (object end) fs
parsed_state _ = empty_state

-- `loadState`
unfoldable pub load_state : Machine → Option Text → Fields
unfolding parsed_state empty_state trim is_set
load_state m none = empty_state
load_state m (some raw) =
    if not (is_set (trim raw)) then empty_state else parsed_state (m.parse raw)

-- `previous?.currentActiveProject`, and `state.servers?.[serverId]`. A name that objects inherit
-- finds a function or a prototype there, which has neither of the two fields that are asked of it,
-- like a record that is absent.
unfoldable pub field_of : Text → Value → Value
unfolding get
field_of key none = none
field_of key (some v) = get key v

unfoldable pub record_of : Text → Fields → Value
unfolding get lit field_of
record_of server state = field_of server (get (lit "servers") (object state))

-- `currentActiveProject: previous.currentActiveProject`, if that is true
unfoldable pub kept_project : Value → Fields
unfolding lit is_truthy
kept_project none = end
kept_project (some v) = if is_truthy (some v) then field (lit "currentActiveProject") v end else end

-- the record that is put in the place of the previous one
unfoldable pub next_record : Value → Text → Text → Json
unfolding lit field_of kept_project is_set
next_record previous url project = object (
    field (lit "jpdUrl") (string url) (
      if is_set project
      then field (lit "currentActiveProject") (string project) end
      else kept_project (field_of (lit "currentActiveProject") previous)))

-- Whether an assignment sets the prototype and no field: the name is "__proto__", and the object has
-- no field of its own with this name.
unfoldable pub sets_prototype : Text → Value → Bool
unfolding lit text_eq
sets_prototype key none = text_eq key (lit "__proto__")
sets_prototype key (some v) = false

-- `servers[serverId] = …`
unfoldable pub assign_field : Text → Json → Fields → Fields
unfolding sets_prototype set_field get_field
assign_field key v fs = if sets_prototype key (get_field key fs) then fs else set_field key v fs

-- `state.servers[serverId] = …`; on an array the property (other than an index) is not printed.
unfoldable pub put_record : Text → Json → Value → Json
unfolding assign_field
put_record server v (some (object servers)) = object (assign_field server v servers)
put_record server v (some (array vs)) = array vs
put_record server v _ = object (assign_field server v end)

-- the state that is saved
unfoldable pub updated_state : Fields → Text → Text → Text → Fields
unfolding lit get set_field put_record record_of next_record
updated_state state server url project =
    let versioned = set_field (lit "version") (number (whole 1)) state in
    let v = next_record (record_of server state) url project in
    set_field (lit "servers") (put_record server v (get (lit "servers") (object state))) versioned

-- What `setStateForServer` returns: `ok`, or why not.
pub data Outcome : Type 0 where
  ok : Outcome
  bad_arguments : Outcome
  no_lock : Outcome
  write_failed : Outcome

-- from `loadState` on, with the lock
unfoldable pub write_state : Machine → Text → Text → Text → Disk → Outcome × Disk
unfolding updated_state load_state release_lock
write_state m server url project disk =
    let state = updated_state (load_state m disk.setup) server url project in
    if m.writes
    then (ok, release_lock m (record disk { setup = some (m.stringify (object state) ++ 10 ∷ []) }))
    else (write_failed, release_lock m disk)

-- on what `acquireLock` gives
unfoldable pub set_locked : Machine → Text → Text → Text → Locked × Disk → Outcome × Disk
unfolding write_state
set_locked m server url project (lock_error, disk) = (write_failed, disk)
set_locked m server url project (busy, disk) = (no_lock, disk)
set_locked m server url project (acquired, disk) = write_state m server url project disk

-- `setStateForServer`
unfoldable pub set_state_for_server : Machine → Text → Text → Text → Disk → Outcome × Disk
unfolding set_locked acquire_lock is_set
set_state_for_server m server url project disk =
    if not (is_set server) || not (is_set url)
    then (bad_arguments, disk)
    else if not m.makes_dir
    then (write_failed, disk)
    else set_locked m server url project (acquire_lock m disk disk.lock)

-- the field, if it is a string
abbrev pub string_field : Text → Value → Fields → Fields
string_field key (some (string s)) rest = field key (string s) rest
string_field key _ rest = rest

-- `get-current-project`
unfoldable pub get_current_project : Machine → Disk → Text → Json
unfolding lit record_of field_of load_state is_set
get_current_project m disk server =
    let found = record_of server (load_state m disk.setup) in
    if not (is_set server)
    then object end
    else object (
        string_field (lit "currentActiveProject") (field_of (lit "currentActiveProject") found)
          (string_field (lit "jpdUrl") (field_of (lit "jpdUrl") found) end))
