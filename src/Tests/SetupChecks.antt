-- ===== src/Tests/SetupChecks.antt =====
-- Each result on the state file of the initialisation at one input where its conditions hold.
use dotfiles_ai.Base.{ltb, ◌+◌, ◌≡◌, ◌≢◌, refl, true, false, [], ◌∷◌, ◌++◌, none, some}
use dotfiles_ai.Js.Text.{Text, lit, text_eq, is_space}
use dotfiles_ai.Js.Number.{whole, number_eq, eqb_ℤ}
use dotfiles_ai.Js.Json.{Fields, number, string, object, end, field, get, get_field}
use dotfiles_ai.Js.Strings.{trim, is_set, drop_while, drop_end}
use dotfiles_ai.Environment.Check.{is_truthy}
use dotfiles_ai.Setup.{
  Machine, Disk, stale_lock_ms, ok, reclaim_if_stale, retry_lock, acquire_lock, release_lock,
  set_field, sets_prototype, assign_field, empty_state, has_servers, parsed_state, load_state,
  field_of, record_of, kept_project, next_record, put_record, updated_state, write_state,
  set_locked, set_state_for_server, get_current_project,
}
use dotfiles_ai.Setup.Records.{IsCurrentProject, updated_state-records}
use dotfiles_ai.Setup.Outcomes.{
  Left, set_state_for_server-Left, set_state_for_server-excluded,
  get_current_project-set_state_for_server,
}

abbrev url : Text
unfolding lit
url = lit "https://acme.jfrog.io"

-- The state after the first `set`.
abbrev saved_state : Fields
unfolding lit
saved_state = field (lit "version") (number (whole 1)) (
    field (lit "servers")
      (object (
        field (lit "acme")
          (object (
            field (lit "jpdUrl") (string (lit "https://acme.jfrog.io"))
              (field (lit "currentActiveProject") (string (lit "widgets")) end)))
          end))
      end)

-- A machine that writes one text for every state and reads it as that state.
abbrev sample_machine : Machine
unfolding lit saved_state
sample_machine = record {
  parse = λ s. some (object saved_state);
  stringify = λ v. lit "{}";
  now = 50000;
  makes_dir = true;
  creates_lock = true;
  reclaims = true;
  releases = true;
  writes = true;
}

abbrev no_file : Disk
no_file = record { setup = none; lock = none }

-- Another run took the lock 20 seconds ago.
abbrev held : Disk
held = record { setup = none; lock = some 30000 }

abbrev first_state : Fields
first_state = updated_state (load_state sample_machine none) (lit "acme") url (lit "widgets")

-- The first `set` is ok; it starts from no servers; what it wrote is read as what it saved.
set_facts :
    ((set_state_for_server sample_machine (lit "acme") url (lit "widgets") no_file).0 ≡ ok)
    × (get (lit "servers") (object (load_state sample_machine none)) ≡ some (object end))
    × (sample_machine.parse (sample_machine.stringify (object first_state) ++ 10 ∷ [])
        ≡ some (object first_state))
    × (is_set (trim (sample_machine.stringify (object first_state) ++ 10 ∷ [])) ≡ true)
    × (is_set (lit "acme") ≡ true)
    × (is_set (lit "widgets") ≡ true)
    × (text_eq (lit "acme") (lit "__proto__") ≡ false)
unfolding url sample_machine saved_state lit text_eq is_space number_eq eqb_ℤ get get_field trim
    drop_while drop_end is_set is_truthy reclaim_if_stale retry_lock acquire_lock set_field
    empty_state has_servers parsed_state load_state field_of record_of kept_project next_record
    sets_prototype assign_field put_record release_lock updated_state write_state set_locked
    set_state_for_server
set_facts = (refl, refl, refl, refl, refl, refl, refl)

lock_facts : (held.lock ≡ some 30000) × (ltb (30000 + stale_lock_ms) sample_machine.now ≡ false)
unfolding sample_machine
lock_facts = (refl, refl)

names_differ :
    (text_eq (lit "acme") (lit "other") ≡ false)
    × (text_eq (lit "version") (lit "note") ≡ false)
    × (text_eq (lit "servers") (lit "note") ≡ false)
unfolding lit text_eq
names_differ = (refl, refl, refl)

updated_state-records_example :
    let state = load_state sample_machine none in
    let after = updated_state state (lit "acme") url (lit "widgets") in
    (field_of (lit "jpdUrl") (record_of (lit "acme") after) ≡ some (string url))
    × IsCurrentProject
        (lit "widgets")
        (field_of (lit "currentActiveProject") (record_of (lit "acme") state))
        (field_of (lit "currentActiveProject") (record_of (lit "acme") after))
    × (record_of (lit "other") after ≡ record_of (lit "other") state)
    × (get (lit "note") (object after) ≡ get (lit "note") (object state))
updated_state-records_example =
    updated_state-records (load_state sample_machine none) end (lit "acme") (lit "other")
      (lit "note") url (lit "widgets") set_facts.1 set_facts.6 names_differ.0 names_differ.1
      names_differ.2

set_state_for_server-Left_example :
    Left sample_machine
      (lit "acme")
      url
      (lit "widgets")
      no_file
      (set_state_for_server sample_machine (lit "acme") url (lit "widgets") no_file)
set_state_for_server-Left_example =
    set_state_for_server-Left sample_machine (lit "acme") url (lit "widgets") no_file

set_state_for_server-excluded_example :
    let r = set_state_for_server sample_machine (lit "acme") url (lit "widgets") held in
    (r.0 ≢ ok) × (r.1 ≡ held)
set_state_for_server-excluded_example =
    set_state_for_server-excluded sample_machine (lit "acme") url (lit "widgets") held 30000
      lock_facts.0 lock_facts.1

get_current_project-set_state_for_server_example :
    get_current_project sample_machine
      (set_state_for_server sample_machine (lit "acme") url (lit "widgets") no_file).1
      (lit "acme")
    ≡ object (
        field
          (lit "currentActiveProject")
          (string (lit "widgets"))
          (field (lit "jpdUrl") (string url) end))
get_current_project-set_state_for_server_example =
    get_current_project-set_state_for_server sample_machine (lit "acme") url (lit "widgets") no_file
      end set_facts.0 set_facts.1 set_facts.6 set_facts.2 set_facts.3 set_facts.4 set_facts.5
