-- ===== src/Setup/Records.antt =====
-- What `set` does to the records of the servers.
-- (dot_agents/skills/jfrog-init/scripts/jfrog-state-file.mjs)
use dotfiles_ai.Base.{◌≡◌, refl, ap, ◌∙◌, inl, inr, true, false, none, some, Bool-cases}
use dotfiles_ai.Js.Text.{Text, lit, text_eq, text_eq_iff}
use dotfiles_ai.Js.Number.{whole}
use dotfiles_ai.Js.Json.{Json, Fields, Value, number, string, object, end, field, get, get_field}
use dotfiles_ai.Js.Strings.{is_set}
use dotfiles_ai.Environment.Check.{is_truthy}
use dotfiles_ai.Setup.{
  set_field, sets_prototype, assign_field, record_of, field_of, kept_project, next_record,
  put_record, updated_state,
}

pub get-set_field :
    (key : Text) (v : Json) (fs : Fields) → get_field key (set_field key v fs) ≡ some v
unfolding set_field get_field
get-set_field key v end = rw ((text_eq_iff key key).1 refl) refl
get-set_field key v (field k w fs) = elim (Bool-cases (text_eq k key)) [
  | inl same ↦ rw same (rw same refl)
  | inr other ↦ rw other (rw other (get-set_field key v fs))
]

get-set_other :
    (other key : Text) (v : Json) (fs : Fields)
    → text_eq key other ≡ false
    → get_field other (set_field key v fs) ≡ get_field other fs
unfolding set_field get_field
get-set_other other key v end h = rw h refl
get-set_other other key v (field k w fs) h = elim (Bool-cases (text_eq k key)) [
  | inl same ↦ let e : k ≡ key = (text_eq_iff k key).0 same in rw same (rw e (rw h refl))
  | inr differs ↦ rw differs (elim (Bool-cases (text_eq k other)) [
    | inl here ↦ rw here refl
    | inr there ↦ rw there (get-set_other other key v fs h)
  ])
]

sets_prototype-false :
    (key : Text) (v : Value) → text_eq key (lit "__proto__") ≡ false → sets_prototype key v ≡ false
unfolding sets_prototype
sets_prototype-false key none own = own
sets_prototype-false key (some v) own = refl

get-assigned :
    (key : Text) (v : Json) (fs : Fields)
    → text_eq key (lit "__proto__") ≡ false
    → assign_field key v fs ≡ set_field key v fs
unfolding assign_field
get-assigned key v fs own = rw (sets_prototype-false key (get_field key fs) own) refl

-- The servers in the state that is saved.
pub servers-updated :
    (state servers : Fields) (server url project : Text)
    → get (lit "servers") (object state) ≡ some (object servers)
    → text_eq server (lit "__proto__") ≡ false
    → get (lit "servers") (object (updated_state state server url project))
      ≡ some (object (set_field server (next_record (record_of server state) url project) servers))
unfolding updated_state get put_record
servers-updated state servers server url project h own =
    let v = next_record (record_of server state) url project in
    get-set_field (lit "servers") (put_record server v (get (lit "servers") (object state)))
      (set_field (lit "version") (number (whole 1)) state)
    ∙ rw h (ap (λ fs. some (object fs)) (get-assigned server _ servers own))

-- A top-level field beside the version and the servers.
other-updated :
    (state : Fields) (server url project key : Text)
    → text_eq (lit "version") key ≡ false
    → text_eq (lit "servers") key ≡ false
    → get key (object (updated_state state server url project)) ≡ get key (object state)
unfolding updated_state get
other-updated state server url project key h k =
    get-set_other key (lit "servers")
      (put_record server (next_record (record_of server state) url project)
        (get (lit "servers") (object state)))
      (set_field (lit "version") (number (whole 1)) state) k
    ∙ get-set_other key (lit "version") (number (whole 1)) state h

-- The current project in a record that `set` was asked to put for a project: this project; with no
-- project given, the one of the record before; and none if there was none.
pub data IsCurrentProject (project : Text) (previous found : Value) : Type 0 where
  given :
      is_set project ≡ true
      → found ≡ some (string project)
      → IsCurrentProject project previous found
  kept :
      is_set project ≡ false
      → is_truthy previous ≡ true
      → found ≡ previous
      → IsCurrentProject project previous found
  missing :
      is_set project ≡ false
      → is_truthy previous ≡ false
      → found ≡ none
      → IsCurrentProject project previous found

get-kept_project :
    (previous : Value) (project : Text)
    → is_set project ≡ false
    → IsCurrentProject project previous
        (get_field (lit "currentActiveProject") (kept_project previous))
unfolding kept_project get_field lit text_eq is_truthy
get-kept_project none project h = missing h refl refl
get-kept_project (some v) project h = elim (Bool-cases (is_truthy (some v))) [
  | inl truthy ↦ kept h truthy (rw truthy refl)
  | inr falsy ↦ missing h falsy (rw falsy refl)
]

next_record-IsCurrentProject :
    (previous : Value) (url project : Text)
    → IsCurrentProject project
        (field_of (lit "currentActiveProject") previous)
        (field_of (lit "currentActiveProject") (some (next_record previous url project)))
unfolding next_record field_of get get_field lit text_eq
next_record-IsCurrentProject previous url project = elim (Bool-cases (is_set project)) [
  | inl active ↦ rw active (given active refl)
  | inr inactive ↦
      rw inactive
        (get-kept_project (field_of (lit "currentActiveProject") previous) project inactive)
]

next_record-url :
    (previous : Value) (url project : Text)
    → field_of (lit "jpdUrl") (some (next_record previous url project)) ≡ some (string url)
unfolding next_record field_of get get_field lit text_eq
next_record-url previous url project = refl

record-updated :
    (state servers : Fields) (server url project : Text)
    → get (lit "servers") (object state) ≡ some (object servers)
    → text_eq server (lit "__proto__") ≡ false
    → record_of server (updated_state state server url project)
      ≡ some (next_record (record_of server state) url project)
unfolding record_of field_of get
record-updated state servers server url project h own =
    rw (servers-updated state servers server url project h own) (get-set_field server _ servers)

record-other :
    (state servers : Fields) (server other url project : Text)
    → get (lit "servers") (object state) ≡ some (object servers)
    → text_eq server (lit "__proto__") ≡ false
    → text_eq server other ≡ false
    → record_of other (updated_state state server url project) ≡ record_of other state
unfolding record_of field_of get
record-other state servers server other url project h own different =
    rw (servers-updated state servers server url project h own, h)
      (get-set_other other server _ servers different)

-- If the servers of the state are an object and the ID is not "__proto__", `set` gives the server
-- the URL, and as its current project the one that was given, or else the one that it had, if any.
-- It keeps the record of every other server, and every top-level field beside the version and the
-- servers.
pub updated_state-records :
    (state servers : Fields) (server other key url project : Text)
    → get (lit "servers") (object state) ≡ some (object servers)
    → text_eq server (lit "__proto__") ≡ false
    → text_eq server other ≡ false
    → text_eq (lit "version") key ≡ false
    → text_eq (lit "servers") key ≡ false
    → let after = updated_state state server url project in
      (field_of (lit "jpdUrl") (record_of server after) ≡ some (string url))
      × IsCurrentProject project
          (field_of (lit "currentActiveProject") (record_of server state))
          (field_of (lit "currentActiveProject") (record_of server after))
      × (record_of other after ≡ record_of other state)
      × (get key (object after) ≡ get key (object state))
updated_state-records state servers server other key url project h own different not_version
      not_servers =
    let put = record-updated state servers server url project h own in
    (
      rw put (next_record-url (record_of server state) url project),
      rw put (next_record-IsCurrentProject (record_of server state) url project),
      record-other state servers server other url project h own different,
      other-updated state server url project key not_version not_servers,
    )
