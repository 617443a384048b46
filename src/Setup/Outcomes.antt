-- ===== src/Setup/Outcomes.antt =====
-- What a run of `set` leaves on the disk, and what `get-current-project` then finds.
-- (dot_agents/skills/jfrog-init/scripts/jfrog-state-file.mjs)
use dotfiles_ai.Base.{
  ℕ, ◌+◌, ◌≡◌, ◌≢◌, refl, ◌∙◌, inl, inr, Bool, true, false, not, ◌&&◌, ◌||◌, if◌then◌else◌, [], ◌∷◌,
  ◌++◌, Option, none, some, ltb, Bool-cases,
}
use dotfiles_ai.Js.Text.{Text, lit, text_eq}
use dotfiles_ai.Js.Json.{Fields, string, object, end, field, get, get_field}
use dotfiles_ai.Js.Strings.{trim, is_set}
use dotfiles_ai.Setup.{
  Machine, Disk, stale_lock_ms, release_lock, Locked, lock_error, busy, acquired, reclaim_if_stale,
  retry_lock, acquire_lock, has_servers, parsed_state, load_state, record_of, field_of, next_record,
  updated_state, Outcome, ok, write_state, set_locked, set_state_for_server, get_current_project,
}
use dotfiles_ai.Setup.Records.{get-set_field, servers-updated}

-- What a run of `set` leaves: it is done, with the new state written, and with no lock if it can
-- remove its own, which is there otherwise; or the state file is as it was.
pub data Left (m : Machine) (server url project : Text) (before : Disk) (r : Outcome × Disk)
    : Type 0 where
  done :
      r.0 ≡ ok
      → r.1.lock ≡ (if m.releases then none else some m.now)
      → r.1.setup
        ≡ some (
            m.stringify (object (updated_state (load_state m before.setup) server url project))
            ++ 10 ∷ [])
      → Left m server url project before r
  undone : r.0 ≢ ok → r.1.setup ≡ before.setup → Left m server url project before r

reclaim-setup :
    (m : Machine) (disk : Disk) (made : ℕ) → (reclaim_if_stale m disk made).setup ≡ disk.setup
unfolding reclaim_if_stale
reclaim-setup m disk made = elim (Bool-cases (m.reclaims && ltb (made + stale_lock_ms) m.now)) [
  | inl stale ↦ rw stale refl
  | inr fresh ↦ rw fresh refl
]

retry-setup :
    (m : Machine) (disk : Disk) (lock : Option ℕ) → (retry_lock m disk lock).1.setup ≡ disk.setup
unfolding retry_lock
retry-setup m disk (some made) = refl
retry-setup m disk none = elim (Bool-cases m.creates_lock) [
  | inl there ↦ rw there refl
  | inr not_there ↦ rw not_there refl
]

acquire-setup :
    (m : Machine) (disk : Disk) (lock : Option ℕ) → (acquire_lock m disk lock).1.setup ≡ disk.setup
unfolding acquire_lock
acquire-setup m disk none = elim (Bool-cases m.creates_lock) [
  | inl there ↦ rw there refl
  | inr not_there ↦ rw not_there refl
]
acquire-setup m disk (some made) =
    retry-setup m (reclaim_if_stale m disk made) (reclaim_if_stale m disk made).lock
    ∙ reclaim-setup m disk made

and_false : (b : Bool) → (b && false) ≡ false
and_false true = refl
and_false false = refl

retry-own :
    (m : Machine) (disk : Disk) (lock : Option ℕ)
    → (retry_lock m disk lock).0 ≡ acquired
    → (retry_lock m disk lock).1.lock ≡ some m.now
unfolding retry_lock
retry-own m disk (some made) = λ h. cc
retry-own m disk none = elim (Bool-cases m.creates_lock) [
  | inl there ↦ rw there (λ h. refl)
  | inr not_there ↦ rw not_there (λ h. cc)
]

acquire-own :
    (m : Machine) (disk : Disk) (lock : Option ℕ)
    → (acquire_lock m disk lock).0 ≡ acquired
    → (acquire_lock m disk lock).1.lock ≡ some m.now
unfolding acquire_lock
acquire-own m disk none = elim (Bool-cases m.creates_lock) [
  | inl there ↦ rw there (λ h. refl)
  | inr not_there ↦ rw not_there (λ h. cc)
]
acquire-own m disk (some made) =
    retry-own m (reclaim_if_stale m disk made) (reclaim_if_stale m disk made).lock

setup-released : (m : Machine) (disk : Disk) → (release_lock m disk).setup ≡ disk.setup
unfolding release_lock
setup-released m disk = elim (Bool-cases m.releases) [
  | inl there ↦ rw there refl
  | inr not_there ↦ rw not_there refl
]

lock-released :
    (m : Machine) (disk : Disk)
    → disk.lock ≡ some m.now
    → (release_lock m disk).lock ≡ (if m.releases then none else some m.now)
unfolding release_lock
lock-released m disk own = elim (Bool-cases m.releases) [
  | inl there ↦ rw there refl
  | inr not_there ↦ rw not_there own
]

module _ (m : Machine) (server url project : Text) where
  locked-Left :
      (before : Disk) (r : Locked × Disk)
      → r.1.setup ≡ before.setup
      → (r.0 ≡ acquired → r.1.lock ≡ some m.now)
      → Left m server url project before (set_locked m server url project r)
  unfolding set_locked write_state
  locked-Left before (lock_error, disk) h own = undone (λ e. cc) h
  locked-Left before (busy, disk) h own = undone (λ e. cc) h
  locked-Left before (acquired, disk) h own =
      let state = updated_state (load_state m disk.setup) server url project in
      let next : Disk = record disk { setup = some (m.stringify (object state) ++ 10 ∷ []) } in
      elim (Bool-cases m.writes) [
        | inl there ↦
            rw there
              (done refl (lock-released m next (own refl)) (setup-released m next ∙ rw h refl))
        | inr not_there ↦ rw not_there (undone (λ e. cc) (setup-released m disk ∙ h))
      ]

  -- However `set` ends, it is ok, has written the new state, and left no lock, or its own if this
  -- cannot be removed; or it is not ok and the state file is as it was.
  pub set_state_for_server-Left :
      (before : Disk)
      → Left m server url project before (set_state_for_server m server url project before)
  unfolding set_state_for_server
  set_state_for_server-Left before = elim (Bool-cases (not (is_set server) || not (is_set url))) [
    | inl bad ↦ rw bad (undone (λ e. cc) refl)
    | inr good ↦ rw good (elim (Bool-cases (not m.makes_dir)) [
      | inl no_dir ↦ rw no_dir (undone (λ e. cc) refl)
      | inr dir ↦ rw dir (
          locked-Left before (acquire_lock m before before.lock)
            (acquire-setup m before before.lock) (acquire-own m before before.lock))
    ])
  ]

  busy-excluded :
      (before : Disk) (made : ℕ)
      → ltb (made + stale_lock_ms) m.now ≡ false
      → before.lock ≡ some made
      → acquire_lock m before before.lock ≡ (busy, before)
  unfolding acquire_lock reclaim_if_stale retry_lock
  busy-excluded before made fresh h = rw h (rw (fresh, and_false m.reclaims) refl)

  -- While another run holds a lock that is not older than 30 seconds, `set` is not ok, and changes
  -- neither the state file nor the lock.
  pub set_state_for_server-excluded :
      (before : Disk) (made : ℕ)
      → before.lock ≡ some made
      → ltb (made + stale_lock_ms) m.now ≡ false
      → let r = set_state_for_server m server url project before in (r.0 ≢ ok) × (r.1 ≡ before)
  unfolding set_state_for_server set_locked
  set_state_for_server-excluded before made h fresh =
      elim (Bool-cases (not (is_set server) || not (is_set url))) [
        | inl bad ↦ rw bad (λ e. cc, refl)
        | inr good ↦ rw good (elim (Bool-cases (not m.makes_dir)) [
          | inl no_dir ↦ rw no_dir (λ e. cc, refl)
          | inr dir ↦ rw (dir, busy-excluded before made fresh h) (λ e. cc, refl)
        ])
      ]

  loaded-again :
      (state servers : Fields) (raw : Text)
      → get (lit "servers") (object state) ≡ some (object servers)
      → text_eq server (lit "__proto__") ≡ false
      → m.parse raw ≡ some (object (updated_state state server url project))
      → is_set (trim raw) ≡ true
      → load_state m (some raw) ≡ updated_state state server url project
  unfolding load_state parsed_state has_servers
  loaded-again state servers raw h own parsed text =
      rw (text, parsed, servers-updated state servers server url project h own) refl

  found-again :
      (disk : Disk) (state servers : Fields) (raw : Text)
      → disk.setup ≡ some raw
      → load_state m (some raw) ≡ updated_state state server url project
      → get (lit "servers") (object state) ≡ some (object servers)
      → text_eq server (lit "__proto__") ≡ false
      → is_set server ≡ true
      → is_set project ≡ true
      → get_current_project m disk server
        ≡ object (
            field
              (lit "currentActiveProject")
              (string project)
              (field (lit "jpdUrl") (string url) end))
  unfolding get_current_project record_of field_of next_record get get_field lit text_eq
  found-again disk state servers raw there again h own named active =
      rw (there, again, servers-updated state servers server url project h own)
        (rw (named, get-set_field server (next_record (record_of server state) url project) servers)
          (rw active refl))

  -- If `set` is ok, the servers in the state that it loaded are an object, the ID of the server is
  -- not "__proto__", `JSON.parse` reads what it wrote as the state that it saved, this text is not
  -- blank, and an ID and a project were given, then `get-current-project` on the disk that it leaves
  -- gives this project and this URL.
  pub get_current_project-set_state_for_server :
      (before : Disk) (servers : Fields)
      → let state = load_state m before.setup in
        let saved = updated_state state server url project in
        let raw = m.stringify (object saved) ++ 10 ∷ [] in
        let r = set_state_for_server m server url project before in
        r.0 ≡ ok
        → get (lit "servers") (object state) ≡ some (object servers)
        → text_eq server (lit "__proto__") ≡ false
        → m.parse raw ≡ some (object saved)
        → is_set (trim raw) ≡ true
        → is_set server ≡ true
        → is_set project ≡ true
        → get_current_project m r.1 server
          ≡ object (
              field
                (lit "currentActiveProject")
                (string project)
                (field (lit "jpdUrl") (string url) end))
  get_current_project-set_state_for_server before servers worked h own parsed text named active =
      let state = load_state m before.setup in
      let raw = m.stringify (object (updated_state state server url project)) ++ 10 ∷ [] in
      elim (set_state_for_server-Left before) [
        | done e free written ↦
            found-again (set_state_for_server m server url project before).1 state servers raw
              written (loaded-again state servers raw h own parsed text) h own named active
        | undone e same ↦ absurd (e worked)
      ]
