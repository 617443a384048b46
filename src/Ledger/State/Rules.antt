-- ===== src/Ledger/State/Rules.antt =====
-- What each status asks of a unit, as a table, and that `validateStateInvariants` follows it.
use dotfiles_ai.Base.{◌≡◌, refl, true, false, not, some, none, Option, arith, ◌↔◌, []}
use dotfiles_ai.Js.Text.{Text, lit, text_eq}
use dotfiles_ai.Js.Json.{Json, null, string, get, is_text, is_text_iff, is_null, is_null_iff, Value}
use dotfiles_ai.Js.Runtime.{Runtime}
use dotfiles_ai.Diagnostics.Reports.{
  Reports_iff, Check, ◌>>◌, report_if, Reports, Reports-report_if, Reports-report_unless,
  Reports-seq, Reports-map, Reports-pass,
}
use dotfiles_ai.Ledger.Values.{is_safe_agent_id}
use dotfiles_ai.Ledger.State.{
  Status, planned, not_applicable, out_of_scope, in_progress, covered, candidate, blocked, deferred,
  status_name, status_of, has_entries, validate_state_invariants, require_empty_array,
  require_nonempty_array, empty_evidence, require_owner, set_aside,
}

pub data Owner : Type 0 where
  unassigned assigned : Owner

pub data Amount : Type 0 where
  nothing something anything : Amount

pub record Rule : Type 0 where
  pub owner : Owner
  pub evidence : Amount
  pub unresolved : Amount
  pub fingerprints : Amount

abbrev aside : Rule
aside = record {
  owner = unassigned;
  evidence = nothing;
  unresolved = something;
  fingerprints = nothing;
}

-- The table.
abbrev pub rule : Status → Rule
rule planned = record {
  owner = unassigned;
  evidence = nothing;
  unresolved = nothing;
  fingerprints = nothing;
}
rule not_applicable = aside
rule out_of_scope = aside
rule deferred = aside
rule in_progress = record {
  owner = assigned;
  evidence = nothing;
  unresolved = nothing;
  fingerprints = nothing;
}
rule blocked = record {
  owner = assigned;
  evidence = something;
  unresolved = something;
  fingerprints = nothing;
}
rule covered = record {
  owner = assigned;
  evidence = something;
  unresolved = nothing;
  fingerprints = nothing;
}
rule candidate = record {
  owner = assigned;
  evidence = something;
  unresolved = anything;
  fingerprints = something;
}

abbrev pub OwnerIs : Owner → Value → Type 0
OwnerIs unassigned v = v ≡ some null
OwnerIs assigned v = is_safe_agent_id v ≡ true

abbrev pub Holds : Amount → Value → Type 0
Holds nothing v = has_entries v ≡ false
Holds something v = has_entries v ≡ true
Holds anything v = Unit

pub record Follows (r : Rule) (unit : Json) : Type 0 where
  pub owner : OwnerIs r.owner (get (lit "agent_id") unit)
  pub reviewed_paths : Holds r.evidence (get (lit "reviewed_paths") unit)
  pub local_checks : Holds r.evidence (get (lit "local_checks") unit)
  pub unresolved : Holds r.unresolved (get (lit "unresolved") unit)
  pub fingerprints : Holds r.fingerprints (get (lit "result_fingerprints") unit)

-- A status that is not one of the eight asks only that there be no fingerprints.
abbrev pub StateOk : Option Status → Json → Type 0
StateOk (some s) unit = Follows (rule s) unit
StateOk none unit = Holds nothing (get (lit "result_fingerprints") unit)

pub status_of-status_name : (s : Status) → status_of (some (string (status_name s))) ≡ some s
unfolding status_of status_name is_text lit text_eq
status_of-status_name planned = refl
status_of-status_name _ = refl

pub status_of-some :
    (v : Value) (s : Status) → status_of v ≡ some s → v ≡ some (string (status_name s))
unfolding status_of status_name
status_of-some v s h = ground (
  arith,
  is_text_iff (lit "planned") v,
  is_text_iff (lit "not_applicable") v,
  is_text_iff (lit "out_of_scope") v,
  is_text_iff (lit "in_progress") v,
  is_text_iff (lit "covered") v,
  is_text_iff (lit "candidate") v,
  is_text_iff (lit "blocked") v,
  is_text_iff (lit "deferred") v,
)

module _ ⦃rt : Runtime⦄ (unit : Json) (base : Text) where
  unassigned-Reports :
      (v : Value) (m : Text) → Reports (report_if (not (is_null v)) m) (v ≡ some null)
  unassigned-Reports v m =
      Reports-map (Reports-report_unless _ m) (is_null_iff v).0 (is_null_iff v).1

  empty-Reports :
      (f : Text) → Reports (require_empty_array unit base f) (Holds nothing (get f unit))
  unfolding require_empty_array
  empty-Reports f = Reports-report_if _ _

  nonempty-Reports :
      (f : Text) → Reports (require_nonempty_array unit base f) (Holds something (get f unit))
  unfolding require_nonempty_array
  nonempty-Reports f = Reports-report_unless _ _

  no_evidence-Reports : Reports (empty_evidence unit base) (
      Holds nothing (get (lit "reviewed_paths") unit)
      × Holds nothing (get (lit "local_checks") unit))
  unfolding empty_evidence
  no_evidence-Reports = Reports-seq (empty-Reports _) (empty-Reports _)

  owner-Reports : Reports (require_owner unit base) (OwnerIs assigned (get (lit "agent_id") unit))
  unfolding require_owner
  owner-Reports = Reports-report_unless _ _

  -- the statuses without evidence
  without_evidence :
      {owner rest : Check} (o : Owner) (u : Amount)
      → Reports owner (OwnerIs o (get (lit "agent_id") unit))
      → Reports rest (Holds u (get (lit "unresolved") unit))
      → Reports
          (require_empty_array unit base (lit "result_fingerprints")
            >> (owner >> (empty_evidence unit base >> rest)))
          (Follows
            (record { owner = o; evidence = nothing; unresolved = u; fingerprints = nothing })
            unit)
  without_evidence o u ro ru =
      Reports-map
        (Reports-seq (empty-Reports _) (Reports-seq ro (Reports-seq no_evidence-Reports ru)))
        (λ h. record {
          owner = h.1.0;
          reviewed_paths = h.1.1.0.0;
          local_checks = h.1.1.0.1;
          unresolved = h.1.1.1;
          fingerprints = h.0;
        })
        (λ h. (h.fingerprints, (h.owner, ((h.reviewed_paths, h.local_checks), h.unresolved))))

  -- the statuses with evidence; `first` and `last` are what stands round it
  with_evidence :
      {first last : Check} {P Q : Type 0} (u f : Amount)
      → Reports first P
      → Reports last Q
      → (P × Q
          → Holds u (get (lit "unresolved") unit) × Holds f (get (lit "result_fingerprints") unit))
      → (Holds u (get (lit "unresolved") unit) × Holds f (get (lit "result_fingerprints") unit)
          → P × Q)
      → Reports
          (first
            >> (require_owner unit base
                >> (require_nonempty_array unit base (lit "reviewed_paths")
                    >> (require_nonempty_array unit base (lit "local_checks") >> last))))
          (Follows
            (record { owner = assigned; evidence = something; unresolved = u; fingerprints = f })
            unit)
  with_evidence u f rf rl there back =
      Reports-map
        (Reports-seq rf (
          Reports-seq owner-Reports
            (Reports-seq (nonempty-Reports _) (Reports-seq (nonempty-Reports _) rl))))
        (λ h.
          let found = there (h.0, h.1.1.1.1) in
          record {
            owner = h.1.0;
            reviewed_paths = h.1.1.0;
            local_checks = h.1.1.1.0;
            unresolved = found.0;
            fingerprints = found.1;
          })
        (λ h.
          let ends = back (h.unresolved, h.fingerprints) in
          (ends.0, (h.owner, (h.reviewed_paths, (h.local_checks, ends.1)))))

  set_aside-Reports :
      Reports
        (require_empty_array unit base (lit "result_fingerprints") >> set_aside unit base)
        (Follows aside unit)
  unfolding set_aside
  set_aside-Reports =
      without_evidence unassigned something (unassigned-Reports _ _) (nonempty-Reports _)

  with_status :
      (s : Option Status)
      → status_of (get (lit "status") unit) ≡ s
      → Reports (validate_state_invariants unit base) (StateOk s unit)
  unfolding validate_state_invariants
  with_status none e =
      rw e (Reports-map (Reports-seq (empty-Reports _) Reports-pass) (λ h. h.0) (λ h. (h, tt)))
  with_status (some planned) e =
      rw e (without_evidence unassigned nothing (unassigned-Reports _ _) (empty-Reports _))
  with_status (some not_applicable) e = rw e set_aside-Reports
  with_status (some out_of_scope) e = rw e set_aside-Reports
  with_status (some deferred) e = rw e set_aside-Reports
  with_status (some in_progress) e =
      rw e (without_evidence assigned nothing owner-Reports (empty-Reports _))
  with_status (some blocked) e = rw e (
      with_evidence something nothing (empty-Reports _) (nonempty-Reports _) (λ h. (h.1, h.0))
        (λ h. (h.1, h.0)))
  with_status (some covered) e = rw e (
      with_evidence nothing nothing (empty-Reports _) (empty-Reports _) (λ h. (h.1, h.0))
        (λ h. (h.1, h.0)))
  with_status (some candidate) e = rw e (
      with_evidence anything something Reports-pass (nonempty-Reports _) (λ h. (tt, h.1))
        (λ h. (tt, h.1)))

  -- A unit reports nothing about its state exactly when it follows the rule of its status.
  pub validate_state_invariants-Reports :
      Reports
        (validate_state_invariants unit base)
        (StateOk (status_of (get (lit "status") unit)) unit)
  validate_state_invariants-Reports = with_status _ refl

  -- `validateStateInvariants` adds no error exactly if the unit follows the rule of its status;
  -- without one of the eight statuses, it adds none exactly if there are no fingerprints.
  pub validate_state_invariants_iff :
      (validate_state_invariants unit base [] ≡ [])
      ↔ StateOk (status_of (get (lit "status") unit)) unit
  validate_state_invariants_iff = Reports_iff validate_state_invariants-Reports
