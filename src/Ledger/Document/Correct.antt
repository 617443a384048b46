-- ===== src/Ledger/Document/Correct.antt =====
-- `validateDocument` accepts exactly the ledgers that `IsLedger` describes.
use mathlib.Core.Path.{subst}
use dotfiles_ai.Base.{
  ◌≤◌, ◌≡◌, ◌≢◌, ◌↔◌, refl, sym, ap, ◌∙◌, false, List, [], ◌∷◌, map, Option, none, some, ltb,
  Bool-cases, Option-cases, inl, inr, ltb-false_iff,
}
use dotfiles_ai.Base.Lists.{length, All}
use dotfiles_ai.Js.Text.{Text, lit, contains, Distinct, unseen_cons, cons_unseen}
use dotfiles_ai.Js.Json.{
  Json, Items, string, array, object, null, boolean, number, items, from_items, get,
}
use dotfiles_ai.Js.Runtime.{Runtime}
use dotfiles_ai.Diagnostics.{Errors, push}
use dotfiles_ai.Diagnostics.Reports.{Reports-report, Reports_iff, push-nil, push-eq-nil, report}
use dotfiles_ai.Ledger.Arrays.{from_items-items, items-from_items}
use dotfiles_ai.Ledger.Preflight.{max_units, preflight_document}
use dotfiles_ai.Ledger.Preflight.Correct.{IsSmall, preflight_document_iff}
use dotfiles_ai.Ledger.Unit.Correct.{IsUnit}
use dotfiles_ai.Ledger.Document.{semantic_key, nothing_seen, check_ledger, validate_document}
use dotfiles_ai.Ledger.Document.Loop.{Continues, check_units_iff, check_units-grows}
use dotfiles_ai.Ledger.Document.Cross.{Ascending, Inv-nothing_seen}

cons-not-nil {ℓ} : {A : Type ℓ} {x : A} {xs : List A} → x ∷ xs ≢ []
cons-not-nil h = cc

some-injective {ℓ} : {A : Type ℓ} {x y : A} → some x ≡ some y → x ≡ y
some-injective h = cc

module _ ⦃rt : Runtime⦄ where
  -- The same units, told by the lists of their IDs and keys.
  record Accepted (previous : Option Text) (ks : List Text) (units : List Json) : Type 0 where
    each : All IsUnit units
    ids : List Text
    ids_are : map (λ unit. get (lit "coverage_id") unit) units ≡ map (λ id. some (string id)) ids
    ascending : Ascending previous ids
    distinct : Distinct (map semantic_key units)
    unseen : All (λ k. contains k ks ≡ false) (map semantic_key units)

  Continues-Accepted :
      (previous : Option Text) (ks : List Text) (units : List Json)
      → Continues previous ks units
      → Accepted previous ks units
  Continues-Accepted previous ks [] h = record {
    each = tt;
    ids = [];
    ids_are = refl;
    ascending = tt;
    distinct = tt;
    unseen = tt;
  }
  Continues-Accepted previous ks (unit ∷ units) (is, id, at, rises, new, rest) =
      let a = Continues-Accepted (some id) (semantic_key unit ∷ ks) units rest in
      let (apart, unseen) = unseen_cons (semantic_key unit) ks (map semantic_key units) a.unseen in
      record {
        each = (is, a.each);
        ids = id ∷ a.ids;
        ids_are = rw (at, a.ids_are) refl;
        ascending = (rises, a.ascending);
        distinct = (apart, a.distinct);
        unseen = (new, unseen);
      }

  Accepted-Continues :
      (units : List Json) (ids : List Text) (previous : Option Text) (ks : List Text)
      → All IsUnit units
      → map (λ unit. get (lit "coverage_id") unit) units ≡ map (λ id. some (string id)) ids
      → Ascending previous ids
      → Distinct (map semantic_key units)
      → All (λ k. contains k ks ≡ false) (map semantic_key units)
      → Continues previous ks units
  Accepted-Continues [] ids previous ks each are asc distinct unseen = tt
  Accepted-Continues (unit ∷ units) [] previous ks each are asc distinct unseen = cc
  Accepted-Continues (unit ∷ units) (id ∷ ids) previous ks each are asc distinct unseen =
      let at : get (lit "coverage_id") unit ≡ some (string id) = cc in
      let others : map (λ u. get (lit "coverage_id") u) units ≡ map (λ j. some (string j)) ids =
        cc in
      (
        each.0,
        id,
        at,
        asc.0,
        unseen.0,
        Accepted-Continues units ids (some id) (semantic_key unit ∷ ks) each.1 others asc.1
            distinct.1
            (cons_unseen (semantic_key unit) ks (map semantic_key units) distinct.0 unseen.1),
      )

  -- A ledger that the validator accepts: an array of at most 10000 units within the limits of
  -- `preflightDocument`, each of them accepted, with their IDs ascending and no two of them with
  -- one semantic key.
  pub record IsLedger (ledger : Json) : Type 0 where
    pub units : List Json
    pub is_array : ledger ≡ array (from_items units)
    pub few : length units ≤ max_units
    pub small : IsSmall ledger
    pub each : All IsUnit units
    pub ids : List Text
    pub ids_are :
        map (λ unit. get (lit "coverage_id") unit) units ≡ map (λ id. some (string id)) ids
    pub ascending : Ascending none ids
    pub distinct : Distinct (map semantic_key units)

  no_key : (ks : List Text) → All (λ k. contains k [] ≡ false) ks
  unfolding contains
  no_key [] = tt
  no_key (k ∷ ks) = (refl, no_key ks)

  check_ledger-stops :
      (units : List Json) (m : Text) (errors : Errors) → check_ledger units (m ∷ errors) ≢ []
  unfolding check_ledger
  check_ledger-stops units m errors h =
      let kept : push [] (m ∷ errors) ≢ [] =
        λ e. absurd (cons-not-nil (push-eq-nil (m ∷ errors) e)) in
      elim (Bool-cases (ltb 0 (length (push [] (m ∷ errors))))) [
        | inl more ↦ kept (rw more at h)
        | inr none_left ↦
            kept (check_units-grows units nothing_seen (push [] (m ∷ errors)) (rw none_left at h))
      ]

  -- One message is an error.
  some-report : (m : Text) → some (report m []) ≢ some []
  some-report m h = (Reports_iff (Reports-report m)).0 (some-injective h)

  -- `errors.push(...[])` is a list without errors, and another preflight ends the run.
  check_ledger_iff :
      (units : List Json) (errors : Errors)
      → (check_ledger units errors ≡ []) ↔ ((errors ≡ []) × Continues none [] units)
  unfolding check_ledger
  check_ledger_iff units [] =
      let start = check_units_iff units nothing_seen [] Inv-nothing_seen in
      rw (push-nil []) (λ h. (refl, start.0 h), λ h. start.1 h.1)
  check_ledger_iff units (m ∷ errors) =
      (λ h. absurd (check_ledger-stops units m errors h), λ h. cc h.0)

  IsLedger-of :
      (vs : Items)
      → length (items vs) ≤ max_units
      → IsSmall (array vs)
      → Continues none [] (items vs)
      → IsLedger (array vs)
  IsLedger-of vs few small go =
      let a = Continues-Accepted none [] (items vs) go in
      record {
        units = items vs;
        is_array = ap array (sym (from_items-items vs));
        few = few;
        small = small;
        each = a.each;
        ids = a.ids;
        ids_are = a.ids_are;
        ascending = a.ascending;
        distinct = a.distinct;
      }

  IsLedger-units : (vs : Items) → (h : IsLedger (array vs)) → (h.units ≡ items vs)
  IsLedger-units vs h =
      let e : vs ≡ from_items h.units = cc (h.is_array) in
      sym (ap items e ∙ items-from_items h.units)

  IsLedger-Continues : (vs : Items) → (h : IsLedger (array vs)) → Continues none [] (items vs)
  IsLedger-Continues vs h =
      subst (Continues none []) (IsLedger-units vs h) (
        Accepted-Continues h.units h.ids none [] h.each h.ids_are h.ascending h.distinct (no_key _))

  validate_array_iff : (vs : Items) → (validate_document (array vs) ≡ some []) ↔ IsLedger (array vs)
  unfolding validate_document
  validate_array_iff vs = elim (Bool-cases (ltb max_units (length (items vs)))) [
    | inl many ↦ rw many (
      λ h. absurd (some-report _ h),
      λ h.
          let at_most : length (items vs) ≤ max_units =
            subst (λ us. length us ≤ max_units) (IsLedger-units vs h) h.few in
          cc (many, (ltb-false_iff _ _).1 at_most),
    )
    | inr few ↦ rw few (elim (Option-cases (preflight_document (array vs))) [
      | inl e ↦ absurd ((preflight_document_iff (array vs)).0 e)
      | inr (errors, e) ↦ rw e (
        λ h.
            let both = (check_ledger_iff (items vs) errors).0 (some-injective h) in
            IsLedger-of vs ((ltb-false_iff _ _).0 few)
              ((preflight_document_iff (array vs)).1.0 (e ∙ ap some both.0)) both.1,
        λ h.
            let quiet : errors ≡ [] =
              some-injective (sym e ∙ (preflight_document_iff (array vs)).1.1 h.small) in
            ap some ((check_ledger_iff (items vs) errors).1 (quiet, IsLedger-Continues vs h)),
      )
    ])
  ]

  -- `validateDocument` returns an empty list of errors exactly for the ledgers that `IsLedger`
  -- describes.
  pub validate_document_iff :
      (ledger : Json) → (validate_document ledger ≡ some []) ↔ IsLedger ledger
  unfolding validate_document
  validate_document_iff (array vs) = validate_array_iff vs
  validate_document_iff null = (λ h. absurd (some-report _ h), λ h. let e = h.is_array in cc)
  validate_document_iff (boolean b) = (λ h. absurd (some-report _ h), λ h. let e = h.is_array in cc)
  validate_document_iff (number x) = (λ h. absurd (some-report _ h), λ h. let e = h.is_array in cc)
  validate_document_iff (string s) = (λ h. absurd (some-report _ h), λ h. let e = h.is_array in cc)
  validate_document_iff (object fs) = (λ h. absurd (some-report _ h), λ h. let e = h.is_array in cc)
