-- ===== src/Ledger/Document/Loop.antt =====
-- The loop of `validateDocument` over the units, for a list that is empty before it.
use dotfiles_ai.Base.{
  ◌≡◌, ◌↔◌, refl, sym, ap, ◌∙◌, Bool, true, false, List, [], ◌∷◌, Option, none, some, leb, arith,
  Bool-cases, inl, inr,
}
use dotfiles_ai.Base.Lists.{length, All, all}
use dotfiles_ai.Js.Text.{Text, lit, contains}
use dotfiles_ai.Js.Json.{Json, string, array, object, null, boolean, number, get, Value}
use dotfiles_ai.Js.Runtime.{Runtime}
use dotfiles_ai.Diagnostics.{Errors, max_errors, push}
use dotfiles_ai.Diagnostics.Reports.{
  Reports-nil, Reports-seq, Reports_iff, push-nil, push-eq-nil, push-eq-nil_iff,
}
use dotfiles_ai.Ledger.Values.{is_visible_text}
use dotfiles_ai.Ledger.CoverageId.{ref_fields}
use dotfiles_ai.Ledger.Unit.{max_id_length, collect_unit_errors}
use dotfiles_ai.Ledger.Unit.Correct.{IsUnit, collect_unit_errors_iff}
use dotfiles_ai.Ledger.Document.{
  semantic_key, Seen, next_seen, skip, has_valid_semantic_fields, key_of, cross_check, id_of,
  text_of, check_units,
}
use dotfiles_ai.Ledger.Document.Cross.{
  Rises, check_id-Reports, check_key-Reports, check_key-none, check_order-Reports, Inv,
  Inv-next_seen, cross_check-Reports,
}

all-All {ℓ} : {A : Type ℓ} (p : A → Bool) (xs : List A) → All (λ x. p x ≡ true) xs → all p xs ≡ true
all-All p [] h = refl
all-All p (x ∷ xs) h = ground (arith, all-All p xs h.1, h.0)

module _ ⦃rt : Runtime⦄ where
  -- Units that are accepted after an ID and the semantic keys of earlier units.
  abbrev pub Continues : Option Text → List Text → List Json → Type 0
  Continues previous ks [] = Unit
  Continues previous ks (unit ∷ units) =
      IsUnit unit
      × (id : Text) × (get (lit "coverage_id") unit ≡ some (string id))
      × Rises previous id
      × (contains (semantic_key unit) ks ≡ false)
      × Continues (some id) (semantic_key unit ∷ ks) units

  text_of-visible :
      (v : Value) → is_visible_text v max_id_length ≡ true → (id : Text) × (v ≡ some (string id))
  unfolding is_visible_text
  text_of-visible (some (string id)) h = (id, refl)
  text_of-visible none h = cc
  text_of-visible (some null) h = cc
  text_of-visible (some (boolean b)) h = cc
  text_of-visible (some (number x)) h = cc
  text_of-visible (some (array vs)) h = cc
  text_of-visible (some (object fs)) h = cc

  IsUnit-id :
      (unit : Json)
      → IsUnit unit
      → (id : Text) × (get (lit "coverage_id") unit ≡ some (string id)) × (id_of unit ≡ some id)
  unfolding id_of
  IsUnit-id unit h = let (id, e) = text_of-visible _ h.id.visible in (id, e, ap text_of e)

  id_of-text :
      (unit : Json) (id : Text)
      → get (lit "coverage_id") unit ≡ some (string id)
      → id_of unit ≡ some id
  unfolding id_of
  id_of-text unit id e = ap text_of e

  IsUnit-key : (unit : Json) → IsUnit unit → key_of unit ≡ some (semantic_key unit)
  unfolding key_of has_valid_semantic_fields
  IsUnit-key unit h =
      let texts = all-All _ ref_fields h.texts.texts in let cycle = h.texts.cycle in ground (arith)

  cross_check-grows :
      (seen : Seen) (id : Text) (key : Option Text) (errors : Errors)
      → cross_check seen id key errors ≡ []
      → errors ≡ []
  unfolding cross_check
  cross_check-grows seen id none errors h =
      (Reports-nil errors
        (Reports-seq (check_id-Reports seen id none)
          (Reports-seq (check_key-none seen id) (check_order-Reports seen id)))
        h).0
  cross_check-grows seen id (some k) errors h =
      (Reports-nil errors
        (Reports-seq (check_id-Reports seen id (some k))
          (Reports-seq (check_key-Reports seen id k) (check_order-Reports seen id)))
        h).0

  -- What the loop does after `collectUnitErrors`, for a list with room.
  abbrev go_on : Seen → Json → List Json → Errors → Option Text → Errors
  go_on seen unit units after none = check_units (skip seen) units after
  go_on seen unit units after (some id) =
      check_units (next_seen seen id (key_of unit)) units (cross_check seen id (key_of unit) after)

  abbrev after_unit : Seen → Json → Errors → Errors
  after_unit seen unit errors = push errors (collect_unit_errors unit seen.index)

  check_units-go_on :
      (seen : Seen) (unit : Json) (units : List Json) (errors : Errors)
      → leb max_errors (length errors) ≡ false
      → leb max_errors (length (after_unit seen unit errors)) ≡ false
      → check_units seen (unit ∷ units) errors
        ≡ go_on seen unit units (after_unit seen unit errors) (id_of unit)
  unfolding check_units
  check_units-go_on seen unit units errors room more = rw (room, more) refl

  check_units-full :
      (seen : Seen) (unit : Json) (units : List Json) (errors : Errors)
      → leb max_errors (length errors) ≡ false
      → leb max_errors (length (after_unit seen unit errors)) ≡ true
      → check_units seen (unit ∷ units) errors ≡ after_unit seen unit errors
  unfolding check_units
  check_units-full seen unit units errors room full = rw (room, full) refl

  go_on-grows :
      (seen : Seen) (unit : Json) (units : List Json) (after : Errors) (o : Option Text)
      → ((s : Seen) (errors : Errors) → check_units s units errors ≡ [] → errors ≡ [])
      → go_on seen unit units after o ≡ []
      → after ≡ []
  go_on-grows seen unit units after none grows e = grows (skip seen) after e
  go_on-grows seen unit units after (some id) grows e =
      cross_check-grows seen id (key_of unit) after (grows _ _ e)

  -- The loop leaves no error only where there was none.
  pub check_units-grows :
      (units : List Json) (seen : Seen) (errors : Errors)
      → check_units seen units errors ≡ []
      → errors ≡ []
  unfolding check_units
  check_units-grows [] seen errors h = h
  check_units-grows (unit ∷ units) seen errors h =
      elim (Bool-cases (leb max_errors (length errors))) [
        | inl full ↦ rw full at h
        | inr room ↦
            (push-eq-nil_iff errors (collect_unit_errors unit seen.index)
              (elim (Bool-cases (leb max_errors (length (after_unit seen unit errors)))) [
                | inl full ↦ sym (check_units-full seen unit units errors room full) ∙ h
                | inr more ↦
                    go_on-grows seen unit units _ (id_of unit) (check_units-grows units)
                      (sym (check_units-go_on seen unit units errors room more) ∙ h)
              ])).0
      ]

  -- One round of the loop, on a list without errors.
  check_units-cons :
      (seen : Seen) (unit : Json) (units : List Json)
      → check_units seen (unit ∷ units) [] ≡ []
      → collect_unit_errors unit seen.index ≡ []
  check_units-cons seen unit units h =
      elim (Bool-cases (leb max_errors (length (after_unit seen unit [])))) [
        | inl full ↦ push-eq-nil _ (sym (check_units-full seen unit units [] refl full) ∙ h)
        | inr more ↦ push-eq-nil _ (
            go_on-grows seen unit units _ (id_of unit) (check_units-grows units)
              (sym (check_units-go_on seen unit units [] refl more) ∙ h))
      ]

  check_units-unit :
      (seen : Seen) (unit : Json) (units : List Json) (id : Text)
      → IsUnit unit
      → get (lit "coverage_id") unit ≡ some (string id)
      → check_units seen (unit ∷ units) []
        ≡ check_units
            (next_seen seen id (some (semantic_key unit)))
            units
            (cross_check seen id (some (semantic_key unit)) [])
  check_units-unit seen unit units id is at =
      let after : after_unit seen unit [] ≡ [] =
        rw ((collect_unit_errors_iff unit seen.index).1 is) (push-nil []) in
      check_units-go_on seen unit units [] refl (rw after refl)
      ∙ rw (after, id_of-text unit id at, IsUnit-key unit is) refl

  -- The loop, on a list without errors.
  pub check_units_iff :
      (units : List Json) (seen : Seen) (ks : List Text)
      → Inv seen ks
      → (check_units seen units [] ≡ []) ↔ Continues seen.previous ks units
  unfolding check_units next_seen
  check_units_iff [] seen ks inv = (λ _. tt, λ _. refl)
  check_units_iff (unit ∷ units) seen ks inv = (
    λ h.
        let is = (collect_unit_errors_iff unit seen.index).0 (check_units-cons seen unit units h) in
        let (id, at, _) = IsUnit-id unit is in
        let next = sym (check_units-unit seen unit units id is at) ∙ h in
        let quiet = check_units-grows units _ _ next in
        let (rises, new) =
          (Reports_iff (cross_check-Reports seen ks id (semantic_key unit) inv)).0 quiet in
        let inv' = Inv-next_seen seen ks id (semantic_key unit) inv rises new in
        (is, id, at, rises, new, (check_units_iff units _ _ inv').0 (rw quiet at next)),
    λ h.
        let (is, id, at, rises, new, rest) = h in
        let quiet =
          (Reports_iff (cross_check-Reports seen ks id (semantic_key unit) inv)).1 (rises, new) in
        let inv' = Inv-next_seen seen ks id (semantic_key unit) inv rises new in
        check_units-unit seen unit units id is at
        ∙ rw quiet ((check_units_iff units _ _ inv').1 rest),
  )
