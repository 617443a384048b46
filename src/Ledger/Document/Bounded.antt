-- ===== src/Ledger/Document/Bounded.antt =====
-- `validateDocument` always returns a list of at most 100 errors.
use dotfiles_ai.Base.{
  ◌≤◌, ◌≡◌, refl, List, [], ◌∷◌, Option, none, some, ltb, leb, arith, Bool-cases, Option-cases, inl,
  inr,
}
use dotfiles_ai.Base.Lists.{length}
use dotfiles_ai.Js.Text.{Text}
use dotfiles_ai.Js.Json.{Json, Items, items, null, boolean, number, string, array, object}
use dotfiles_ai.Js.Runtime.{Runtime}
use dotfiles_ai.Diagnostics.{Errors, max_errors, push}
use dotfiles_ai.Diagnostics.Reports.{
  Reports-length, Reports-seq, Reports-report, length-push, report,
}
use dotfiles_ai.Ledger.Preflight.{max_units, preflight_document}
use dotfiles_ai.Ledger.Preflight.Correct.{preflight_document_iff}
use dotfiles_ai.Ledger.Unit.{collect_unit_errors}
use dotfiles_ai.Ledger.Document.{
  Seen, nothing_seen, next_seen, skip, id_of, key_of, cross_check, check_units, check_ledger,
  validate_document,
}
use dotfiles_ai.Ledger.Document.Cross.{
  check_id-Reports, check_key-Reports, check_key-none, check_order-Reports,
}

module _ ⦃rt : Runtime⦄ where
  length-cross_check :
      (seen : Seen) (id : Text) (key : Option Text) (errors : Errors)
      → length errors ≤ max_errors
      → length (cross_check seen id key errors) ≤ max_errors
  unfolding cross_check
  length-cross_check seen id none errors h =
      Reports-length errors
        (Reports-seq (check_id-Reports seen id none)
          (Reports-seq (check_key-none seen id) (check_order-Reports seen id)))
        h
  length-cross_check seen id (some k) errors h =
      Reports-length errors
        (Reports-seq (check_id-Reports seen id (some k))
          (Reports-seq (check_key-Reports seen id k) (check_order-Reports seen id)))
        h

  length-check_units :
      (units : List Json) (seen : Seen) (errors : Errors)
      → length errors ≤ max_errors
      → length (check_units seen units errors) ≤ max_errors
  unfolding check_units
  length-check_units [] seen errors h = h
  length-check_units (unit ∷ units) seen errors h =
      let after = push errors (collect_unit_errors unit seen.index) in
      let pushed : length after ≤ max_errors = length-push errors _ h in
      elim (Bool-cases (leb max_errors (length errors))) [
        | inl full ↦ rw full h
        | inr room ↦ rw room (elim (Bool-cases (leb max_errors (length after))) [
          | inl full ↦ rw full pushed
          | inr more ↦ rw more (elim (Option-cases (id_of unit)) [
            | inl e ↦ rw e (length-check_units units (skip seen) after pushed)
            | inr (id, e) ↦ rw e (
                length-check_units units (next_seen seen id (key_of unit)) _
                  (length-cross_check seen id (key_of unit) after pushed))
          ])
        ])
      ]

  length-check_ledger :
      (units : List Json) (errors : Errors) → length (check_ledger units errors) ≤ max_errors
  unfolding check_ledger
  length-check_ledger units errors =
      let start : length (push [] errors) ≤ max_errors = length-push [] errors (omega arith) in
      elim (Bool-cases (ltb 0 (length (push [] errors)))) [
        | inl some_there ↦ rw some_there start
        | inr none_there ↦ rw none_there (length-check_units units nothing_seen _ start)
      ]

  length-report : (m : Text) → length (report m []) ≤ max_errors
  length-report m = Reports-length [] (Reports-report m) (omega arith)

  abbrev AtMost : Option Errors → Type 0
  AtMost none = ⊥
  AtMost (some errors) = length errors ≤ max_errors

  AtMost-some :
      (o : Option Errors)
      → AtMost o
      → (errors : Errors) × (o ≡ some errors) × (length errors ≤ max_errors)
  AtMost-some none h = elim h [ ]
  AtMost-some (some errors) h = (errors, refl, h)

  validate_array-AtMost : (vs : Items) → AtMost (validate_document (array vs))
  unfolding validate_document
  validate_array-AtMost vs = elim (Bool-cases (ltb max_units (length (items vs)))) [
    | inl many ↦ rw many (length-report _)
    | inr few ↦ rw few (elim (Option-cases (preflight_document (array vs))) [
      | inl e ↦ absurd ((preflight_document_iff (array vs)).0 e)
      | inr (errors, e) ↦ rw e (length-check_ledger (items vs) errors)
    ])
  ]

  -- Every run of `validateDocument` ends with a list of errors, and the list has at most 100.
  pub length-validate_document :
      (ledger : Json)
      → (errors : Errors) × (validate_document ledger ≡ some errors) × (length errors ≤ max_errors)
  unfolding validate_document
  length-validate_document (array vs) = AtMost-some _ (validate_array-AtMost vs)
  length-validate_document null = (_, refl, length-report _)
  length-validate_document (boolean b) = (_, refl, length-report _)
  length-validate_document (number x) = (_, refl, length-report _)
  length-validate_document (string s) = (_, refl, length-report _)
  length-validate_document (object fs) = (_, refl, length-report _)
