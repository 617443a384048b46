-- ===== src/Findings/Validate/Branches.antt =====
-- What `validate` reports of `oneOf`.
-- (dot_agents/skills/security-audit/validate-findings.cjs)
use dotfiles_ai.Base.{
  suc, ◌≡◌, ◌≢◌, refl, sym, ◌∙◌, ◌↔◌, ◌⊎◌, inl, inr, Bool, true, false, not, ◌&&◌, List, [], ◌∷◌,
  ◌++◌, Option, none, some, arith, Bool-cases, ◌==◌, if◌then◌else◌, leb, ==_iff,
}
use dotfiles_ai.Base.Lists.{length}
use dotfiles_ai.Js.Text.{Text, lit, decimal}
use dotfiles_ai.Js.Json.{Json}
use dotfiles_ai.Js.Runtime.{Runtime}
use dotfiles_ai.Diagnostics.{Errors, max_errors}
use dotfiles_ai.Diagnostics.Reports.{
  Check, Reports, Reports_iff, Reports-map, Reports-seq, Reports-pass, Reports-report, push-full,
}
use dotfiles_ai.Findings.Keywords.{
  unless, Validator, unless_full, report_all, report_one_of, count_passing, only_result,
  matching_results, is_plain_object,
}
use dotfiles_ai.Findings.Validate.{run_branches, report_branches}
use dotfiles_ai.Findings.Validate.Valid.{Predicate, NoneOf, OneOf, ValidBranches}

module _ ⦃rt : Runtime⦄ where
  -- The validator reports nothing of a value exactly if the predicate holds of it.
  abbrev pub Decides : Validator → Predicate → Type 0
  Decides validator P = (v : Json) (p : Text) → Reports (validator v p) (P v)

  abbrev pub DecidesOption : Option Validator → Option Predicate → Type 0
  DecidesOption none none = Unit
  DecidesOption (some validator) (some P) = Decides validator P
  DecidesOption _ _ = ⊥

  abbrev pub DecidesEach : List Validator → List Predicate → Type 0
  DecidesEach [] [] = Unit
  DecidesEach (validator ∷ validators) (P ∷ Ps) = Decides validator P × DecidesEach validators Ps
  DecidesEach _ _ = ⊥

  abbrev pub DecidesBranches :
      Option (List Json × List Validator) → Option (List Predicate) → Type 0
  DecidesBranches none none = Unit
  DecidesBranches (some (branches, validators)) (some Ps) = DecidesEach validators Ps
  DecidesBranches _ _ = ⊥

  pub DecidesOption-if :
      (a b : Option Validator) (P Q : Option Predicate) (t : Bool)
      → DecidesOption a P
      → DecidesOption b Q
      → DecidesOption (if t then a else b) (if t then P else Q)
  DecidesOption-if a b P Q true h k = h
  DecidesOption-if a b P Q false h k = k

  pub DecidesBranches-if :
      (a b : Option (List Json × List Validator)) (P Q : Option (List Predicate)) (t : Bool)
      → DecidesBranches a P
      → DecidesBranches b Q
      → DecidesBranches (if t then a else b) (if t then P else Q)
  DecidesBranches-if a b P Q true h k = h
  DecidesBranches-if a b P Q false h k = k

  -- The early return of a full list changes nothing.
  pub Reports-unless_full : {c : Check} {P : Type 0} → Reports c P → Reports (unless_full c) P
  unfolding unless_full
  Reports-unless_full {c} r = record {
    messages = r.messages;
    runs = λ errors. elim (Bool-cases (leb max_errors (length errors))) [
      | inl full ↦ rw full (sym (push-full errors r.messages (ground arith)))
      | inr room ↦ rw room (r.runs errors)
    ];
    silent = r.silent;
    holds = r.holds;
  }

  count-pass :
      (r : Errors) (results : List Errors)
      → r ≡ []
      → count_passing (r ∷ results) ≡ suc (count_passing results)
  unfolding count_passing
  count-pass r results e = rw e refl

  count-fail :
      (r : Errors) (results : List Errors)
      → r ≢ []
      → count_passing (r ∷ results) ≡ count_passing results
  unfolding count_passing
  count-fail [] results n = absurd (n refl)
  count-fail (m ∷ r) results n = refl

  false-true : ¬ (false ≡ true)
  false-true e = cc

  nil-cases : (r : Errors) → (r ≡ []) ⊎ (r ≢ [])
  nil-cases [] = inl refl
  nil-cases (m ∷ r) = inr (λ h. cc)

  -- No branch passes.
  passing-NoneOf :
      (validators : List Validator) (Ps : List Predicate) (v : Json) (p : Text)
      → DecidesEach validators Ps
      → (count_passing (run_branches validators v p) ≡ 0) ↔ NoneOf Ps v
  unfolding run_branches count_passing
  passing-NoneOf [] [] v p h = (λ _. tt, λ _. refl)
  passing-NoneOf (w ∷ ws) (P ∷ Ps) v p h =
      let here = Reports_iff (h.0 v p) in
      let rest = passing-NoneOf ws Ps v p h.1 in
      elim (nil-cases (w v p [])) [
        | inl passes ↦ (
          λ e. absurd (omega (arith, sym (count-pass _ (run_branches ws v p) passes) ∙ e)),
          λ n. absurd (n.0 (here.0 passes)),
        )
        | inr fails ↦ (
          λ e. (λ holds. fails (here.1 holds), rest.0 (sym (count-fail _ _ fails) ∙ e)),
          λ n. count-fail _ _ fails ∙ rest.1 n.1,
        )
      ]
  passing-NoneOf [] (P ∷ Ps) v p h = absurd h
  passing-NoneOf (w ∷ ws) [] v p h = absurd h

  -- One branch passes.
  passing-OneOf :
      (validators : List Validator) (Ps : List Predicate) (v : Json) (p : Text)
      → DecidesEach validators Ps
      → (count_passing (run_branches validators v p) ≡ 1) ↔ OneOf Ps v
  unfolding run_branches count_passing
  passing-OneOf [] [] v p h = (λ e. absurd (omega arith), λ b. absurd b)
  passing-OneOf (w ∷ ws) (P ∷ Ps) v p h =
      let here = Reports_iff (h.0 v p) in
      let none_left = passing-NoneOf ws Ps v p h.1 in
      let rest = passing-OneOf ws Ps v p h.1 in
      elim (nil-cases (w v p [])) [
        | inl passes ↦ (
          λ e. inl (
            here.0 passes,
            none_left.0 (omega (arith, sym (count-pass _ (run_branches ws v p) passes) ∙ e)),
          ),
          λ o. elim o [
            | inl only ↦ count-pass _ _ passes ∙ rw (none_left.1 only.1) refl
            | inr later ↦ absurd (later.0 (here.0 passes))
          ],
        )
        | inr fails ↦ (
          λ e. inr (λ holds. fails (here.1 holds), rest.0 (sym (count-fail _ _ fails) ∙ e)),
          λ o. elim o [
            | inl only ↦ absurd (fails (here.1 only.0))
            | inr later ↦ count-fail _ _ fails ∙ rest.1 later.1
          ],
        )
      ]
  passing-OneOf [] (P ∷ Ps) v p h = absurd h
  passing-OneOf (w ∷ ws) [] v p h = absurd h

  Reports-report_all : (messages : List Text) → Reports (report_all messages) (messages ≡ [])
  unfolding report_all
  Reports-report_all messages = record {
    messages = messages;
    runs = λ errors. refl;
    silent = λ h. h;
    holds = λ h. h;
  }

  Reports-unless :
      {c : Check} {P : Type 0} (t : Bool) → Reports c P → Reports (unless t c) ((t ≡ true) ⊎ P)
  unfolding unless
  Reports-unless true r = Reports-map Reports-pass (λ _. inl refl) (λ _. tt)
  Reports-unless false r =
      Reports-map r (λ p. inr p) (λ o. elim o [ inl e ↦ absurd (false-true e) | inr p ↦ p ])

  -- `oneOf` is silent exactly if one branch passes.
  report_one_of-Reports :
      (branches : List Json) (results : List Errors) (v : Json) (p : Text)
      → Reports (report_one_of branches results v p) (count_passing results ≡ 1)
  unfolding report_one_of
  report_one_of-Reports branches results v p =
      let message =
        p
        ++ (lit ": must match exactly one schema in oneOf; matched "
            ++ decimal (count_passing results)) in
      let more = Reports-report_all (only_result (matching_results v branches results)) in
      let body =
        Reports-seq (Reports-report message)
          (Reports-unless (not (count_passing results == 0 && is_plain_object v)) more) in
      Reports-map (Reports-unless (count_passing results == 1) body)
        (λ o. elim o [ inl e ↦ (==_iff (count_passing results) 1).0 e | inr b ↦ absurd b.0 ])
        (λ e. inl ((==_iff (count_passing results) 1).1 e))

  pub report_branches-Reports :
      (validators : Option (List Json × List Validator)) (Ps : Option (List Predicate))
      → DecidesBranches validators Ps
      → Decides (report_branches validators) (ValidBranches Ps)
  unfolding report_branches
  report_branches-Reports none none h v p = Reports-pass
  report_branches-Reports (some (branches, validators)) (some Ps) h v p =
      let one = passing-OneOf validators Ps v p h in
      Reports-map (report_one_of-Reports branches (run_branches validators v p) v p) one.0 one.1
  report_branches-Reports none (some Ps) h v p = absurd h
  report_branches-Reports (some _) none h v p = absurd h
