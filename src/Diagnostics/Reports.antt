-- ===== src/Diagnostics/Reports.antt =====
-- Validation code as actions on the list of errors, and what such an action reports. An action
-- that pushes messages is told by the messages; `Reports c P` says that there are none exactly
-- when `P` holds.
use mathlib.Core.List.{append-nil, append_assoc, map-append, append-eq-nil_iff}
use dotfiles_ai.Base.{
  ℕ, ◌+◌, ◌-◌, ◌≤◌, ◌≡◌, refl, sym, ap, ◌∙◌, ◌↔◌, inl, inr, Bool, true, false, List, [], ◌∷◌, ◌++◌,
  map, arith, ltb, if◌then◌else◌, Bool-cases, not, not-eq-false, not-true,
}
use dotfiles_ai.Base.Lists.{
  length, take, All, length-append, length-take, length-take-le, take-nil, take-append, length-map,
}
use dotfiles_ai.Js.Text.{Text, decimal}
use dotfiles_ai.Js.Runtime.{Runtime}
use dotfiles_ai.Diagnostics.{Errors, max_errors, push, escape}

abbrev pub Check : Type 0
Check = Errors → Errors

-- Nothing is pushed.
abbrev pub pass : Check
pass errors = errors

-- One statement after another.
infixl 5 ◌>>◌
unfoldable pub ◌>>◌ : Check → Check → Check
(a >> b) errors = b (a errors)

-- A `forEach` with the index.
unfoldable pub for_each {ℓ} : {A : Type ℓ} → (ℕ → A → Check) → ℕ → List A → Check
unfolding ◌>>◌
for_each body i [] = pass
for_each body i (x ∷ xs) = body i x >> for_each body (i + 1) xs

-- A `forEach` that carries state from entry to entry.
unfoldable pub for_each_with {ℓ κ} :
    {S : Type κ} {A : Type ℓ} → (S → ℕ → A → Check) → (S → A → S) → S → ℕ → List A → Check
unfolding ◌>>◌
for_each_with body next s i [] = pass
for_each_with body next s i (x ∷ xs) = body s i x >> for_each_with body next (next s x) (i + 1) xs

-- `P` at every entry and the state in which the loop meets it.
abbrev pub AllFrom {ℓ κ} :
    {S : Type κ} {A : Type ℓ} → (S → A → Type 0) → (S → A → S) → S → List A → Type 0
AllFrom P next s [] = Unit
AllFrom P next s (x ∷ xs) = P s x × AllFrom P next (next s x) xs

-- Places in the document: `${base}[${index}]` and `${base}.name`.
unfoldable pub at_index : Text → ℕ → Text
at_index base i = base ++ (b'[' ∷ (decimal i ++ b']' ∷ []))

unfoldable pub at_field : Text → Text → Text
at_field base name = base ++ (b'.' ∷ name)

module _ ⦃rt : Runtime⦄ where
  -- `errors.push(message)`
  unfoldable pub report : Text → Check
  report message errors = push errors (message ∷ [])

  -- `if (test) errors.push(message)`
  unfoldable pub report_if : Bool → Text → Check
  unfolding report
  report_if test message = if test then report message else pass

  -- `push` without its test: nothing is taken where nothing is left.
  push-append :
      (errors : Errors) (a : List Text)
      → push errors a ≡ errors ++ map escape (take (max_errors - length errors) a)
  unfolding push
  push-append errors a = elim (Bool-cases (ltb 0 (max_errors - length errors))) [
    | inl more ↦ rw more refl
    | inr full ↦
        let none_left : max_errors - length errors ≡ 0 = ground arith in
        rw (full, none_left) (sym (append-nil errors))
  ]

  pub push-nil : (errors : Errors) → push errors [] ≡ errors
  push-nil errors = rw (push-append, take-nil) (append-nil errors)

  -- A full list takes nothing.
  pub push-full :
      (errors : Errors) (a : List Text) → max_errors ≤ length errors → push errors a ≡ errors
  unfolding push
  push-full errors a h =
      let none_left : max_errors - length errors ≡ 0 = omega arith in rw none_left refl

  pub length-push :
      (errors : Errors) (a : List Text)
      → length errors ≤ max_errors
      → length (push errors a) ≤ max_errors
  length-push errors a h =
      rw (push-append, length-append, length-map)
        (omega (arith, length-take-le (max_errors - length errors) a))

  room-push :
      (errors : Errors) (a : List Text)
      → max_errors - length (push errors a) ≡ max_errors - length errors - length a
  room-push errors a =
      rw (push-append, length-append, length-map)
        (omega (arith, length-take (max_errors - length errors) a))

  pub push-push :
      (errors : Errors) (a b : List Text) → push (push errors a) b ≡ push errors (a ++ b)
  push-push errors a b =
      push-append (push errors a) b
      ∙ rw (room-push, push-append errors a, push-append errors (a ++ b))
          (rw (take-append, map-append) (append_assoc errors _ _))

  -- Only a list that is empty stays empty, and only if nothing is pushed.
  pub push-eq-nil : (a : List Text) → push [] a ≡ [] → a ≡ []
  unfolding push
  push-eq-nil [] h = refl
  push-eq-nil (m ∷ a) h = cc

  pub push-eq-nil_iff :
      (errors : Errors) (a : List Text) → push errors a ≡ [] → (errors ≡ []) × (a ≡ [])
  push-eq-nil_iff [] a h = (refl, push-eq-nil a h)
  push-eq-nil_iff (m ∷ errors) a h = cc (push-append (m ∷ errors) a)

  pub record Reports (c : Check) (P : Type 0) : Type 0 where
    pub messages : List Text
    pub runs : (errors : Errors) → c errors ≡ push errors messages
    pub silent : P → messages ≡ []
    pub holds : messages ≡ [] → P

  -- The list is empty after the action exactly when `P` holds.
  pub Reports_iff : {c : Check} {P : Type 0} → Reports c P → (c [] ≡ []) ↔ P
  Reports_iff r = (
    λ h. r.holds (push-eq-nil r.messages (sym (r.runs []) ∙ h)),
    λ p. r.runs [] ∙ ap (push []) (r.silent p) ∙ push-nil [],
  )

  -- An action that ends on an empty list began on one.
  pub Reports-nil :
      {c : Check} {P : Type 0} (errors : Errors) → Reports c P → c errors ≡ [] → (errors ≡ []) × P
  Reports-nil errors r h =
      let (empty, quiet) = push-eq-nil_iff errors r.messages (sym (r.runs errors) ∙ h) in
      (empty, r.holds quiet)

  pub Reports-length :
      {c : Check} {P : Type 0} (errors : Errors)
      → Reports c P
      → length errors ≤ max_errors
      → length (c errors) ≤ max_errors
  Reports-length errors r h = rw (r.runs errors) (length-push errors r.messages h)

  pub Reports-map : {c : Check} {P Q : Type 0} → Reports c P → (P → Q) → (Q → P) → Reports c Q
  Reports-map r f g = record {
    messages = r.messages;
    runs = r.runs;
    silent = λ q. r.silent (g q);
    holds = λ e. f (r.holds e);
  }

  pub Reports-pass : Reports pass Unit
  Reports-pass = record {
    messages = [];
    runs = λ errors. sym (push-nil errors);
    silent = λ _. refl;
    holds = λ _. tt;
  }

  pub Reports-report : (m : Text) → Reports (report m) ⊥
  unfolding report
  Reports-report m = record {
    messages = m ∷ [];
    runs = λ errors. refl;
    silent = λ h. absurd h;
    holds = λ e. cc;
  }

  -- A message on a path where `P` cannot hold.
  pub Reports-reject : {P : Type 0} (m : Text) → ¬ P → Reports (report m) P
  Reports-reject m f = Reports-map (Reports-report m) (λ b. absurd b) f

  pub Reports-report_if : (b : Bool) (m : Text) → Reports (report_if b m) (b ≡ false)
  unfolding report_if
  Reports-report_if true m = Reports-map (Reports-report m) (λ h. absurd h) (λ e. cc)
  Reports-report_if false m = Reports-map Reports-pass (λ _. refl) (λ _. tt)

  -- `if (!test) errors.push(message)`
  pub Reports-report_unless : (b : Bool) (m : Text) → Reports (report_if (not b) m) (b ≡ true)
  Reports-report_unless b m =
      Reports-map (Reports-report_if (not b) m) (λ h. not-eq-false h) (λ h. not-true h)

  pub Reports-seq :
      {a b : Check} {P Q : Type 0} → Reports a P → Reports b Q → Reports (a >> b) (P × Q)
  unfolding ◌>>◌
  Reports-seq {b} p q = record {
    messages = p.messages ++ q.messages;
    runs = λ errors. ap b (p.runs errors) ∙ q.runs _ ∙ push-push errors p.messages q.messages;
    silent = λ h. rw (p.silent h.0, q.silent h.1);
    holds = λ e. let both = append-eq-nil_iff.0 e in (p.holds both.0, q.holds both.1);
  }

  pub Reports-for_each {ℓ} :
      {A : Type ℓ} {body : ℕ → A → Check} {P : A → Type 0}
      → ((i : ℕ) (x : A) → Reports (body i x) (P x))
      → (i : ℕ) (xs : List A) → Reports (for_each body i xs) (All P xs)
  unfolding for_each
  Reports-for_each r i [] = Reports-pass
  Reports-for_each r i (x ∷ xs) = Reports-seq (r i x) (Reports-for_each r (i + 1) xs)

  pub Reports-if :
      {a b : Check} {P Q : Type 0} (t : Bool)
      → Reports a P
      → Reports b Q
      → Reports (if t then a else b) (if t then P else Q)
  Reports-if true p q = p
  Reports-if false p q = q

  pub Reports-for_each_with {ℓ κ} :
      {S : Type κ} {A : Type ℓ} {body : S → ℕ → A → Check} {P : S → A → Type 0} (next : S → A → S)
      → ((s : S) (i : ℕ) (x : A) → Reports (body s i x) (P s x))
      → (s : S) (i : ℕ) (xs : List A)
      → Reports (for_each_with body next s i xs) (AllFrom P next s xs)
  unfolding for_each_with
  Reports-for_each_with next r s i [] = Reports-pass
  Reports-for_each_with next r s i (x ∷ xs) =
      Reports-seq (r s i x) (Reports-for_each_with next r (next s x) (i + 1) xs)

  -- `if (test) { errors.push(message); return; }`, and what follows it
  pub Reports-guard :
      {c : Check} {P : Type 0} (test : Bool) (m : Text)
      → Reports c P
      → Reports (if test then report m else c) ((test ≡ false) × P)
  Reports-guard true m r = Reports-reject m (λ h. let e = h.0 in cc)
  Reports-guard false m r = Reports-map r (λ p. (refl, p)) (λ h. h.1)

  -- A block under a test.
  pub Reports-when :
      {c : Check} {P : Type 0} (test : Bool)
      → Reports c P
      → Reports (if test then c else pass) (if test then P else Unit)
  Reports-when true r = r
  Reports-when false r = Reports-pass
