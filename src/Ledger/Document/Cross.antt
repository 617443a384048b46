-- ===== src/Ledger/Document/Cross.antt =====
-- What the maps of `validateDocument` know, and when a unit is new, last and of a new key.
use mathlib.Core.Path.{subst}
use dotfiles_ai.Base.{
  ◌≡◌, ◌≢◌, ◌↔◌, refl, sym, ap, ◌∙◌, true, false, not, List, [], ◌∷◌, Option, none, some, arith,
  Bool-cases, Option-cases, inl, inr, not-eq-false,
}
use dotfiles_ai.Base.Lists.{All}
use dotfiles_ai.Js.Text.{Text, text_eq, text_eq_iff, text_lt, contains, contains-cons}
use dotfiles_ai.Js.Text.Order.{text_lt_irrefl, text_lt_trans, text_lt_total, text_lt_asym}
use dotfiles_ai.Js.Runtime.{Runtime}
use dotfiles_ai.Diagnostics.Reports.{
  Reports, Reports-map, Reports-pass, Reports-report_if, Reports-reject, Reports-seq, report,
  report_if, pass,
}
use dotfiles_ai.Ledger.Document.{
  IdEntry, KeyEntry, find, Seen, nothing_seen, add_id, other_id, add_key, next_seen, duplicate,
  taken, check_id, check_key, out_of_order, check_order, cross_check,
}

-- An ID after the one before it, if there is one.
abbrev pub Rises : Option Text → Text → Type 0
Rises none id = Unit
Rises (some previous) id = text_lt previous id ≡ true

-- Each ID is after the one before it.
abbrev pub Ascending : Option Text → List Text → Type 0
Ascending previous [] = Unit
Ascending previous (id ∷ ids) = Rises previous id × Ascending (some id) ids

abbrev pub NotAfter : Option Text → Text → Type 0
NotAfter none id = ⊥
NotAfter (some previous) id = text_lt previous id ≡ false

abbrev pub Found : Option Text → List (Text × IdEntry) → Type 0
Found none ids = Unit
Found (some previous) ids = find previous ids ≢ none

-- What the maps know of the units read so far, whose keys are `keys`.
pub record Inv (seen : Seen) (keys : List Text) : Type 0 where
  pub ids : All (λ e. NotAfter seen.previous e.0) seen.ids
  pub last : Found seen.previous seen.ids
  pub semantics : All (λ e. NotAfter seen.previous e.1.id) seen.semantics
  pub known : (k : Text) → (find k seen.semantics ≡ none) ↔ (contains k keys ≡ false)

Rises-NotAfter : (p : Option Text) (id x : Text) → Rises p id → NotAfter p x → x ≢ id
Rises-NotAfter none id x r n e = n
Rises-NotAfter (some p) id x r n e = cc (r, n, e)

find-none {ℓ} :
    {A : Type ℓ} (p : Option Text) (id : Text) (entries : List (Text × A))
    → Rises p id
    → All (λ e. NotAfter p e.0) entries
    → find id entries ≡ none
unfolding find
find-none p id [] r h = refl
find-none p id ((j, a) ∷ entries) r h =
    ground (arith, text_eq_iff j id, Rises-NotAfter p id j r h.0, find-none p id entries r h.1)

find-all {ℓ} :
    {A : Type ℓ} (P : A → Type 0) (k : Text) (entries : List (Text × A)) (a : A)
    → All (λ e. P e.1) entries
    → find k entries ≡ some a
    → P a
unfolding find
find-all P k [] a h e = cc
find-all P k ((j, b) ∷ entries) a h e = elim (Bool-cases (text_eq j k)) [
  | inl same ↦ let is : b ≡ a = ground arith in subst P is h.0
  | inr other ↦ find-all P k entries a h.1 (ground arith)
]

find-cons {ℓ} :
    {A : Type ℓ} (k j : Text) (a : A) (entries : List (Text × A))
    → (find k ((j, a) ∷ entries) ≡ none) ↔ ((j ≢ k) × (find k entries ≡ none))
unfolding find
find-cons k j a entries = (
  λ h. (λ e. ground (arith, text_eq_iff j k), ground arith),
  λ h. ground (arith, text_eq_iff j k, h.0),
)

module _ ⦃rt : Runtime⦄ where
  pub check_id-Reports :
      (seen : Seen) (id : Text) (key : Option Text)
      → Reports (check_id seen id key) (find id seen.ids ≡ none)
  unfolding check_id
  check_id-Reports seen id key = at_found (find id seen.ids)
    where
      at_found :
          (o : Option IdEntry)
          → Reports (elim o [ none ↦ pass | some old ↦ report (duplicate seen key old) ]) (o ≡ none)
      at_found none = Reports-map Reports-pass (λ _. refl) (λ _. tt)
      at_found (some old) = Reports-reject _ (λ e. cc)

  pub check_key-none : (seen : Seen) (id : Text) → Reports (check_key seen id none) Unit
  unfolding check_key
  check_key-none seen id = Reports-pass

  pub check_key-Reports :
      (seen : Seen) (id k : Text)
      → Reports (check_key seen id (some k)) (other_id id (find k seen.semantics) ≡ false)
  unfolding check_key
  check_key-Reports seen id k = at_found (find k seen.semantics)
    where
      at_found :
          (o : Option KeyEntry)
          → Reports
              (elim o [
                | none ↦ pass
                | some old ↦ report_if (not (text_eq old.id id)) (taken seen old)
              ])
              (other_id id o ≡ false)
      at_found none = Reports-map Reports-pass (λ _. refl) (λ _. tt)
      at_found (some old) = Reports-report_if _ _

  pub check_order-Reports :
      (seen : Seen) (id : Text)
      → Reports (check_order seen id) (out_of_order seen.previous id ≡ false)
  unfolding check_order
  check_order-Reports seen id = Reports-report_if _ _

  -- Neither after the ID before it nor equal to it: the unit is out of order or a duplicate.
  Rises-iff :
      (seen : Seen) (keys : List Text) (id : Text)
      → Inv seen keys
      → find id seen.ids ≡ none
      → out_of_order seen.previous id ≡ false
      → Rises seen.previous id
  Rises-iff seen keys id inv new order = at_previous seen.previous inv.last order
    where
      at_previous : (p : Option Text) → Found p seen.ids → out_of_order p id ≡ false → Rises p id
      at_previous none found h = tt
      at_previous (some p) found h = elim (Bool-cases (text_lt p id)) [
        | inl before ↦ before
        | inr late ↦
            let same : p ≡ id = text_lt_total p id late h in
            absurd (found (ap (λ x. find x seen.ids) same ∙ new))
      ]

  in_order : (p : Option Text) (id : Text) → Rises p id → out_of_order p id ≡ false
  in_order none id r = refl
  in_order (some p) id r = text_lt_asym p id r

  -- A key that is taken is taken by another ID, since this one is new.
  other_id_iff :
      (seen : Seen) (keys : List Text) (id k : Text)
      → Inv seen keys
      → Rises seen.previous id
      → (other_id id (find k seen.semantics) ≡ false) ↔ (contains k keys ≡ false)
  other_id_iff seen keys id k inv r = elim (Option-cases (find k seen.semantics)) [
    | inl e ↦ (λ h. (inv.known k).0 e, λ h. rw e refl)
    | inr (old, e) ↦ (
      λ h. absurd (
          Rises-NotAfter seen.previous id old.id r
            (find-all (λ s. NotAfter seen.previous s.id) k seen.semantics old inv.semantics e)
            ((text_eq_iff old.id id).0 (not-eq-false (sym (rw e refl) ∙ h)))),
      λ h. cc ((inv.known k).1 h),
    )
  ]

  pub cross_check-Reports :
      (seen : Seen) (keys : List Text) (id k : Text)
      → Inv seen keys
      → Reports (cross_check seen id (some k)) (Rises seen.previous id × (contains k keys ≡ false))
  unfolding cross_check
  cross_check-Reports seen keys id k inv =
      Reports-map
        (Reports-seq (check_id-Reports seen id (some k))
          (Reports-seq (check_key-Reports seen id k) (check_order-Reports seen id)))
        (λ h.
          let rises = Rises-iff seen keys id inv h.0 h.1.1 in
          (rises, (other_id_iff seen keys id k inv rises).0 h.1.0))
        (λ h. (
          find-none seen.previous id seen.ids h.0 inv.ids,
          ((other_id_iff seen keys id k inv h.0).1 h.1, in_order seen.previous id h.0),
        ))

NotAfter-up : (p : Option Text) (id x : Text) → Rises p id → NotAfter p x → text_lt id x ≡ false
NotAfter-up none id x r n = absurd n
NotAfter-up (some p) id x r n = elim (Bool-cases (text_lt id x)) [
  | inl h ↦ cc (text_lt_trans p id x r h, n)
  | inr h ↦ h
]

All-up {ℓ} :
    {A : Type ℓ} (at : A → Text) (p : Option Text) (id : Text) (entries : List A)
    → Rises p id
    → All (λ e. NotAfter p (at e)) entries
    → All (λ e. text_lt id (at e) ≡ false) entries
All-up at p id [] r h = tt
All-up at p id (e ∷ entries) r h = (NotAfter-up p id (at e) r h.0, All-up at p id entries r h.1)

pub Inv-nothing_seen : Inv nothing_seen []
unfolding find contains
Inv-nothing_seen = record {
  ids = tt;
  last = tt;
  semantics = tt;
  known = λ k. (λ _. refl, λ _. refl);
}

add_id-new :
    (seen : Seen) (id : Text) (key : Option Text)
    → find id seen.ids ≡ none
    → add_id seen id key ≡ (id, record { index = seen.index; key = key }) ∷ seen.ids
unfolding add_id
add_id-new seen id key h =
    ap
      (λ o. elim o [
        | some old ↦ seen.ids
        | none ↦ (id, record { index = seen.index; key = key }) ∷ seen.ids
      ])
      h

add_key-new :
    (seen : Seen) (id k : Text)
    → find k seen.semantics ≡ none
    → add_key seen id (some k) ≡ (k, record { id = id; index = seen.index }) ∷ seen.semantics
unfolding add_key
add_key-new seen id k h = rw h refl

find-head {ℓ} :
    {A : Type ℓ} (k : Text) (a : A) (entries : List (Text × A)) → find k ((k, a) ∷ entries) ≢ none
find-head k a entries h = ((find-cons k k a entries).0 h).0 refl

-- The loop's next state, for a unit without an error.
pub Inv-next_seen :
    (seen : Seen) (keys : List Text) (id k : Text)
    → Inv seen keys
    → Rises seen.previous id
    → contains k keys ≡ false
    → Inv (next_seen seen id (some k)) (k ∷ keys)
unfolding next_seen
Inv-next_seen seen keys id k inv r new =
    let ids_eq = add_id-new seen id (some k) (find-none seen.previous id seen.ids r inv.ids) in
    let keys_eq = add_key-new seen id k ((inv.known k).1 new) in
    record {
      ids =
          subst (All (λ e. NotAfter (some id) e.0)) (sym ids_eq)
            (text_lt_irrefl id, All-up (λ e. e.0) seen.previous id seen.ids r inv.ids);
      last = subst (λ l. find id l ≢ none) (sym ids_eq) (find-head id _ seen.ids);
      semantics =
          subst (All (λ e. NotAfter (some id) e.1.id)) (sym keys_eq) (
            text_lt_irrefl id,
            All-up (λ e. e.1.id) seen.previous id seen.semantics r inv.semantics,
          );
      known = λ j.
          subst (λ l. (find j l ≡ none) ↔ (contains j (k ∷ keys) ≡ false)) (sym keys_eq)
            (
              λ h.
                  let (ne, rest) = (find-cons j k _ seen.semantics).0 h in
                  (contains-cons j k keys).1 (ne, (inv.known j).0 rest),
              λ h.
                  let (ne, rest) = (contains-cons j k keys).0 h in
                  (find-cons j k _ seen.semantics).1 (ne, (inv.known j).1 rest),
            );
    }
