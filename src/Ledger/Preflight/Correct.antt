-- ===== src/Ledger/Preflight/Correct.antt =====
-- The walk ends on its fuel, and reports nothing exactly for documents within the limits.
use dotfiles_ai.Base.{
  ℕ, zero, suc, ◌+◌, ◌≤◌, ◌<◌, ◌≡◌, ◌≢◌, ◌↔◌, refl, Bool, true, false, Option, none, some, List, [],
  ◌∷◌, ltb, leb, arith, Bool-cases, inl, inr,
}
use dotfiles_ai.Base.Lists.{length, All}
use dotfiles_ai.Js.Text.{Text, lit, text_eq}
use dotfiles_ai.Js.Json.{Json, Items, nil, cons, Fields, end, field, array, object, items, keys}
use dotfiles_ai.Js.Runtime.{Runtime}
use dotfiles_ai.Diagnostics.{push}
use dotfiles_ai.Diagnostics.Reports.{report, at_index}
use dotfiles_ai.Ledger.Preflight.{
  max_units, max_items, max_fields, max_depth, max_values, Frame, at_key, push_items, push_fields,
  item_limit, size, size_items, size_fields, Round, stop, go, visit, walk, root_frame,
  preflight_document,
}

-- A value at a depth, in an array of at most `limit` items or an object of at most 1000 fields,
-- and all below it: at most 64 levels and 1000 items.
abbrev mutual
  pub FitsAt : ℕ → ℕ → Json → Type 0
  FitsAt depth limit (array vs) =
      (depth < max_depth) × (length (items vs) ≤ limit) × FitsItems (depth + 1) vs
  FitsAt depth limit (object fs) =
      (depth < max_depth) × (length (keys fs) ≤ max_fields) × FitsFields (depth + 1) fs
  FitsAt depth limit _ = Unit

  pub FitsItems : ℕ → Items → Type 0
  FitsItems depth nil = Unit
  FitsItems depth (cons v vs) = FitsAt depth max_items v × FitsItems depth vs

  pub FitsFields : ℕ → Fields → Type 0
  FitsFields depth end = Unit
  FitsFields depth (field k v fs) = FitsAt depth max_items v × FitsFields depth fs

abbrev FrameFits : Frame → Type 0
FrameFits f = FitsAt f.depth (item_limit f.location) f.value

abbrev stack_size : List Frame → ℕ
stack_size [] = 0
stack_size (f ∷ fs) = size f.value + stack_size fs

item_limit-root : item_limit (lit "$") ≡ max_units
unfolding item_limit lit text_eq
item_limit-root = refl

item_limit-at_index : (base : Text) (i : ℕ) → item_limit (at_index base i) ≡ max_items
unfolding item_limit at_index lit text_eq
item_limit-at_index [] i = refl
item_limit-at_index (c ∷ []) i = ground arith
item_limit-at_index (c ∷ d ∷ base) i = ground arith

item_limit-at_key : (base : Text) (i : ℕ) → item_limit (at_key base i) ≡ max_items
unfolding item_limit at_key lit text_eq
item_limit-at_key [] i = refl
item_limit-at_key (c ∷ []) i = ground arith
item_limit-at_key (c ∷ d ∷ base) i = ground arith

push_items-fit :
    (depth : ℕ) (location : Text) (i : ℕ) (vs : Items) (stack : List Frame)
    → All FrameFits (push_items depth location i vs stack)
      ↔ (FitsItems depth vs × All FrameFits stack)
unfolding push_items
push_items-fit depth location i nil stack = (λ h. (tt, h), λ h. h.1)
push_items-fit depth location i (cons v vs) stack =
    let e = item_limit-at_index location i in
    let (there, back) = push_items-fit depth location (i + 1) vs stack in
    (
      λ h. let rest = there h.1 in ((rw e at h.0, rest.0), rest.1),
      λ h. (rw e h.0.0, back (h.0.1, h.1)),
    )

push_fields-fit :
    (depth : ℕ) (location : Text) (i : ℕ) (fs : Fields) (stack : List Frame)
    → All FrameFits (push_fields depth location i fs stack)
      ↔ (FitsFields depth fs × All FrameFits stack)
unfolding push_fields
push_fields-fit depth location i end stack = (λ h. (tt, h), λ h. h.1)
push_fields-fit depth location i (field k v fs) stack =
    let e = item_limit-at_key location i in
    let (there, back) = push_fields-fit depth location (i + 1) fs stack in
    (
      λ h. let rest = there h.1 in ((rw e at h.0, rest.0), rest.1),
      λ h. (rw e h.0.0, back (h.0.1, h.1)),
    )

stack_size-push_items :
    (depth : ℕ) (location : Text) (i : ℕ) (vs : Items) (stack : List Frame)
    → stack_size (push_items depth location i vs stack) ≡ size_items vs + stack_size stack
unfolding push_items
stack_size-push_items depth location i nil stack = omega arith
stack_size-push_items depth location i (cons v vs) stack =
    omega (arith, stack_size-push_items depth location (i + 1) vs stack)

stack_size-push_fields :
    (depth : ℕ) (location : Text) (i : ℕ) (fs : Fields) (stack : List Frame)
    → stack_size (push_fields depth location i fs stack) ≡ size_fields fs + stack_size stack
unfolding push_fields
stack_size-push_fields depth location i end stack = omega arith
stack_size-push_fields depth location i (field k v fs) stack =
    omega (arith, stack_size-push_fields depth location (i + 1) fs stack)

-- One round: it goes on exactly if the frame fits by itself, with what is left to fit on the stack.
abbrev Visited : Frame → List Frame → Round → Type 0
Visited f stack (stop m) = ¬ FrameFits f
Visited f stack (go next) =
    (All FrameFits next ↔ (FrameFits f × All FrameFits stack))
    × (suc (stack_size next) ≡ size f.value + stack_size stack)

abbrev frame_of : Json → ℕ → Text → Frame
frame_of v depth location = record { value = v; depth = depth; location = location }

leb-true : (a b : ℕ) → leb a b ≡ true → a ≤ b
leb-true a b h = ground arith

leb-false : (a b : ℕ) → leb a b ≡ false → b < a
leb-false a b h = ground arith

ltb-true : (a b : ℕ) → ltb a b ≡ true → a < b
ltb-true a b h = ground arith

ltb-false : (a b : ℕ) → ltb a b ≡ false → b ≤ a
ltb-false a b h = ground arith

visit-array :
    (vs : Items) (depth : ℕ) (location : Text) (stack : List Frame)
    → Visited (frame_of (array vs) depth location) stack (visit (array vs) depth location stack)
unfolding visit
visit-array vs depth location stack = elim (Bool-cases (leb max_depth depth)) [
  | inl deep ↦ rw deep (λ h. let d = leb-true max_depth depth deep in absurd (omega arith))
  | inr shallow ↦ elim (Bool-cases (ltb (item_limit location) (length (items vs)))) [
    | inl long ↦
        rw (shallow, long)
          (λ h.
            let l = ltb-true (item_limit location) (length (items vs)) long in absurd (omega arith))
    | inr short ↦
        let d = leb-false max_depth depth shallow in
        let l = ltb-false (item_limit location) (length (items vs)) short in
        let (there, back) = push_items-fit (depth + 1) location 0 vs stack in
        rw (shallow, short)
          (
            (λ h. ((d, l, (there h).0), (there h).1), λ h. back (h.0.2, h.1)),
            omega (arith, stack_size-push_items (depth + 1) location 0 vs stack),
          )
  ]
]

visit-object :
    (fs : Fields) (depth : ℕ) (location : Text) (stack : List Frame)
    → Visited (frame_of (object fs) depth location) stack (visit (object fs) depth location stack)
unfolding visit
visit-object fs depth location stack = elim (Bool-cases (leb max_depth depth)) [
  | inl deep ↦ rw deep (λ h. let d = leb-true max_depth depth deep in absurd (omega arith))
  | inr shallow ↦ elim (Bool-cases (ltb max_fields (length (keys fs)))) [
    | inl long ↦
        rw (shallow, long)
          (λ h. let l = ltb-true max_fields (length (keys fs)) long in absurd (omega arith))
    | inr short ↦
        let d = leb-false max_depth depth shallow in
        let l = ltb-false max_fields (length (keys fs)) short in
        let (there, back) = push_fields-fit (depth + 1) location 0 fs stack in
        rw (shallow, short)
          (
            (λ h. ((d, l, (there h).0), (there h).1), λ h. back (h.0.2, h.1)),
            omega (arith, stack_size-push_fields (depth + 1) location 0 fs stack),
          )
  ]
]

visit-Visited :
    (v : Json) (depth : ℕ) (location : Text) (stack : List Frame)
    → Visited (frame_of v depth location) stack (visit v depth location stack)
unfolding visit
visit-Visited (array vs) depth location stack = visit-array vs depth location stack
visit-Visited (object fs) depth location stack = visit-object fs depth location stack
visit-Visited _ depth location stack = ((λ h. (tt, h), λ h. h.1), omega arith)

module _ ⦃rt : Runtime⦄ where
  some-report : (m : Text) → some (report m []) ≢ some []
  unfolding report push
  some-report m e = cc

  size_pos : (v : Json) → 0 < size v
  size_pos (array vs) = omega arith
  size_pos _ = omega arith

  abbrev Within : ℕ → List Frame → Type 0
  Within visited stack = All FrameFits stack × (visited + stack_size stack ≤ max_values)

  abbrev WalkOk : ℕ → List Frame → Option (List Text) → Type 0
  WalkOk visited stack result = (result ≢ none) × ((result ≡ some []) ↔ Within visited stack)

  after_visit :
      (fuel visited : ℕ) (f : Frame) (stack : List Frame) (r : Round)
      → visited < max_values
      → Visited f stack r
      → stack_size (f ∷ stack) ≤ suc fuel
      → ((next : List Frame)
          → stack_size next ≤ fuel
          → WalkOk (visited + 1) next (walk fuel (visited + 1) next))
      → WalkOk visited (f ∷ stack) (elim r [
        | stop message ↦ some (report message [])
        | go next ↦ walk fuel (visited + 1) next
      ])
  after_visit fuel visited f stack (stop m) v h fuel_ok ih =
      (λ e. cc, (λ e. absurd (some-report m e), λ w. absurd (h w.0.0)))
  after_visit fuel visited f stack (go next) v h fuel_ok ih =
      let rest = ih next (omega arith) in
      (
        rest.0,
        (
          λ e. let w = rest.1.0 e in let fits = h.0.0 w.0 in ((fits.0, fits.1), omega arith),
          λ w. rest.1.1 (h.0.1 (w.0.0, w.0.1), omega arith),
        ),
      )

  after_test :
      (visited : ℕ) (f : Frame) (stack : List Frame) (over : Bool) (rest : Option (List Text))
      → ltb max_values (visited + 1) ≡ over
      → (over ≡ false → WalkOk visited (f ∷ stack) rest)
      → WalkOk visited (f ∷ stack) (elim over [
        | true ↦ some (report (lit "$: exceeds 500000 total values") [])
        | false ↦ rest
      ])
  after_test visited f stack true rest e ih =
      let full = ltb-true max_values (visited + 1) e in
      (λ e. cc, (λ e. absurd (some-report _ e), λ w. absurd (omega (arith, w.1, size_pos f.value))))
  after_test visited f stack false rest e ih = ih refl

  -- Whatever fuel is above the number of values on the stack, the walk ends with a result, and
  -- the result is no error exactly if all fits.
  walk-WalkOk :
      (fuel visited : ℕ) (stack : List Frame)
      → visited ≤ max_values
      → stack_size stack ≤ fuel
      → WalkOk visited stack (walk fuel visited stack)
  unfolding walk
  walk-WalkOk fuel visited [] v h = (λ e. cc, (λ e. (tt, omega arith), λ w. refl))
  walk-WalkOk zero visited (f ∷ stack) v h = absurd (omega (arith, size_pos f.value))
  walk-WalkOk (suc fuel) visited (f ∷ stack) v h = after_test visited f stack _ _ refl (λ under.
      let more = ltb-false max_values (visited + 1) under in
      after_visit fuel visited f stack (visit f.value f.depth f.location stack) (omega arith)
        (visit-Visited f.value f.depth f.location stack) h
        (λ next fits. walk-WalkOk fuel (visited + 1) next (omega arith) fits))

  -- A document within the limits: every array and object stands less than 64 levels deep, the
  -- outer array has at most 10000 entries and any other 1000, an object at most 1000 fields, and
  -- there are at most 500000 values.
  pub record IsSmall (root : Json) : Type 0 where
    pub fits : FitsAt 0 max_units root
    pub few : size root ≤ max_values

  -- The walk over a document ends, and it ends without an error exactly if the document is small.
  pub preflight_document_iff :
      (root : Json)
      → (preflight_document root ≢ none) × ((preflight_document root ≡ some []) ↔ IsSmall root)
  unfolding preflight_document
  preflight_document_iff root =
      let (total, (there, back)) =
        walk-WalkOk (size root) 0 (root_frame root ∷ []) (omega arith) (omega arith) in
      (
        total,
        (
          λ e.
              let w = there e in
              record { fits = rw item_limit-root at w.0.0; few = omega (arith, w.1) },
          λ h. back ((rw item_limit-root h.fits, tt), omega (arith, h.few)),
        ),
      )
