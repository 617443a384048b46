-- ===== src/Findings/Validate/Parts.antt =====
-- What `validate` reports of the keywords other than `oneOf`.
-- (dot_agents/skills/security-audit/validate-findings.cjs)
use mathlib.Core.Path.{subst}
use dotfiles_ai.Base.{
  ℕ, ◌+◌, ◌≤◌, ◌≡◌, refl, inl, inr, Bool, false, not, ◌&&◌, List, [], ◌∷◌, ◌++◌, Option, none, some,
  arith, Bool-cases, ltb, ltb-false_iff, if◌then◌else◌,
}
use dotfiles_ai.Base.Lists.{length, any}
use dotfiles_ai.Js.Text.{Text, lit, contains, decimal}
use dotfiles_ai.Js.Text.Points.{code_points}
use dotfiles_ai.Js.Number.{Number}
use dotfiles_ai.Js.Json.{
  Json, Fields, null, boolean, number, string, array, object, end, field, items, get_field, is_some,
  Value,
}
use dotfiles_ai.Js.Runtime.{Runtime, is_visible}
use dotfiles_ai.Diagnostics.{safe_quote}
use dotfiles_ai.Diagnostics.Reports.{
  Check, Reports, Reports-map, Reports-seq, Reports-pass, Reports-report, Reports-reject,
  Reports-report_if, Reports-report_unless, Reports-for_each, Reports-guard, Reports-when, at_index,
  report, report_if, ◌>>◌,
}
use dotfiles_ai.Ledger.Values.{has_valid_unicode_scalar_values}
use dotfiles_ai.Findings.Values.{code_point_length, property_path, canonical_key, Key}
use dotfiles_ai.Findings.Schema.{Patterns}
use dotfiles_ai.Findings.Keywords.{
  Validator, report_const, report_enum, report_required, report_fields, report_min_items,
  report_repeats, report_items, report_visible, report_pattern, report_string, report_minimum,
  has_type, natural_of, is_true, max_set_bytes,
}
use dotfiles_ai.Findings.Validate.{report_parts, report_type}
use dotfiles_ai.Findings.Validate.Valid.{
  Predicate, IsConst, IsAllowed, HasRequired, FieldFits, ValidFields, HasMinItems, ValidItems,
  Matches, AtLeast, Unique, IsVisible, ValidString, ValidParts,
}
use dotfiles_ai.Findings.Validate.Branches.{Decides, DecidesOption}

module _ ⦃rt : Runtime⦄ where
  pub report_const-Reports : (c : Value) → Decides (report_const c) (IsConst c)
  unfolding report_const
  report_const-Reports none v p = Reports-pass
  report_const-Reports (some c) v p = Reports-report_unless _ _

  pub report_enum-Reports : (c : Value) → Decides (report_enum c) (IsAllowed c)
  unfolding report_enum
  report_enum-Reports (some (array vs)) v p = Reports-report_unless _ _
  report_enum-Reports none v p = Reports-pass
  report_enum-Reports (some _) v p = Reports-pass

  report_required-Reports : (c : Value) → Decides (report_required c) (HasRequired c)
  unfolding report_required
  report_required-Reports (some (array vs)) v p =
      Reports-for_each (λ i r. Reports-report_unless _ _) 0 (items vs)
  report_required-Reports none v p = Reports-pass
  report_required-Reports (some _) v p = Reports-pass

  report_field-Reports :
      (w : Option Validator) (P : Option Predicate) (closed : Bool) (k : Text) (v : Json) (p : Text)
      → DecidesOption w P
      → Reports
          (elim w [
            | some validator ↦ validator v (property_path p k)
            | none ↦
                report_if closed (p ++ (lit ": unexpected field " ++ safe_quote (some (string k))))
          ])
          (FieldFits P closed v)
  report_field-Reports (some w) (some P) closed k v p h = h v (property_path p k)
  report_field-Reports none none closed k v p h = Reports-report_if closed _
  report_field-Reports (some w) none closed k v p h = absurd h
  report_field-Reports none (some P) closed k v p h = absurd h

  report_fields-Reports :
      (find : Text → Option Validator) (Find : Text → Option Predicate) (closed : Bool)
      (fs : Fields) (p : Text)
      → ((key : Text) → DecidesOption (find key) (Find key))
      → Reports (report_fields find closed fs p) (ValidFields Find closed fs)
  unfolding report_fields
  report_fields-Reports find Find closed end p h = Reports-pass
  report_fields-Reports find Find closed (field k v fs) p h =
      Reports-seq (report_field-Reports (find k) (Find k) closed k v p (h k))
        (report_fields-Reports find Find closed fs p h)

  report_min_items-Reports :
      (c : Value) (vs : List Json) (p : Text) → Reports (report_min_items c vs p) (HasMinItems c vs)
  unfolding report_min_items
  report_min_items-Reports none vs p = Reports-pass
  report_min_items-Reports (some c) vs p =
      let few = ltb-false_iff (length vs) (natural_of (some c)) in
      Reports-map (Reports-report_if _ _) few.0 few.1

  -- What `Unique` says of an item with a key.
  Unique-key :
      (seen : List Text) (bytes : ℕ) (v : Json) (vs : List Json) (k : Key)
      → canonical_key v ≡ some k
      → Unique seen bytes (v ∷ vs)
      → (contains k.key seen ≡ false)
        × (bytes + k.bytes ≤ max_set_bytes)
        × Unique (k.key ∷ seen) (bytes + k.bytes) vs
  Unique-key seen bytes v vs k e (l, h, fresh, room, rest) =
      let same : l ≡ k = cc in
      subst
        (λ k.
          (contains k.key seen ≡ false)
          × (bytes + k.bytes ≤ max_set_bytes)
          × Unique (k.key ∷ seen) (bytes + k.bytes) vs)
        same (fresh, room, rest)

  -- The body of the loop, on the key of an item.
  report_repeat-Reports :
      (seen : List Text) (bytes i : ℕ) (v : Json) (vs : List Json) (p : Text) (o : Option Key)
      (skipped : Check) (next : Key → Check) (Q : Type 0)
      → canonical_key v ≡ o
      → Reports skipped Q
      → ((k : Key) → Reports (next k) (Unique (k.key ∷ seen) (bytes + k.bytes) vs))
      → Reports
          (elim o [
            | none ↦ report (at_index p i ++ lit ": canonical key exceeds 1048576 byte limit")
            | some k ↦
                if contains k.key seen
                then report (p ++ (lit ": items must be unique; duplicate at index " ++ decimal i))
                  >> skipped
                else if ltb max_set_bytes (bytes + k.bytes)
                then report (p ++ lit ": canonical uniqueness set exceeds 5242880 byte limit")
                else next k
          ])
          (Unique seen bytes (v ∷ vs))
  report_repeat-Reports seen bytes i v vs p none skipped next Q e q h =
      Reports-reject _ (λ u. let found = u.1 in cc)
  report_repeat-Reports seen bytes i v vs p (some k) skipped next Q e q h =
      elim (Bool-cases (contains k.key seen)) [
        | inl old ↦ rw old (
            Reports-map (Reports-seq (Reports-report _) q) (λ b. absurd b.0)
              (λ u. let fresh = (Unique-key seen bytes v vs k e u).0 in cc))
        | inr new ↦ rw new (
            Reports-map (Reports-guard (ltb max_set_bytes (bytes + k.bytes)) _ (h k))
              (λ g. (k, e, new, (ltb-false_iff _ _).0 g.0, g.1))
              (λ u.
                let key = Unique-key seen bytes v vs k e u in ((ltb-false_iff _ _).1 key.1, key.2)))
      ]

  report_repeats-Reports :
      (seen : List Text) (bytes i : ℕ) (vs : List Json) (p : Text)
      → Reports (report_repeats seen bytes i vs p) (Unique seen bytes vs)
  unfolding report_repeats
  report_repeats-Reports seen bytes i [] p = Reports-pass
  report_repeats-Reports seen bytes i (v ∷ vs) p =
      report_repeat-Reports seen bytes i v vs p (canonical_key v) _
        (λ k. report_repeats (k.key ∷ seen) (bytes + k.bytes) (i + 1) vs p) _ refl
        (report_repeats-Reports seen bytes (i + 1) vs p)
        (λ k. report_repeats-Reports (k.key ∷ seen) (bytes + k.bytes) (i + 1) vs p)

  report_items-Reports :
      (w : Option Validator) (P : Option Predicate) (vs : List Json) (p : Text)
      → DecidesOption w P
      → Reports (report_items w vs p) (ValidItems P vs)
  unfolding report_items
  report_items-Reports none none vs p h = Reports-pass
  report_items-Reports (some w) (some P) vs p h = Reports-for_each (λ i v. h v (at_index p i)) 0 vs
  report_items-Reports (some w) none vs p h = absurd h
  report_items-Reports none (some P) vs p h = absurd h

  report_visible-Reports : (s p : Text) → Reports (report_visible s p) (IsVisible s)
  unfolding report_visible
  report_visible-Reports s p =
      Reports-map
        (Reports-guard (not (has_valid_unicode_scalar_values s)) _
          (Reports-report_unless (any is_visible (code_points s)) _))
        (λ h. (ground (arith, h.0), h.1)) (λ h. (ground (arith, h.0), h.1))

  report_pattern-Reports :
      (patterns : Patterns) (c : Value) (s p : Text)
      → Reports (report_pattern patterns c s p) (Matches patterns c s)
  unfolding report_pattern
  report_pattern-Reports patterns (some (string pattern)) s p = Reports-report_unless _ _
  report_pattern-Reports patterns none s p = Reports-pass
  report_pattern-Reports patterns (some _) s p = Reports-pass

  report_minimum-Reports :
      (c : Value) (n : Number) (p : Text) → Reports (report_minimum c n p) (AtLeast c n)
  unfolding report_minimum
  report_minimum-Reports (some (number least)) n p = Reports-report_if _ _
  report_minimum-Reports none n p = Reports-pass
  report_minimum-Reports (some _) n p = Reports-pass

  report_string-Reports :
      (patterns : Patterns) (fs : Fields) (s p : Text)
      → Reports (report_string patterns fs s p) (ValidString patterns fs s)
  unfolding report_string ValidString
  report_string-Reports patterns fs s p =
      Reports-map
        (Reports-seq
          (Reports-seq
            (Reports-report_if
              (is_some (get_field (lit "minLength") fs)
                && ltb (code_point_length s) (natural_of (get_field (lit "minLength") fs)))
              _)
            (Reports-when (is_true (get_field (lit "visibleContent") fs))
              (report_visible-Reports s p)))
          (report_pattern-Reports patterns (get_field (lit "pattern") fs) s p))
        (λ h. (h.0.0, h.0.1, h.1)) (λ h. ((h.0, h.1), h.2))

  report_parts-Reports :
      (patterns : Patterns) (fs : Fields) (find : Text → Option Validator)
      (Find : Text → Option Predicate) (item : Option Validator) (Item : Option Predicate)
      → ((key : Text) → DecidesOption (find key) (Find key))
      → DecidesOption item Item
      → Decides (report_parts patterns fs find item) (ValidParts patterns fs Find Item)
  unfolding report_parts ValidParts
  report_parts-Reports patterns fs find Find item Item h k (object gs) p =
      Reports-seq (report_required-Reports (get_field (lit "required") fs) (object gs) p)
        (report_fields-Reports find Find _ gs p h)
  report_parts-Reports patterns fs find Find item Item h k (array vs) p =
      Reports-map
        (Reports-seq
          (Reports-seq (report_min_items-Reports (get_field (lit "minItems") fs) (items vs) p) (
            Reports-when (is_true (get_field (lit "uniqueItems") fs))
              (report_repeats-Reports [] 0 0 (items vs) p)))
          (report_items-Reports item Item (items vs) p k))
        (λ h. (h.0.0, h.0.1, h.1)) (λ h. ((h.0, h.1), h.2))
  report_parts-Reports patterns fs find Find item Item h k (string s) p =
      report_string-Reports patterns fs s p
  report_parts-Reports patterns fs find Find item Item h k (number n) p =
      report_minimum-Reports (get_field (lit "minimum") fs) n p
  report_parts-Reports patterns fs find Find item Item h k null p = Reports-pass
  report_parts-Reports patterns fs find Find item Item h k (boolean b) p = Reports-pass

  pub report_type-Reports :
      (patterns : Patterns) (fs : Fields) (find : Text → Option Validator)
      (Find : Text → Option Predicate) (item : Option Validator) (Item : Option Predicate)
      → ((key : Text) → DecidesOption (find key) (Find key))
      → DecidesOption item Item
      → Decides (report_type patterns fs find item) (λ v.
        ((is_some (get_field (lit "type") fs) && not (has_type v (get_field (lit "type") fs)))
          ≡ false)
        × ValidParts patterns fs Find Item v)
  unfolding report_type
  report_type-Reports patterns fs find Find item Item h k v p =
      Reports-guard _ _ (report_parts-Reports patterns fs find Find item Item h k v p)
