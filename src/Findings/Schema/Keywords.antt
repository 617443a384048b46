-- ===== src/Findings/Schema/Keywords.antt =====
-- What `collectSchemaErrors` reports of the keywords that hold no schemas.
-- (dot_agents/skills/security-audit/validate-findings.cjs)
use mathlib.Core.Path.{subst}
use dotfiles_ai.Base.{
  ◌≡◌, refl, Bool, true, false, not, ◌&&◌, List, [], ◌∷◌, ◌++◌, Option, none, some, if◌then◌else◌,
}
use dotfiles_ai.Base.Lists.{All}
use dotfiles_ai.Js.Text.{Text, lit, contains}
use dotfiles_ai.Js.Json.{
  Json, Fields, null, boolean, number, string, array, object, nil, cons, items, keys, get, has_own,
  is_text, Value,
}
use dotfiles_ai.Js.Runtime.{Runtime}
use dotfiles_ai.Diagnostics.Reports.{
  Check, Reports, Reports-map, Reports-pass, Reports-report, Reports-reject, Reports-report_if,
  Reports-report_unless, Reports-for_each, Reports-guard, at_field, report, report_if, pass,
}
use dotfiles_ai.Findings.Values.{canonical_key, Key}
use dotfiles_ai.Findings.Schema.{
  Patterns, supported_keywords, check_keywords, check_required, check_enum_values, check_enum,
  check_pattern, check_visible_content,
}
use dotfiles_ai.Findings.Schema.Accepted.{
  Has, IsRequired, IsPatternText, IsVisibleFlag, DifferentKeys, IsEnum,
}

module _ ⦃rt : Runtime⦄ where
  pub check_keywords-Reports :
      (fs : Fields) (p : Text)
      → Reports
          (check_keywords fs p)
          (All (λ key. contains key supported_keywords ≡ true) (keys fs))
  unfolding check_keywords
  check_keywords-Reports fs p = Reports-for_each (λ i key. Reports-report_unless _ _) 0 (keys fs)

  pub check_required-Reports : (v : Value) (p : Text) → Reports (check_required v p) (IsRequired v)
  unfolding check_required
  check_required-Reports none p = Reports-pass
  check_required-Reports (some (array vs)) p = Reports-guard _ _ (Reports-report_if _ _)
  check_required-Reports (some null) p = Reports-report _
  check_required-Reports (some (boolean b)) p = Reports-report _
  check_required-Reports (some (number n)) p = Reports-report _
  check_required-Reports (some (string s)) p = Reports-report _
  check_required-Reports (some (object fs)) p = Reports-report _

  -- What `DifferentKeys` says of a value with a key.
  DifferentKeys-key :
      (seen : List Text) (v : Json) (vs : List Json) (k : Key)
      → canonical_key v ≡ some k
      → DifferentKeys seen (v ∷ vs)
      → (contains k.key seen ≡ false) × DifferentKeys (k.key ∷ seen) vs
  DifferentKeys-key seen v vs k e (l, h, fresh, rest) =
      let same : l ≡ k = cc in
      subst (λ k. (contains k.key seen ≡ false) × DifferentKeys (k.key ∷ seen) vs) same
        (fresh, rest)

  check_key-Reports :
      (seen : List Text) (v : Json) (vs : List Json) (p : Text) (o : Option Key)
      (next : Key → Check)
      → canonical_key v ≡ o
      → ((k : Key) → Reports (next k) (DifferentKeys (k.key ∷ seen) vs))
      → Reports
          (elim o [
            | none ↦
                report (at_field p (lit "enum") ++ lit ": canonical key exceeds 1048576 byte limit")
            | some k ↦
                if contains k.key seen
                then report (at_field p (lit "enum") ++ lit ": entries must be unique")
                else next k
          ])
          (DifferentKeys seen (v ∷ vs))
  check_key-Reports seen v vs p none next e h = Reports-reject _ (λ u. let found = u.1 in cc)
  check_key-Reports seen v vs p (some k) next e h =
      Reports-map (Reports-guard (contains k.key seen) _ (h k)) (λ g. (k, e, g.0, g.1))
        (DifferentKeys-key seen v vs k e)

  check_enum_values-Reports :
      (seen : List Text) (vs : List Json) (p : Text)
      → Reports (check_enum_values seen vs p) (DifferentKeys seen vs)
  unfolding check_enum_values
  check_enum_values-Reports seen [] p = Reports-pass
  check_enum_values-Reports seen (v ∷ vs) p =
      check_key-Reports seen v vs p (canonical_key v) (λ k. check_enum_values (k.key ∷ seen) vs p)
        refl (λ k. check_enum_values-Reports (k.key ∷ seen) vs p)

  pub check_enum-Reports : (v : Value) (p : Text) → Reports (check_enum v p) (IsEnum v)
  unfolding check_enum
  check_enum-Reports none p = Reports-pass
  check_enum-Reports (some (array nil)) p = Reports-report _
  check_enum-Reports (some (array (cons v vs))) p = check_enum_values-Reports [] (v ∷ items vs) p
  check_enum-Reports (some null) p = Reports-report _
  check_enum-Reports (some (boolean b)) p = Reports-report _
  check_enum-Reports (some (number n)) p = Reports-report _
  check_enum-Reports (some (string s)) p = Reports-report _
  check_enum-Reports (some (object fs)) p = Reports-report _

  pub check_pattern-Reports :
      (patterns : Patterns) (v : Value) (p : Text)
      → Reports (check_pattern patterns v p) (IsPatternText patterns v)
  unfolding check_pattern
  check_pattern-Reports patterns none p = Reports-pass
  check_pattern-Reports patterns (some (string s)) p = Reports-report_unless _ _
  check_pattern-Reports patterns (some null) p = Reports-report _
  check_pattern-Reports patterns (some (boolean b)) p = Reports-report _
  check_pattern-Reports patterns (some (number n)) p = Reports-report _
  check_pattern-Reports patterns (some (array vs)) p = Reports-report _
  check_pattern-Reports patterns (some (object fs)) p = Reports-report _

  check_visible-Reports :
      (v type : Value) (message wrong : Text)
      → Reports
          (elim v [
            | none ↦ pass
            | some (boolean b) ↦ report_if (b && not (is_text (lit "string") type)) message
            | some _ ↦ report wrong
          ])
          (IsVisibleFlag v type)
  unfolding IsVisibleFlag
  check_visible-Reports none type m w = Reports-pass
  check_visible-Reports (some (boolean b)) type m w = Reports-report_if _ _
  check_visible-Reports (some null) type m w = Reports-report _
  check_visible-Reports (some (number n)) type m w = Reports-report _
  check_visible-Reports (some (string s)) type m w = Reports-report _
  check_visible-Reports (some (array vs)) type m w = Reports-report _
  check_visible-Reports (some (object fs)) type m w = Reports-report _

  pub check_visible_content-Reports :
      (node : Json) (p : Text)
      → Reports
          (check_visible_content node p)
          (IsVisibleFlag (get (lit "visibleContent") node) (get (lit "type") node))
  unfolding check_visible_content
  check_visible_content-Reports node p =
      check_visible-Reports (get (lit "visibleContent") node) (get (lit "type") node) _ _

  pub check_field-Reports :
      (name : Text) (node : Json) (test : Value → Bool) (message : Text)
      → Reports
          (report_if (has_own name node && not (test (get name node))) message)
          (Has name node test)
  check_field-Reports name node test message = Reports-report_if _ _
