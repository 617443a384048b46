-- ===== src/Ledger/StringArray/Correct.antt =====
-- `validateStringArray` reports nothing exactly for the arrays that `IsStringArray` describes.
use dotfiles_ai.Base.{
  ℕ, suc, ◌∙◌, ◌≡◌, ◌≤◌, refl, ap, true, false, not, ◌&&◌, List, [], ◌∷◌, map, none, some, ltb,
  ◌==◌, arith, ltb-false_iff, allowed_iff, ◌↔◌,
}
use dotfiles_ai.Base.Lists.{length, take, All, take-eq_of_le}
use dotfiles_ai.Js.Text.{Text, contains, unseen_cons, cons_unseen, Distinct}
use dotfiles_ai.Js.Json.{Json, Items, nil, cons, string, array, items, from_items, Value}
use dotfiles_ai.Js.Runtime.{Runtime}
use dotfiles_ai.Diagnostics.Reports.{
  Reports_iff, AllFrom, Reports, Reports-report_if, Reports-seq, Reports-for_each_with, Reports-map,
  Reports-reject,
}
use dotfiles_ai.Ledger.Values.{is_safe_relative_path, is_visible_text}
use dotfiles_ai.Ledger.StringArray.{
  max_list_items, Options, seen_has, seen_add, is_bad_fingerprint, is_valid_entry, validate_entry,
  validate_string_array, IsEntry, IsStringArray,
}

module _ ⦃rt : Runtime⦄ where
  abbrev EntryOk : Options → List Text → Json → Type 0
  EntryOk options seen entry =
      (not (is_valid_entry options entry) ≡ false)
      × ((options.fingerprint && is_bad_fingerprint entry) ≡ false)
      × (seen_has seen entry ≡ false)

  validate_entry-Reports :
      (options : Options) (location : Text) (seen : List Text) (i : ℕ) (entry : Json)
      → Reports (validate_entry options location seen i entry) (EntryOk options seen entry)
  unfolding validate_entry
  validate_entry-Reports options location seen i entry =
      Reports-map
        (Reports-seq (Reports-report_if _ _)
          (Reports-seq (Reports-report_if _ _) (Reports-report_if _ _)))
        (λ h. (h.0, h.1.0, h.1.1)) (λ h. (h.0, (h.1, h.2)))

  only_strings :
      (options : Options) (v : Json) → is_valid_entry options v ≡ true → (s : Text) × (v ≡ string s)
  unfolding is_valid_entry is_safe_relative_path is_visible_text
  only_strings options (string s) h = (s, refl)
  only_strings options _ h = ground arith

  record Scanned (options : Options) (seen : List Text) (vs : Items) : Type 0 where
    texts : List Text
    is : vs ≡ from_items (map string texts)
    entries : All (IsEntry options) texts
    distinct : Distinct texts
    unseen : All (λ u. contains u seen ≡ false) texts

  scan-cons :
      (options : Options) (seen : List Text) (s : Text) (vs : Items)
      → EntryOk options seen (string s)
      → Scanned options (s ∷ seen) vs
      → Scanned options seen (cons (string s) vs)
  unfolding seen_has is_bad_fingerprint
  scan-cons options seen s vs ok r =
      let (ne, unseen) = unseen_cons s seen r.texts r.unseen in
      record {
        texts = s ∷ r.texts;
        is = ap (cons (string s)) r.is;
        entries = (record { valid = ground arith; fingerprint = ok.1 }, r.entries);
        distinct = (ne, r.distinct);
        unseen = (ok.2, unseen);
      }

  scan :
      (options : Options) (seen : List Text) (vs : Items)
      → AllFrom (EntryOk options) seen_add seen (items vs)
      → Scanned options seen vs
  scan options seen nil h = record {
    texts = [];
    is = refl;
    entries = tt;
    distinct = tt;
    unseen = tt;
  }
  scan options seen (cons (string s) vs) h =
      scan-cons options seen s vs h.0 (scan options (s ∷ seen) vs (unfold seen_add in h.1))
  scan options seen (cons v vs) h =
      let (s, e) = only_strings options v (ground arith) in absurd (cc)

  unscan :
      (options : Options) (seen : List Text) (ts : List Text)
      → All (IsEntry options) ts
      → Distinct ts
      → All (λ u. contains u seen ≡ false) ts
      → AllFrom (EntryOk options) seen_add seen (items (from_items (map string ts)))
  unfolding seen_add seen_has is_bad_fingerprint
  unscan options seen [] e d u = tt
  unscan options seen (t ∷ ts) e d u = (
    (ground arith, e.0.fingerprint, u.0),
    unscan options (t ∷ seen) ts e.1 d.1 (cons_unseen t seen ts d.0 u.1),
  )

  length-strings : (ts : List Text) → length (items (from_items (map string ts))) ≡ length ts
  length-strings [] = refl
  length-strings (t ∷ ts) = ap suc (length-strings ts)

  nothing_seen : (ts : List Text) → All (λ u. contains u [] ≡ false) ts
  unfolding contains
  nothing_seen [] = tt
  nothing_seen (t ∷ ts) = (refl, nothing_seen ts)

  abbrev Accepts : Options → Items → Type 0
  Accepts options vs =
      ((not options.allow_empty && length (items vs) == 0) ≡ false)
      × ((ltb max_list_items (length (items vs))) ≡ false)
      × AllFrom (EntryOk options) seen_add [] (take max_list_items (items vs))

  Accepts-array :
      (options : Options) (vs : Items)
      → Accepts options vs
      → IsStringArray options (some (array vs))
  Accepts-array options vs h =
      let few : length (items vs) ≤ max_list_items = (ltb-false_iff _ _).0 h.1 in
      let r = scan options [] vs (rw (take-eq_of_le max_list_items (items vs) few) at h.2) in
      let size : length (items vs) ≡ length r.texts =
        ap (λ ws. length (items ws)) r.is ∙ length-strings r.texts in
      record {
        texts = r.texts;
        is_array = ap (λ ws. some (array ws)) r.is;
        at_most = omega arith;
        nonempty = rw size at ((allowed_iff options.allow_empty (length (items vs))).0 h.0);
        entries = r.entries;
        distinct = r.distinct;
      }

  array-Accepts :
      (options : Options) (vs : Items)
      → IsStringArray options (some (array vs))
      → Accepts options vs
  array-Accepts options vs h =
      let is : vs ≡ from_items (map string h.texts) = cc in
      let size : length (items vs) ≡ length h.texts =
        ap (λ ws. length (items ws)) is ∙ length-strings h.texts in
      (
        rw size ((allowed_iff _ _).1 h.nonempty),
        rw size ((ltb-false_iff _ _).1 h.at_most),
        rw (take-eq_of_le max_list_items (items vs) (omega arith), is)
            (unscan options [] h.texts h.entries h.distinct (nothing_seen h.texts)),
      )

  pub validate_string_array-Reports :
      (v : Value) (location : Text) (options : Options)
      → Reports (validate_string_array v location options) (IsStringArray options v)
  unfolding validate_string_array
  validate_string_array-Reports (some (array vs)) location options =
      Reports-map
        (Reports-seq (Reports-report_if _ _) (
          Reports-seq (Reports-report_if _ _)
            (Reports-for_each_with seen_add (validate_entry-Reports options location) [] 0 _)))
        (λ h. Accepts-array options vs (h.0, h.1.0, h.1.1))
        (λ h. let (a, b, c) = array-Accepts options vs h in (a, (b, c)))
  validate_string_array-Reports none location options =
      Reports-reject _ (λ h. let e = h.is_array in cc)
  validate_string_array-Reports (some v) location options =
      Reports-reject _ (λ h. let e = h.is_array in cc)

  -- `validateStringArray` adds no error exactly if the value is an array of as many entries as the
  -- options allow, each a different string that the options allow.
  pub validate_string_array_iff :
      (v : Value) (location : Text) (options : Options)
      → (validate_string_array v location options [] ≡ []) ↔ IsStringArray options v
  validate_string_array_iff v location options =
      Reports_iff (validate_string_array-Reports v location options)
