-- ===== src/Ledger/Run/Exit.antt =====
-- What is read is within the limit, and when the command exits with 0.
use mathlib.Core.Path.{subst}
use dotfiles_ai.Base.{
  ℕ, zero, suc, ◌+◌, ◌≤◌, ◌<◌, ◌≡◌, ◌↔◌, refl, Bool, true, false, List, [], ◌∷◌, ◌++◌, Option, none,
  some, arith, ltb-false_iff,
}
use dotfiles_ai.Base.Lists.{length, length-append}
use dotfiles_ai.Js.Text.{Text}
use dotfiles_ai.Js.Json.{Json}
use dotfiles_ai.Js.Runtime.{Runtime}
use dotfiles_ai.Diagnostics.{Errors}
use dotfiles_ai.Ledger.Scan.{Scan, Outcome, fail, go, preflight_json_text}
use dotfiles_ai.Ledger.Document.{validate_document}
use dotfiles_ai.Ledger.Document.Correct.{IsLedger, validate_document_iff}
use dotfiles_ai.Ledger.Run.{
  max_input_bytes, Opened, link, refused, opened, Stat, System, Read, unsafe, failed, contents,
  keep, round, read_all, decoded, decode_all, enough, read_regular, open_file, open_safely,
  read_opened, read_file, Finished, stop, finish_run, run_errors, run_parsed, run_scanned,
  run_contents, run,
}

-- An outcome of the loop: there is one, and what is read is within the limit.
abbrev Limited : Option (Read (List ℕ)) → Type 0
Limited none = ⊥
Limited (some (unsafe message)) = Unit
Limited (some failed) = Unit
Limited (some (contents bytes)) = length bytes ≤ max_input_bytes

keep-Limited :
    (next : List ℕ → Option (Read (List ℕ))) (large : Bool) (bytes : List ℕ)
    → (large ≡ false → Limited (next bytes))
    → Limited (keep next large bytes)
unfolding keep
keep-Limited next true bytes h = tt
keep-Limited next false bytes h = h refl

round-Limited :
    (next : List ℕ → Option (Read (List ℕ))) (bytes : List ℕ) (o : Option (List ℕ))
    → length bytes ≤ max_input_bytes
    → ((more : List ℕ)
        → length more ≤ max_input_bytes
        → length bytes < length more
        → Limited (next more))
    → Limited (round next bytes o)
unfolding round
round-Limited next bytes none h k = tt
round-Limited next bytes (some []) h k = h
round-Limited next bytes (some (b ∷ bs)) h k =
    keep-Limited next _ (bytes ++ b ∷ bs)
      (λ few. k (bytes ++ b ∷ bs) ((ltb-false_iff _ _).0 few) (rw length-append (omega arith)))

read_all-Limited :
    (sys : System) (fuel i : ℕ) (bytes : List ℕ)
    → length bytes ≤ max_input_bytes
    → max_input_bytes < length bytes + fuel
    → Limited (read_all sys fuel i bytes)
unfolding read_all
read_all-Limited sys zero i bytes h k = absurd (omega arith)
read_all-Limited sys (suc fuel) i bytes h k =
    round-Limited _ bytes (sys.read i) h
      (λ more few longer. read_all-Limited sys fuel (suc i) more few (omega arith))

-- A result, and if it is a text, bytes within the limit that it comes of.
abbrev pub OfBytes : System → Option (Read Text) → Type 0
OfBytes sys none = ⊥
OfBytes sys (some (unsafe message)) = Unit
OfBytes sys (some failed) = Unit
OfBytes sys (some (contents text)) =
    (bytes : List ℕ) × (length bytes ≤ max_input_bytes) × (sys.decode bytes ≡ some text)

decoded-OfBytes :
    (sys : System) (bytes : List ℕ) (o : Option Text)
    → length bytes ≤ max_input_bytes
    → sys.decode bytes ≡ o
    → OfBytes sys (some (decoded o))
unfolding decoded
decoded-OfBytes sys bytes none h e = tt
decoded-OfBytes sys bytes (some text) h e = (bytes, h, e)

decode_all-OfBytes :
    (sys : System) (r : Option (Read (List ℕ))) → Limited r → OfBytes sys (decode_all sys r)
unfolding decode_all
decode_all-OfBytes sys none h = h
decode_all-OfBytes sys (some (unsafe message)) h = tt
decode_all-OfBytes sys (some failed) h = tt
decode_all-OfBytes sys (some (contents bytes)) h =
    decoded-OfBytes sys bytes (sys.decode bytes) h refl

read_regular-OfBytes :
    (sys : System) (regular large : Bool) → OfBytes sys (read_regular sys regular large)
unfolding read_regular
read_regular-OfBytes sys false large = tt
read_regular-OfBytes sys true true = tt
read_regular-OfBytes sys true false =
    decode_all-OfBytes sys _ (read_all-Limited sys enough 0 [] (omega arith) (omega arith))

read_opened-OfBytes : (sys : System) (stat : Option Stat) → OfBytes sys (read_opened sys stat)
unfolding read_opened
read_opened-OfBytes sys none = tt
read_opened-OfBytes sys (some stat) = read_regular-OfBytes sys _ _

open_safely-OfBytes :
    (sys : System) (file : Text) (safe : Bool) → OfBytes sys (open_safely sys file safe)
unfolding open_safely
open_safely-OfBytes sys file false = tt
open_safely-OfBytes sys file true = at_open (sys.open_sync file)
  where
    at_open : (o : Opened) → OfBytes sys (open_file sys o)
    at_open link = tt
    at_open refused = tt
    at_open opened = read_opened-OfBytes sys sys.stat

-- `readFileWithinLimit` ends, however many reads the file takes, and if it returns a text, then
-- the text is the decoding of at most 5242880 bytes.
pub read_file-OfBytes : (sys : System) (file : Text) → OfBytes sys (read_file sys file)
unfolding read_file
read_file-OfBytes sys file = open_safely-OfBytes sys file _

-- The command ends with exit status 0.
abbrev pub Passes : Option Finished → Type 0
Passes o = (f : Finished) × (o ≡ some f) × (f.status ≡ 0)

not-Passes-stop : (line : Text) → ¬ Passes (stop line)
not-Passes-stop line (f, e, zero_status) = cc (e, zero_status)

module _ ⦃rt : Runtime⦄ where
  Passes-run_errors :
      (ledger : Json) (o : Option Errors) → Passes (run_errors ledger o) ↔ (o ≡ some [])
  unfolding run_errors finish_run
  Passes-run_errors ledger none = (λ h. let e = h.1 in cc, λ h. cc)
  Passes-run_errors ledger (some []) = (λ h. refl, λ h. (_, refl, refl))
  Passes-run_errors ledger (some (m ∷ errors)) = (λ h. let e = h.1 in let z = h.2 in cc, λ h. cc)

  abbrev IsParsed : Option Json → Type 0
  IsParsed o = (ledger : Json) × (o ≡ some ledger) × IsLedger ledger

  Passes-run_parsed : (o : Option Json) → Passes (run_parsed o) ↔ IsParsed o
  unfolding run_parsed
  Passes-run_parsed none = (λ h. absurd (not-Passes-stop _ h), λ h. let e = h.1 in cc)
  Passes-run_parsed (some ledger) =
      let valid = Passes-run_errors ledger (validate_document ledger) in
      let is = validate_document_iff ledger in
      (
        λ h. (ledger, refl, is.0 (valid.0 h)),
        λ h. let same : h.0 ≡ ledger = cc (h.1) in valid.1 (is.1 (subst IsLedger same h.2)),
      )

  abbrev IsScanned : System → Text → Outcome → Type 0
  IsScanned sys text o = (end : Scan) × (o ≡ go end) × IsParsed (sys.parse text)

  Passes-run_scanned :
      (sys : System) (text : Text) (o : Outcome)
      → Passes (run_scanned sys text o) ↔ IsScanned sys text o
  unfolding run_scanned
  Passes-run_scanned sys text (fail m) = (λ h. absurd (not-Passes-stop _ h), λ h. let e = h.1 in cc)
  Passes-run_scanned sys text (go end) = (
    λ h. (end, refl, (Passes-run_parsed (sys.parse text)).0 h),
    λ h. (Passes-run_parsed (sys.parse text)).1 h.2,
  )

  -- What the command was given is read, scanned, parsed and a ledger.
  abbrev pub IsRead : System → Option (Read Text) → Type 0
  IsRead sys o =
      (text : Text) × (o ≡ some (contents text)) × IsScanned sys text (preflight_json_text text)

  Passes-run_contents :
      (sys : System) (o : Option (Read Text)) → Passes (run_contents sys o) ↔ IsRead sys o
  unfolding run_contents
  Passes-run_contents sys none = (λ h. let e = h.1 in cc, λ h. let e = h.1 in cc)
  Passes-run_contents sys (some (unsafe m)) =
      (λ h. absurd (not-Passes-stop _ h), λ h. let e = h.1 in cc)
  Passes-run_contents sys (some failed) =
      (λ h. absurd (not-Passes-stop _ h), λ h. let e = h.1 in cc)
  Passes-run_contents sys (some (contents text)) =
      let scanned = Passes-run_scanned sys text (preflight_json_text text) in
      (
        λ h. (text, refl, scanned.0 h),
        λ h.
            let same : h.0 ≡ text = cc (h.1) in
            scanned.1 (subst (λ t. IsScanned sys t (preflight_json_text t)) same h.2),
      )

  -- The command exits with 0 exactly if it is given a name that is not empty, the file of that name
  -- is read as a text, the scan of the text accepts it, and it parses as a value that is a ledger.
  pub run_iff :
      (sys : System) (file : Option Text)
      → Passes (run sys file) ↔ (
          (c : ℕ) × (name : Text) × (file ≡ some (c ∷ name))
          × IsRead sys (read_file sys (c ∷ name)))
  unfolding run
  run_iff sys none = (λ h. absurd (not-Passes-stop _ h), λ h. let e = h.2 in cc)
  run_iff sys (some []) = (λ h. absurd (not-Passes-stop _ h), λ h. let e = h.2 in cc)
  run_iff sys (some (c ∷ name)) =
      let read = Passes-run_contents sys (read_file sys (c ∷ name)) in
      (
        λ h. (c, name, refl, read.0 h),
        λ h.
            let same : h.0 ∷ h.1 ≡ c ∷ name = cc (h.2) in
            read.1 (subst (λ n. IsRead sys (read_file sys n)) same h.3),
      )
