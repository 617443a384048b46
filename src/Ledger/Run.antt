-- ===== src/Ledger/Run.antt =====
-- `readFileWithinLimit` and `run`. The calls of Node, the decoder and `JSON.parse` are the fields of
-- a record; that the descriptor is closed is not modelled.
-- (dot_agents/skills/security-audit/validate-coverage-ledger.cjs)
pub mod Exit
use dotfiles_ai.Base.{
  ℕ, zero, suc, Bool, true, false, not, ◌&&◌, ◌||◌, List, [], ◌∷◌, ◌++◌, map, Option, none, some,
  ltb, ◌==◌,
}
use dotfiles_ai.Base.Lists.{length}
use dotfiles_ai.Js.Text.{Text, lit, decimal}
use dotfiles_ai.Js.Json.{Json, array, items}
use dotfiles_ai.Js.Runtime.{Runtime}
use dotfiles_ai.Diagnostics.{Errors, max_errors}
use dotfiles_ai.Ledger.Scan.{Outcome, fail, go, preflight_json_text}
use dotfiles_ai.Ledger.Document.{validate_document}

abbrev pub max_input_bytes : ℕ
max_input_bytes = 5242880

-- What `openSync` does: it throws with ELOOP or EMLINK, or otherwise, or returns a descriptor.
pub data Opened : Type 0 where
  link : Opened
  refused : Opened
  opened : Opened

-- What the source asks of `fstatSync`.
pub record Stat : Type 0 where
  pub is_file : Bool
  pub size : ℕ

-- Node and the file that it opens. `read i` is the `i`-th `readSync` on the descriptor, `none` a
-- call that throws.
pub record System : Type 0 where
  pub has_no_follow : Bool
  pub has_non_block : Bool
  pub open_sync : Text → Opened
  pub stat : Option Stat
  pub read : ℕ → Option (List ℕ)
  pub decode : List ℕ → Option Text
  pub parse : Text → Option Json

-- A thrown SafeInputError with its message, another exception, or what is returned.
pub data Read {ℓ} (A : Type ℓ) : Type ℓ where
  unsafe : (message : Text) → Read A
  failed : Read A
  contents : (value : A) → Read A

abbrev pub too_large : Text
too_large = lit "input exceeds 5242880 byte limit"

-- `if (bytesRead > MAX_INPUT_BYTES) throw …`, and the next round
unfoldable pub keep : (List ℕ → Option (Read (List ℕ))) → Bool → List ℕ → Option (Read (List ℕ))
keep next true bytes = some (unsafe too_large)
keep next false bytes = next bytes

-- A round of the loop, on what `readSync` gives.
unfoldable pub round :
    (List ℕ → Option (Read (List ℕ))) → List ℕ → Option (List ℕ) → Option (Read (List ℕ))
unfolding keep
round next bytes none = some failed
round next bytes (some []) = some (contents bytes)
round next bytes (some (b ∷ bs)) =
    keep next (ltb max_input_bytes (length (bytes ++ b ∷ bs))) (bytes ++ b ∷ bs)

-- The loop over `readSync`, from its `i`-th round, with the bytes so far.
unfoldable pub read_all : System → ℕ → ℕ → List ℕ → Option (Read (List ℕ))
unfolding round
read_all sys zero i bytes = none
read_all sys (suc fuel) i bytes = round (λ more. read_all sys fuel (suc i) more) bytes (sys.read i)

-- `UTF8_DECODER.decode`
unfoldable pub decoded : Option Text → Read Text
decoded none = unsafe (lit "input is not valid UTF-8")
decoded (some text) = contents text

unfoldable pub decode_all : System → Option (Read (List ℕ)) → Option (Read Text)
unfolding decoded
decode_all sys none = none
decode_all sys (some (unsafe message)) = some (unsafe message)
decode_all sys (some failed) = some failed
decode_all sys (some (contents bytes)) = some (decoded (sys.decode bytes))

-- every round but the last reads a byte
abbrev pub enough : ℕ
enough = 5242881

-- the second `try` of `readFileWithinLimit`, on `!stat.isFile()` and the test of the size
unfoldable pub read_regular : System → Bool → Bool → Option (Read Text)
unfolding read_all decode_all
read_regular sys false large = some (unsafe (lit "input must be a regular file"))
read_regular sys true true = some (unsafe too_large)
read_regular sys true false = decode_all sys (read_all sys enough 0 [])

unfoldable pub read_opened : System → Option Stat → Option (Read Text)
unfolding read_regular
read_opened sys none = some failed
read_opened sys (some stat) = read_regular sys stat.is_file (ltb max_input_bytes stat.size)

unfoldable pub open_file : System → Opened → Option (Read Text)
unfolding read_opened
open_file sys link = some (unsafe (lit "input must not be a symlink"))
open_file sys refused = some failed
open_file sys opened = read_opened sys sys.stat

unfoldable pub open_safely : System → Text → Bool → Option (Read Text)
unfolding open_file
open_safely sys file false =
    some (unsafe (lit "OS no-follow and nonblocking input protection is unavailable"))
open_safely sys file true = open_file sys (sys.open_sync file)

-- `readFileWithinLimit`; `none` would be a loop that ran out of fuel.
unfoldable pub read_file : System → Text → Option (Read Text)
unfolding open_safely
read_file sys file = open_safely sys file (sys.has_no_follow && sys.has_non_block)

-- The exit status and the lines of output.
pub record Finished : Type 0 where
  pub status : ℕ
  pub lines : List Text

abbrev pub stop : Text → Option Finished
stop line = some (record { status = 1; lines = line ∷ [] })

abbrev pub capped : ℕ → Text
capped n = elim (n == max_errors) [ true ↦ lit "; output capped at 100" | false ↦ [] ]

abbrev pub count_units : Json → ℕ
count_units (array vs) = length (items vs)
count_units _ = 0

-- from the loop over `errors` on
unfoldable pub finish_run : Json → Errors → Finished
finish_run ledger [] = record {
  status = 0;
  lines = (lit "PASS: " ++ (decimal (count_units ledger) ++ lit " coverage units valid")) ∷ [];
}
finish_run ledger (m ∷ errors) =
    let n = length (m ∷ errors) in
    record {
      status = 1;
      lines =
          map (λ message. lit "ERROR: " ++ message) (m ∷ errors)
          ++ (lit "FAIL: " ++ (decimal n ++ (lit " validation error(s)" ++ capped n))) ∷ [];
    }

module _ ⦃rt : Runtime⦄ where
  -- from `validateDocument` on
  unfoldable pub run_errors : Json → Option Errors → Option Finished
  unfolding finish_run
  run_errors ledger none = none
  run_errors ledger (some errors) = some (finish_run ledger errors)

  -- from `JSON.parse` on
  unfoldable pub run_parsed : Option Json → Option Finished
  unfolding run_errors
  run_parsed none = stop (lit "Failed to parse coverage ledger: invalid JSON syntax")
  run_parsed (some ledger) = run_errors ledger (validate_document ledger)

  -- from `preflightJsonText` on
  unfoldable pub run_scanned : System → Text → Outcome → Option Finished
  unfolding run_parsed
  run_scanned sys text (fail message) = stop (lit "Failed to parse coverage ledger: " ++ message)
  run_scanned sys text (go end) = run_parsed (sys.parse text)

  unfoldable pub run_contents : System → Option (Read Text) → Option Finished
  unfolding run_scanned
  run_contents sys none = none
  run_contents sys (some (unsafe message)) =
      stop (lit "Failed to read coverage ledger: " ++ message)
  run_contents sys (some failed) =
      stop (lit "Failed to read coverage ledger: input could not be opened or read safely")
  run_contents sys (some (contents text)) = run_scanned sys text (preflight_json_text text)

  -- `run`, on the argument of the command, if there is one
  unfoldable pub run : System → Option Text → Option Finished
  unfolding run_contents
  run sys none =
      stop (lit "Usage: node validate-coverage-ledger.cjs <path-to-coverage-ledger.json>")
  run sys (some []) =
      stop (lit "Usage: node validate-coverage-ledger.cjs <path-to-coverage-ledger.json>")
  run sys (some (c ∷ file)) = run_contents sys (read_file sys (c ∷ file))
