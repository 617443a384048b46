-- ===== src/Lib.antt =====
-- Two validators of the security-audit skill, the environment check of the jfrog skill, and the state
-- file of its initialisation: dot_agents/skills/security-audit/validate-coverage-ledger.cjs and
-- validate-findings.cjs, dot_agents/skills/jfrog/scripts/check-environment.mjs, and
-- dot_agents/skills/jfrog-init/scripts/jfrog-state-file.mjs.
--
-- A ledger is a JSON array of coverage units. Its validator reads it, checks every unit by itself,
-- then the units among each other, and returns a list of at most 100 messages; the ledger is
-- accepted if the list is empty. The validator of findings does the same for a JSON array of
-- findings, against a JSON Schema, which it first checks and then interprets, and against rules that
-- the schema does not say. The environment check looks for the program `jf`, caches what it found
-- and prints a User-Agent; its exit status says what the caller has to do. The state file keeps a
-- record for each server, under a lock that is taken over after 30 seconds.
--
-- The parts, and how they stand for the code:
-- - Base: lists and Booleans over native numbers, and prefix codes.
-- - Js: what the sources use of JavaScript. Js/Text has strings as lists of UTF-16 code units,
--   Js/Strings the methods on them, Js/Number the finite doubles, kept exactly, and the infinities,
--   Js/Json the values of `JSON.parse` (`undefined` is `none`), Js/Utf8 the encoding that
--   `Buffer.from(value, "utf8")` gives. Js/Runtime is a record for what the engine's tables decide: the
--   Unicode classes Cf and Default_Ignorable_Code_Point, NFC, and `String` of a number. It asks of
--   them only that no ASCII character is in these classes.
-- - Diagnostics: `escapeUnsafeDiagnosticCharacters`, `safeQuote`, and `push` of `createErrorList`, which
--   both validators have. Diagnostics/Reports has the validators as actions on the list, and
--   `Reports c P`: the action `c` pushes nothing exactly when `P` holds.
-- - Ledger/Values, CoverageId, StringArray, Arrays, Evidence, Blocks, State, Attempts and Unit: one
--   function per function or loop body of the source, in the order of the source, up to
--   `collectUnitErrors`. Next to each, the predicate that the validator decides.
-- - Ledger/Preflight: `preflightDocument`, its stack as a list of frames. The walk is on fuel; the
--   number of values of the document is enough, as each round takes one value off the stack.
-- - Ledger/Document: `validateDocument`. Its two maps are association lists, its variables the
--   record `Seen`.
-- - Ledger/Scan: `preflightJsonText`, one step for one code unit. The inner loop over the rest of a
--   token is a mode of the state, as being in a string is.
-- - Ledger/Run: `readFileWithinLimit` and `run`. What Node, the text decoder and `JSON.parse` do is a
--   record `System`. The loop of reads is on fuel; each round but the last reads a byte, so one
--   round more than the limit of bytes is enough.
-- - Findings/Values: `typeOf`, `deepEqual`, `canonicalKey`, `propertyPath` and the test on paths.
--   Findings/Schema: `collectSchemaErrors`. Findings/Keywords and Validate: `validate`, which recurs on
--   the schema. `new RegExp` and its `test` are the record `Patterns`. Findings/Validate/Valid says
--   what a valid value is.
-- - Findings/Semantic and Verdict: `collectFindingSemanticErrors`, its variables the record
--   `Fingerprints`.
-- - Findings/DataLimits and TextLimits: `collectDataLimitErrors`, on fuel as above, and
--   `enforceJsonTextLimits`, one step for one code unit. Findings/TextLimits/Printed has JSON values
--   with their layout, and how they are printed.
-- - Findings/Document: `collect`, `validateDocument`, `loadSchema` and `run`. The file is read by the
--   function of Ledger/Run, of which the source has a copy.
-- - Environment/Versions: the versions X.Y.Z, `fetchLatestVersion` on the body of the answer, and
--   `decideSuggestUpgrade`. `Number` on digits is a parameter. Environment/Host: the names of the
--   terminal, the window and the harness, from the environment variables, which are a function.
--   Environment/UserAgent: `skillVersion` and `buildUserAgent`. Environment/Check: the cache and
--   `main`, behind the test of the version of Node, with what the script finds outside as the record
--   `World`.
-- - Setup: the lock, `loadState`, `setStateForServer` and `get-current-project`, on a record `Disk` of
--   the state file and the lock file; what the script finds outside is the record `Machine`.
-- - Tests: runs of the model on small inputs.
--
-- Mutation is state passing: the list of errors is the argument and the result of each action. A
-- thrown TypeError is `none`. The limits are the numbers of the source.
--
-- Not modelled: that the descriptor is closed, the export lists, `validate` on schemas that
-- `collectSchemaErrors` refuses, and an exception out of the `validateDocument` of findings. Of the
-- environment check: the requests and the choice of a proxy, the writing of the cache file and the
-- JSON that goes to the standard error. Of the state file: the modes `get` and `path`, the temporary
-- file with its mode, the fields of records that are inherited, and server names that are indices.
-- In the cache of the environment check, a version that is no text is read as absent. The other
-- scripts of the jfrog skills and the maintenance observer stand beside these programs without
-- calling them.
pub mod Base
pub mod Js
pub mod Diagnostics
pub mod Ledger
pub mod Findings
pub mod Setup
pub mod Environment
pub mod Tests
