-- ===== src/Environment/Check.antt =====
-- The cache and `main`.
-- (dot_agents/skills/jfrog/scripts/check-environment.mjs)
pub mod Outcome
use dotfiles_ai.Base.{
  ℕ, Bool, true, false, not, ◌&&◌, ◌||◌, List, [], ◌∷◌, ◌++◌, Option, none, some, ltb,
  if◌then◌else◌,
}
use dotfiles_ai.Js.Text.{Text, lit, text_eq}
use dotfiles_ai.Js.Number.{Number, whole, number_lt, number_eq, is_finite}
use dotfiles_ai.Js.Json.{
  Json, Fields, null, boolean, number, string, array, object, end, field, get, Value,
}
use dotfiles_ai.Js.Strings.{is_set, or_else}
use dotfiles_ai.Environment.Versions.{version_lt, unknown, latest_of, decide_suggest_upgrade, Offer}
use dotfiles_ai.Environment.Host.{Host}
use dotfiles_ai.Environment.UserAgent.{jf_version, skill_version, build_user_agent}

-- What the script finds outside: the cache file and its parse, the clock, the skill's file, the
-- files on the search path, the programs it starts and the network.
pub record World : Type 0 where
  -- `Number(process.versions.node.split(".")[0])`
  pub node_major : ℕ
  pub host : Host
  pub number_of : Text → Number
  -- `readFileSync(CACHE_FILE)`, `none` if it throws, and `JSON.parse`
  pub cache_text : Option Text
  pub parse : Text → Option Json
  -- `Math.floor(Date.now() / 1000) - Math.floor(checkedMs / 1000)`, `none` where `Date.parse` gives
  -- NaN
  pub age_seconds : Value → Option Number
  -- `ttlHours * 3600`
  pub hours : Number → Number
  -- `isoNow()`
  pub now : Text
  pub skill_file : Option Text
  -- the entries of the search path, `join`, and whether a path is a file that may be executed
  pub path_dirs : List Text
  pub names : List Text
  pub join : Text → Text → Text
  pub is_executable : Text → Bool
  -- the output of `jf --version`
  pub version_output : Text → Text
  -- the body of the listing, `none` where the answer is not `ok` or anything throws
  pub listing : Option Text

unfoldable pub min_cli_version : Text
unfolding lit
min_cli_version = lit "2.100.0"

abbrev pub first_executable : (Text → Bool) → Text → (Text → Text → Text) → List Text → Text → Text
first_executable is_executable dir join [] default = default
first_executable is_executable dir join (name ∷ names) default =
    let rest = first_executable is_executable dir join names default in
    if is_executable (join dir name) then join dir name else rest

-- `resolveBinaryPath("jf")`
unfoldable pub resolve_in : World → List Text → Text
resolve_in w [] = []
resolve_in w (dir ∷ dirs) = first_executable w.is_executable dir w.join w.names (resolve_in w dirs)

abbrev pub as_cache : Option Json → Option Json
as_cache (some (object fs)) = some (object fs)
as_cache _ = none

-- `readCache`
unfoldable pub read_cache : World → Option Json
read_cache w = elim w.cache_text [ none ↦ none | some text ↦ as_cache (w.parse text) ]

-- `if (value)` on a JSON value
unfoldable pub is_truthy : Value → Bool
unfolding number_eq is_set
is_truthy none = false
is_truthy (some null) = false
is_truthy (some (boolean b)) = b
is_truthy (some (number n)) = not (number_eq n (whole 0))
is_truthy (some (string s)) = is_set s
is_truthy (some (array vs)) = true
is_truthy (some (object fs)) = true

-- `cache.ttl_hours ?? DEFAULT_TTL_HOURS`, if it is a finite number
unfoldable pub ttl_of : Value → Option Number
unfolding is_finite
ttl_of none = some (whole 24)
ttl_of (some null) = some (whole 24)
ttl_of (some (number n)) = if is_finite n then some n else none
ttl_of _ = none

unfoldable pub is_younger : World → Option Number → Option Number → Bool
unfolding number_lt
is_younger w (some age) (some ttl) = number_lt age (w.hours ttl)
is_younger w _ _ = false

-- `isCacheFresh`
unfoldable pub is_cache_fresh : World → Option Json → Bool
unfolding is_truthy ttl_of is_younger
is_cache_fresh w none = false
is_cache_fresh w (some cache) =
    is_truthy (get (lit "checked_at") cache)
    && is_younger w (w.age_seconds (get (lit "checked_at") cache))
        (ttl_of (get (lit "ttl_hours") cache))

-- `cache.cli_version || "unknown"`, which this script writes as a text
unfoldable pub cached_version : Option Json → Text
cached_version none = unknown
cached_version (some cache) = elim (get (lit "cli_version") cache) [
  | some (string s) ↦ or_else s unknown
  | _ ↦ unknown
]

-- The state that is written to the cache.
pub record State : Type 0 where
  pub checked_at : Text
  pub cli_path : Text
  pub cli_version : Text
  pub meets_minimum : Bool
  pub latest : Text
  pub suggest : Bool

-- The exit status, the lines of stdout, whether the error on the minimum version is printed, and
-- what is written to the cache.
pub record Result : Type 0 where
  pub status : ℕ
  pub stdout : List Text
  pub below_minimum : Bool
  pub written : Option State

-- the loop over the arguments
unfoldable pub parse_args : List Text → Bool → Text → Bool × Text
unfolding is_set
parse_args [] force slug = (force, slug)
parse_args (arg ∷ args) force slug =
    if text_eq arg (lit "--force")
    then parse_args args true slug
    else parse_args args force (if not (is_set slug) then arg else slug)

abbrev pub live_version : World → Text → Text
live_version w jf = if is_set jf then jf_version (w.version_output jf) else unknown

-- `buildUserAgent({ modelSlugArg, jfPath })`
unfoldable pub user_agent : World → Text → Text → Text
user_agent w slug jf =
    build_user_agent w.number_of w.host slug (live_version w jf) (cached_version (read_cache w))
      (skill_version w.skill_file)

-- the branch on a fresh cache
unfoldable pub run_fresh : World → Text → Option Json → Result
unfolding user_agent
run_fresh w slug cache =
    if version_lt w.number_of (cached_version cache) min_cli_version
    then record { status = 3; stdout = []; below_minimum = true; written = none }
    else record {
      status = 0;
      stdout = user_agent w slug (resolve_in w w.path_dirs) ∷ [];
      below_minimum = false;
      written = none;
    }

-- `await fetchLatestVersion()`
unfoldable pub fetch_latest : World → Text
fetch_latest w = elim w.listing [ none ↦ unknown | some body ↦ latest_of w.number_of body ]

-- `state`
unfoldable pub new_state : World → Option Json → Text → Text → State
unfolding fetch_latest
new_state w cache jf cli =
    let offer = decide_suggest_upgrade w.number_of cli (fetch_latest w) cache in
    record {
      checked_at = w.now;
      cli_path = jf;
      cli_version = cli;
      meets_minimum = not (text_eq cli unknown) && not (version_lt w.number_of cli min_cli_version);
      latest = offer.latest;
      suggest = offer.suggest;
    }

-- The rest of `main`, for the path of `jf` that was found. The user agent reads the cache again,
-- after it was written; `after` is the world with that file.
unfoldable pub run_refresh : World → (State → World) → Text → Option Json → Text → Result
unfolding new_state user_agent
run_refresh w after slug cache jf =
    let cli = jf_version (w.version_output jf) in
    let state = new_state w cache jf cli in
    if not (text_eq cli unknown) && version_lt w.number_of cli min_cli_version
    then record { status = 3; stdout = []; below_minimum = true; written = some state }
    else record {
      status = 1;
      stdout = user_agent (after state) slug jf ∷ [];
      below_minimum = false;
      written = some state;
    }

unfoldable pub run_stale : World → (State → World) → Text → Option Json → Text → Result
unfolding run_refresh
run_stale w after slug cache jf =
    if not (is_set jf)
    then record { status = 2; stdout = []; below_minimum = false; written = none }
    else run_refresh w after slug cache jf

-- `main`
unfoldable pub main : World → (State → World) → List Text → Result
unfolding parse_args read_cache run_fresh run_stale resolve_in
main w after argv =
    let args = parse_args argv false [] in
    let cache = read_cache w in
    if not args.0 && is_cache_fresh w cache
    then run_fresh w args.1 cache
    else run_stale w after args.1 cache (resolve_in w w.path_dirs)

-- The script: the test of the version of Node, and `main`.
unfoldable pub run_script : World → (State → World) → List Text → Result
unfolding main
run_script w after argv =
    if ltb w.node_major 18
    then record { status = 4; stdout = []; below_minimum = false; written = none }
    else main w after argv

-- Whether `cli_version` in the cache is a text or makes no difference, as in every cache that this
-- script writes.
unfoldable pub has_text_version : Option Json → Bool
unfolding is_truthy
has_text_version none = true
has_text_version (some cache) = elim (get (lit "cli_version") cache) [
  | some (string s) ↦ true
  | v ↦ not (is_truthy v)
]
