-- ===== src/Environment/Check/Outcome.antt =====
-- What the exit status of the check says.
use dotfiles_ai.Base.{◌≡◌, true, false, not, ◌&&◌, List, [], none, some, ltb}
use dotfiles_ai.Base.Lists.{length}
use dotfiles_ai.Js.Text.{Text, text_eq}
use dotfiles_ai.Js.Strings.{is_set}
use dotfiles_ai.Environment.Versions.{unknown, version_lt}
use dotfiles_ai.Environment.UserAgent.{jf_version}
use dotfiles_ai.Environment.Check.{
  World, State, Result, min_cli_version, resolve_in, read_cache, is_cache_fresh, cached_version,
  parse_args,
}

abbrev pub found_path : World → Text
found_path w = resolve_in w w.path_dirs

-- The cache is fresh and was not to be passed over; nothing is written.
pub record FromCache (w : World) (argv : List Text) (r : Result) : Type 0 where
  pub not_forced : (parse_args argv false []).0 ≡ false
  pub fresh : is_cache_fresh w (read_cache w) ≡ true
  pub written : r.written ≡ none

-- The program was found and asked, and the cache has the version that it gave.
pub record FromProgram (w : World) (argv : List Text) (r : Result) : Type 0 where
  pub stale : (not (parse_args argv false []).0 && is_cache_fresh w (read_cache w)) ≡ false
  pub found : is_set (found_path w) ≡ true
  pub state : State
  pub written : r.written ≡ some state
  pub version : state.cli_version ≡ jf_version (w.version_output (found_path w))
  pub path : state.cli_path ≡ found_path w

-- The version below the minimum: it is that of the cache, or that of the program, which is known.
pub data IsTooOld (w : World) (argv : List Text) (r : Result) : Type 0 where
  in_cache :
      FromCache w argv r
      → version_lt w.number_of (cached_version (read_cache w)) min_cli_version ≡ true
      → IsTooOld w argv r
  of_program :
      (p : FromProgram w argv r)
      → text_eq p.state.cli_version unknown ≡ false
      → version_lt w.number_of p.state.cli_version min_cli_version ≡ true
      → IsTooOld w argv r

-- The five statuses.
pub data Verdict (w : World) (argv : List Text) (r : Result) : Type 0 where
  ready :
      r.status ≡ 0
      → ltb w.node_major 18 ≡ false
      → FromCache w argv r
      → version_lt w.number_of (cached_version (read_cache w)) min_cli_version ≡ false
      → length r.stdout ≡ 1
      → Verdict w argv r
  refreshed :
      r.status ≡ 1
      → ltb w.node_major 18 ≡ false
      → (p : FromProgram w argv r)
      → (not (text_eq p.state.cli_version unknown)
          && version_lt w.number_of p.state.cli_version min_cli_version)
        ≡ false
      → length r.stdout ≡ 1
      → Verdict w argv r
  missing :
      r.status ≡ 2
      → ltb w.node_major 18 ≡ false
      → is_set (found_path w) ≡ false
      → r.written ≡ none
      → r.stdout ≡ []
      → Verdict w argv r
  too_old :
      r.status ≡ 3
      → ltb w.node_major 18 ≡ false
      → IsTooOld w argv r
      → r.below_minimum ≡ true
      → r.stdout ≡ []
      → Verdict w argv r
  unsupported :
      r.status ≡ 4
      → ltb w.node_major 18 ≡ true
      → r.written ≡ none
      → r.stdout ≡ []
      → Verdict w argv r
