-- ===== src/Environment/Host.antt =====
-- What the environment says of the session: the tokens, the hosting window and the harness.
-- (dot_agents/skills/jfrog/scripts/check-environment.mjs)
pub mod Names
use dotfiles_ai.Base.{
  ℕ, Bool, true, false, not, ◌&&◌, ◌||◌, List, [], ◌∷◌, ◌++◌, map, ◌-◌, ◌==◌, if◌then◌else◌, within,
}
use dotfiles_ai.Base.Lists.{length, any}
use dotfiles_ai.Js.Text.{Text, lit, text_eq}
use dotfiles_ai.Js.Strings.{
  trim, includes, ends_with, keep_only, before, replace_all, slice_to, is_set, or_else,
}

-- The environment variables (`process.env[name] ?? ""`), `toLowerCase`, and the two spellings of the
-- script's own path.
pub record Host : Type 0 where
  pub env : Text → Text
  pub lower : Text → Text
  pub script_path : Text
  pub argv_path : Text

-- `[a-z0-9._-]`
unfoldable pub is_token_char : ℕ → Bool
is_token_char c = within b'a' b'z' c || within b'0' b'9' c || c == b'.' || c == b'_' || c == b'-'

unfoldable pub lookup : Text → List (Text × Text) → Text → Text
lookup k [] default = default
lookup k ((j, v) ∷ entries) default =
    let rest = lookup k entries default in if text_eq j k then v else rest

-- `TERMINALS`
unfoldable pub terminals : List (Text × Text)
unfolding lit
terminals =
    (lit "iterm", lit "iterm")
    ∷ (lit "apple_terminal", lit "terminal")
    ∷ (lit "warpterminal", lit "warp")
    ∷ (lit "warp", lit "warp")
    ∷ (lit "tmux", lit "tmux")
    ∷ (lit "wezterm", lit "wezterm")
    ∷ (lit "alacritty", lit "alacritty")
    ∷ (lit "kitty", lit "kitty")
    ∷ (lit "ghostty", lit "ghostty")
    ∷ (lit "hyper", lit "hyper")
    ∷ []

-- `AGENT_ALIASES`
unfoldable pub agent_aliases : List (Text × Text)
unfolding lit
agent_aliases =
    (lit "claude-code", lit "claude")
    ∷ (lit "claude", lit "claude")
    ∷ (lit "gemini-cli", lit "gemini")
    ∷ (lit "gemini", lit "gemini")
    ∷ (lit "goose", lit "goose")
    ∷ (lit "cursor-cli", lit "cursor")
    ∷ (lit "cursor", lit "cursor")
    ∷ (lit "github-copilot", lit "copilot")
    ∷ (lit "copilot-cli", lit "copilot")
    ∷ (lit "copilot", lit "copilot")
    ∷ (lit "github_copilot_vscode_agent", lit "copilot")
    ∷ (lit "kilocode", lit "kilocode")
    ∷ (lit "roo-code", lit "roo_code")
    ∷ (lit "roo_code", lit "roo_code")
    ∷ (lit "codex", lit "codex")
    ∷ (lit "windsurf", lit "windsurf")
    ∷ (lit "aider", lit "aider")
    ∷ (lit "cline", lit "cline")
    ∷ (lit "opencode", lit "opencode")
    ∷ (lit "opencode-jfrog-plugin", lit "opencode")
    ∷ (lit "amp", lit "amp")
    ∷ (lit "augment", lit "augment")
    ∷ (lit "qwen-code", lit "qwen")
    ∷ (lit "qwen", lit "qwen")
    ∷ (lit "antigravity", lit "antigravity")
    ∷ (lit "crush", lit "crush")
    ∷ (lit "iflow", lit "iflow")
    ∷ (lit "trae", lit "trae")
    ∷ (lit "amazon-q-cli", lit "amazon_q")
    ∷ (lit "amazon-q", lit "amazon_q")
    ∷ (lit "amazon_q", lit "amazon_q")
    ∷ (lit "junie", lit "junie")
    ∷ []

module _ (host : Host) where
  abbrev pub has_env : Text → Bool
  has_env name = is_set (host.env name)

  -- `any(...names)` of `detectHarness`
  abbrev pub has_any : List Text → Bool
  has_any names = any has_env names

  -- `sanitizeToken`
  unfoldable pub sanitize_token : Text → Text
  unfolding trim keep_only slice_to is_token_char
  sanitize_token s = slice_to 64 (keep_only is_token_char (host.lower (trim s)))

  -- `askpassValues`
  unfoldable pub askpass_value : Text → List Text
  unfolding replace_all
  askpass_value name =
      let path = replace_all b'\\' b'/' (host.lower (host.env name)) in
      if is_set path then path ∷ [] else []

  unfoldable pub askpass_values : List Text
  unfolding askpass_value
  askpass_values =
      askpass_value (lit "VSCODE_GIT_ASKPASS_MAIN") ++ askpass_value (lit "VSCODE_GIT_ASKPASS_NODE")

  -- `askpassPathContains`
  unfoldable pub askpass_path_contains : Text → Bool
  unfolding askpass_values includes
  askpass_path_contains app =
      any
        (λ p.
          includes p (lit "/" ++ (app ++ lit ".app"))
          || includes p (lit "/" ++ (app ++ lit "/resources"))
          || includes p (lit "/." ++ (app ++ lit "-server")))
        askpass_values

  -- `askpassLooksLikeStockVscode`
  unfoldable pub askpass_looks_like_stock_vscode : Bool
  unfolding askpass_values includes
  askpass_looks_like_stock_vscode =
      any
        (λ p.
          includes p (lit "/visual studio code")
          || includes p (lit "/microsoft vs code")
          || includes p (lit "/.vscode-server")
          || includes p (lit "/code/resources"))
        askpass_values

  -- `canonicalTerminalName`
  unfoldable pub terminal_of : Text → Text
  unfolding ends_with lookup terminals
  terminal_of name =
      if text_eq name (lit "iterm.app")
      then lit "iterm"
      else lookup (if ends_with name (lit ".app") then slice_to (length name - 4) name else name)
          terminals []

  unfoldable pub canonical_terminal_name : Text → Text
  unfolding sanitize_token terminal_of
  canonical_terminal_name raw = terminal_of (sanitize_token raw)

  -- `fallbackTerminalName`
  unfoldable pub fallback_terminal_name : Text
  fallback_terminal_name =
      if has_env (lit "TMUX")
      then lit "tmux"
      else if has_env (lit "WT_SESSION")
      then lit "windows-terminal"
      else if text_eq (host.env (lit "TERM")) (lit "xterm-ghostty")
      then lit "ghostty"
      else if has_env (lit "KITTY_WINDOW_ID")
      then lit "kitty"
      else if has_env (lit "ALACRITTY_LOG")
      then lit "alacritty"
      else []

  -- `hostTerminalName`
  unfoldable pub host_terminal_name : Text
  unfolding canonical_terminal_name fallback_terminal_name
  host_terminal_name =
      or_else (canonical_terminal_name (host.env (lit "TERM_PROGRAM"))) fallback_terminal_name

  -- `foldAgentName`
  unfoldable pub fold_agent_name : Text → Text
  unfolding trim before
  fold_agent_name raw = before b'@' (host.lower (trim raw))

  -- `isCopilotVscodePluginAlias`
  unfoldable pub is_copilot_vscode_plugin_alias : Bool
  unfolding fold_agent_name
  is_copilot_vscode_plugin_alias =
      text_eq (fold_agent_name (host.env (lit "AI_AGENT"))) (lit "github_copilot_vscode_agent")
      || text_eq (fold_agent_name (host.env (lit "AGENT"))) (lit "github_copilot_vscode_agent")

  -- `detectHostClient`
  unfoldable pub detect_host_client : Text
  unfolding askpass_path_contains askpass_looks_like_stock_vscode host_terminal_name
      is_copilot_vscode_plugin_alias
  detect_host_client =
      if has_env (lit "ZED_TERM")
      then lit "zed"
      else if text_eq (host.env (lit "TERMINAL_EMULATOR")) (lit "JetBrains-JediTerm")
      then lit "jetbrains"
      else if has_env (lit "CURSOR_TRACE_ID") || askpass_path_contains (lit "cursor")
      then lit "cursor"
      else if has_env (lit "WINDSURF_CASCADE_TERMINAL") || askpass_path_contains (lit "windsurf")
      then lit "windsurf"
      else if has_env (lit "ANTIGRAVITY_AGENT") || askpass_path_contains (lit "antigravity")
      then lit "antigravity"
      else if has_env (lit "TRAE_AI_SHELL_ID") || askpass_path_contains (lit "trae")
      then lit "trae"
      else if askpass_path_contains (lit "vscodium") || askpass_path_contains (lit "codium")
      then lit "codium"
      else if has_env (lit "VisualStudioVersion")
      then lit "visualstudio"
      else if askpass_looks_like_stock_vscode
      then lit "vscode"
      else if text_eq (host.env (lit "COPILOT_AGENT")) (lit "1") || is_copilot_vscode_plugin_alias
      then or_else host_terminal_name (lit "vscode")
      else if has_env (lit "CLAUDE_CODE_CHILD_SESSION") || has_env (lit "CLAUDE_CODE_IS_COWORK")
      then lit "claude"
      else host_terminal_name

  -- `canonicalAgentName`
  unfoldable pub canonical_agent_name : Text → Text
  unfolding fold_agent_name lookup agent_aliases
  canonical_agent_name input =
      let raw = fold_agent_name input in
      if not (is_set raw) then [] else lookup raw agent_aliases (lit "unknown")

  -- the test for an install below ~/.junie
  unfoldable pub is_junie_path : Text → Bool
  unfolding includes replace_all
  is_junie_path path = includes (replace_all b'\\' b'/' path) (lit "/.junie/")

  -- `detectHarness`, from the tenth test on
  unfoldable pub detect_later_harness : Text
  unfolding canonical_agent_name is_junie_path
  detect_later_harness =
      if has_any (lit "CLINE_ACTIVE" ∷ [])
      then lit "cline"
      else if has_any (lit "OPENCODE" ∷ lit "OPENCODE_SESSION_ID" ∷ [])
      then lit "opencode"
      else if has_any (lit "AMP_CURRENT_THREAD_ID" ∷ [])
      then lit "amp"
      else if has_any (lit "AUGMENT_AGENT" ∷ [])
      then lit "augment"
      else if has_any (lit "QWEN_CODE" ∷ [])
      then lit "qwen"
      else if has_any (lit "ANTIGRAVITY_AGENT" ∷ [])
      then lit "antigravity"
      else if has_any (lit "CRUSH" ∷ [])
      then lit "crush"
      else if has_any (lit "IFLOW_CLI" ∷ [])
      then lit "iflow"
      else if has_any (lit "TRAE_AI_SHELL_ID" ∷ [])
      then lit "trae"
      else if has_any (lit "JUNIE_DATA" ∷ lit "JUNIE_SHIM_PATH" ∷ [])
          || any is_junie_path (host.script_path ∷ host.argv_path ∷ [])
      then lit "junie"
      else if has_any (lit "AI_AGENT" ∷ lit "AGENT" ∷ [])
      then canonical_agent_name (or_else (host.env (lit "AI_AGENT")) (host.env (lit "AGENT")))
      else []

  -- `detectHarness`
  unfoldable pub detect_harness : Text
  unfolding detect_later_harness
  detect_harness =
      if has_any
        (lit "CLAUDE_CODE_CHILD_SESSION" ∷ lit "CLAUDECODE" ∷ lit "CLAUDE_CODE_ENTRYPOINT" ∷ [])
      then lit "claude"
      else if has_any (lit "GEMINI_CLI" ∷ [])
      then lit "gemini"
      else if has_any (lit "GOOSE_TERMINAL" ∷ [])
      then lit "goose"
      else if has_any (lit "CURSOR_AGENT" ∷ lit "CURSOR_CLI" ∷ lit "CURSOR_TRACE_ID" ∷ [])
          || text_eq (host.env (lit "CURSOR_EXTENSION_HOST_ROLE")) (lit "agent-exec")
      then lit "cursor"
      else if has_any
          (lit "COPILOT_CLI" ∷ lit "COPILOT_AGENT_SESSION_ID" ∷ lit "COPILOT_AGENT" ∷ [])
      then lit "copilot"
      else if has_any (lit "KILOCODE_FEATURE" ∷ lit "KILO_PID" ∷ [])
      then lit "kilocode"
      else if has_any (lit "ROO_ACTIVE" ∷ lit "ROO_CLI_RUNTIME" ∷ [])
      then lit "roo_code"
      else if has_any (lit "CODEX_CI" ∷ lit "CODEX_THREAD_ID" ∷ lit "CODEX_SANDBOX" ∷ [])
      then lit "codex"
      else if has_any (lit "WINDSURF_CASCADE_TERMINAL" ∷ [])
      then lit "windsurf"
      else detect_later_harness
