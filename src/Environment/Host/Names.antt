-- ===== src/Environment/Host/Names.antt =====
-- The names that the detection gives are tokens, and known ones.
use mathlib.Core.Path.{subst}
use dotfiles_ai.Base.{
  ◌-◌, ℕ, ◌≤◌, ◌≡◌, ◌⊎◌, ◌↔◌, refl, Bool, true, false, List, [], ◌∷◌, arith, if◌then◌else◌,
  Bool-cases, inl, inr,
}
use dotfiles_ai.Base.Lists.{length, all, All}
use dotfiles_ai.Js.Text.{Text, lit, text_eq, text_eq_iff, is_space}
use dotfiles_ai.Js.Strings.{
  keep_only, keep_only-All, slice_to-short, ends_with, slice_to, All-keep_only, All-slice_to,
  length-slice_to, is_set, or_else, trim, drop_while, drop_end, before,
}
use dotfiles_ai.Environment.Host.{
  Host, is_token_char, lookup, terminals, agent_aliases, sanitize_token, terminal_of,
  canonical_terminal_name, fallback_terminal_name, host_terminal_name, detect_host_client,
  fold_agent_name, canonical_agent_name, detect_later_harness, detect_harness,
}

-- Only characters that may stand in a token.
unfoldable pub is_token : Text → Bool
is_token s = all is_token_char s

-- The characters of a slug: "a" to "z", "0" to "9", ".", "_" and "-".
abbrev pub IsSlugChar : ℕ → Type 0
IsSlugChar c = ((97 ≤ c) × (c ≤ 122)) ⊎ ((48 ≤ c) × (c ≤ 57)) ⊎ (c ≡ 46) ⊎ (c ≡ 95) ⊎ (c ≡ 45)

abbrev pub IsSlug : Text → Type 0
IsSlug s = All IsSlugChar s × (length s ≤ 64)

IsSlugChar-is_token_char : (c : ℕ) → IsSlugChar c → is_token_char c ≡ true
unfolding is_token_char
IsSlugChar-is_token_char c h = ground arith

is_token_char-IsSlugChar : (c : ℕ) → is_token_char c ≡ true → IsSlugChar c
unfolding is_token_char
is_token_char-IsSlugChar c h = ground arith

pub slug-is_token : (s : Text) → All IsSlugChar s → is_token s ≡ true
unfolding is_token
slug-is_token [] h = refl
slug-is_token (c ∷ s) h = rw (IsSlugChar-is_token_char c h.0, slug-is_token s h.1) refl

is_token-All : (s : Text) → is_token s ≡ true → All (λ c. is_token_char c ≡ true) s
unfolding is_token
is_token-All [] h = tt
is_token-All (c ∷ s) h = (ground arith, is_token-All s (ground arith))

is_token-slug : (s : Text) → is_token s ≡ true → All IsSlugChar s
unfolding is_token
is_token-slug [] h = tt
is_token-slug (c ∷ s) h =
    (is_token_char-IsSlugChar c (ground arith), is_token-slug s (ground arith))

-- What every value of a table satisfies, and the default, every result satisfies.
lookup-all :
    (p : Text → Bool) (k : Text) (entries : List (Text × Text)) (default : Text)
    → all (λ e. p e.1) entries ≡ true
    → p default ≡ true
    → p (lookup k entries default) ≡ true
unfolding lookup
lookup-all p k [] default h d = d
lookup-all p k ((j, v) ∷ entries) default h d = ground (arith, lookup-all p k entries default)

pub is_token-nil : is_token [] ≡ true
unfolding is_token
is_token-nil = refl

aliases-tokens : all (λ e. is_token e.1) agent_aliases ≡ true
unfolding is_token is_token_char agent_aliases
aliases-tokens = refl

terminals-tokens : all (λ e. is_token e.1) terminals ≡ true
unfolding is_token is_token_char terminals
terminals-tokens = refl

-- The name of a harness is found under itself.
aliases-fixed :
    all (λ e. text_eq (lookup e.1 agent_aliases (lit "unknown")) e.1) agent_aliases ≡ true
unfolding lookup agent_aliases text_eq lit
aliases-fixed = refl

unknown-fixed :
    text_eq (lookup (lit "unknown") agent_aliases (lit "unknown")) (lit "unknown") ≡ true
unfolding lookup agent_aliases text_eq lit
unknown-fixed = refl

drop_while-is_token : (s : Text) → is_token s ≡ true → drop_while is_space s ≡ s
unfolding drop_while is_token is_token_char is_space
drop_while-is_token [] h = refl
drop_while-is_token (c ∷ s) h = ground arith

drop_end-is_token : (s : Text) → is_token s ≡ true → drop_end is_space s ≡ s
unfolding drop_end is_token is_token_char is_space
drop_end-is_token [] h = refl
drop_end-is_token (c ∷ []) h = ground arith
drop_end-is_token (c ∷ d ∷ s) h =
    let rest = drop_end-is_token (d ∷ s) (ground arith) in rw (rest) refl

before-is_token : (s : Text) → is_token s ≡ true → before b'@' s ≡ s
unfolding before is_token is_token_char
before-is_token [] h = refl
before-is_token (c ∷ s) h = ground (arith, before-is_token s)

not_set : (r : Text) → is_set r ≡ false → [] ≡ r
unfolding is_set
not_set [] h = refl
not_set (c ∷ r) h = cc

module _ (host : Host) where
  pub canonical_agent_name-is_token :
      (input : Text) → is_token (canonical_agent_name host input) ≡ true
  unfolding canonical_agent_name is_token is_token_char lit
  canonical_agent_name-is_token input = ground (
    arith,
    lookup-all is_token (fold_agent_name host input) agent_aliases (lit "unknown") aliases-tokens
        refl,
  )

  detect_later_harness-is_token : is_token (detect_later_harness host) ≡ true
  unfolding detect_later_harness is_token is_token_char lit
  detect_later_harness-is_token = ground (
    arith,
    canonical_agent_name-is_token (or_else (host.env (lit "AI_AGENT")) (host.env (lit "AGENT"))),
  )

  pub detect_harness-is_token : is_token (detect_harness host) ≡ true
  unfolding detect_harness is_token is_token_char lit
  detect_harness-is_token = ground (arith, detect_later_harness-is_token)

  terminal_of-is_token : (name : Text) → is_token (terminal_of host name) ≡ true
  unfolding terminal_of is_token is_token_char lit
  terminal_of-is_token name = elim (Bool-cases (text_eq name (lit "iterm.app"))) [
    | inl app ↦ rw app refl
    | inr other ↦ rw other (
        lookup-all is_token
          (if ends_with name (lit ".app") then slice_to (length name - 4) name else name) terminals
          [] terminals-tokens refl)
  ]

  fallback-is_token : is_token (fallback_terminal_name host) ≡ true
  unfolding fallback_terminal_name is_token is_token_char lit
  fallback-is_token = ground arith

  or_else-is_token :
      (a b : Text) → is_token a ≡ true → is_token b ≡ true → is_token (or_else a b) ≡ true
  unfolding or_else
  or_else-is_token [] b h k = k
  or_else-is_token (c ∷ a) b h k = h

  host_terminal_name-is_token : is_token (host_terminal_name host) ≡ true
  unfolding host_terminal_name canonical_terminal_name
  host_terminal_name-is_token =
      or_else-is_token _ _
        (terminal_of-is_token (sanitize_token host (host.env (lit "TERM_PROGRAM"))))
        fallback-is_token

  pub detect_host_client-is_token : is_token (detect_host_client host) ≡ true
  unfolding detect_host_client is_token is_token_char lit
  detect_host_client-is_token = ground (
    arith,
    host_terminal_name-is_token,
    or_else-is_token (host_terminal_name host) (lit "vscode") host_terminal_name-is_token refl,
  )

  All-is_token : (s : Text) → All (λ c. is_token_char c ≡ true) s → is_token s ≡ true
  unfolding is_token
  All-is_token [] h = refl
  All-is_token (c ∷ s) h = ground (arith, h.0, All-is_token s h.1)

  pub sanitize_token-is_token :
      (s : Text) → (is_token (sanitize_token host s) ≡ true) × (length (sanitize_token host s) ≤ 64)
  unfolding sanitize_token
  sanitize_token-is_token s = (
    All-is_token _ (
        All-slice_to (λ c. is_token_char c ≡ true) 64 _
          (All-keep_only is_token_char (host.lower (trim s)))),
    length-slice_to 64 (keep_only is_token_char (host.lower (trim s))),
  )

  sanitize_token-short :
      (s : Text)
      → (low : (t : Text) → All IsSlugChar t → host.lower t ≡ t) → IsSlug s
      → sanitize_token host s ≡ s
  unfolding sanitize_token trim
  sanitize_token-short s low h =
      let token = slug-is_token s h.0 in
      rw
        (
          drop_while-is_token s token,
          drop_end-is_token s token,
          low s h.0,
          keep_only-All is_token_char s (is_token-All s token),
        )
        (slice_to-short 64 s h.1)

  sanitize_token-IsSlug : (s : Text) → IsSlug (sanitize_token host s)
  sanitize_token-IsSlug s = let h = sanitize_token-is_token s in (is_token-slug _ h.0, h.1)

  -- What `sanitizeToken` gives has at most 64 characters, each of them a lower case letter of ASCII,
  -- a digit, ".", "_" or "-"; and the texts that it leaves as they are are exactly the ones like
  -- that, if `toLowerCase` leaves texts of these characters as they are.
  pub sanitize_token_iff :
      (s : Text)
      → ((t : Text) → All IsSlugChar t → host.lower t ≡ t)
      → IsSlug (sanitize_token host s) × ((sanitize_token host s ≡ s) ↔ IsSlug s)
  sanitize_token_iff s low = (
    sanitize_token-IsSlug s,
    (λ e. subst IsSlug e (sanitize_token-IsSlug s), λ h. sanitize_token-short s low h),
  )

  -- A name that is a token already, as a canonical one is.
  fold_agent_name-is_token :
      (s : Text)
      → ((t : Text) → is_token t ≡ true → host.lower t ≡ t)
      → is_token s ≡ true
      → fold_agent_name host s ≡ s
  unfolding fold_agent_name trim
  fold_agent_name-is_token s low h =
      rw (drop_while-is_token s h, drop_end-is_token s h, low s h) (before-is_token s h)

  canonical-nil :
      ((t : Text) → is_token t ≡ true → host.lower t ≡ t) → canonical_agent_name host [] ≡ []
  unfolding canonical_agent_name is_set
  canonical-nil low = rw (fold_agent_name-is_token [] low (is_token-nil)) refl

  again :
      (r : Text)
      → ((t : Text) → is_token t ≡ true → host.lower t ≡ t)
      → is_token r ≡ true
      → text_eq (lookup r agent_aliases (lit "unknown")) r ≡ true
      → canonical_agent_name host r ≡ r
  unfolding canonical_agent_name
  again r low token fixed =
      rw (fold_agent_name-is_token r low token) (elim (Bool-cases (is_set r)) [
        | inl there ↦ rw there ((text_eq_iff _ r).0 fixed)
        | inr empty ↦ rw empty (not_set r empty)
      ])

  canonical-there :
      (s : Text)
      → is_set (fold_agent_name host s) ≡ true
      → canonical_agent_name host s ≡ lookup (fold_agent_name host s) agent_aliases (lit "unknown")
  unfolding canonical_agent_name
  canonical-there s h = rw h refl

  canonical-empty :
      (s : Text) → is_set (fold_agent_name host s) ≡ false → canonical_agent_name host s ≡ []
  unfolding canonical_agent_name
  canonical-empty s h = rw h refl

  -- `canonicalAgentName` changes no name that it has given, if `toLowerCase` leaves texts in lower
  -- case as they are: the second call in `buildUserAgent` is for names from elsewhere.
  pub canonical_agent_name-canonical_agent_name :
      (s : Text)
      → ((t : Text) → is_token t ≡ true → host.lower t ≡ t)
      → canonical_agent_name host (canonical_agent_name host s) ≡ canonical_agent_name host s
  canonical_agent_name-canonical_agent_name s low =
      elim (Bool-cases (is_set (fold_agent_name host s))) [
        | inl there ↦ again (canonical_agent_name host s) low (canonical_agent_name-is_token s) (
            rw (canonical-there s there) (
              lookup-all (λ r. text_eq (lookup r agent_aliases (lit "unknown")) r)
                (fold_agent_name host s) agent_aliases (lit "unknown") aliases-fixed unknown-fixed))
        | inr empty ↦ rw (canonical-empty s empty) (canonical-nil low)
      ]
