-- ===== src/Environment/UserAgent/Header.antt =====
-- The User-Agent has no character that could end a header line.
use dotfiles_ai.Base.{◌≡◌, refl, Bool, true, false, [], ◌∷◌, ◌++◌, arith, within, if◌then◌else◌}
use dotfiles_ai.Base.Lists.{all}
use dotfiles_ai.Js.Text.{Text, lit, text_eq}
use dotfiles_ai.Js.Number.{Number}
use dotfiles_ai.Js.Strings.{is_set, or_else}
use dotfiles_ai.Environment.Versions.{unknown}
use dotfiles_ai.Environment.Host.{
  Host, is_token_char, sanitize_token, canonical_agent_name, detect_harness, detect_host_client,
}
use dotfiles_ai.Environment.Host.Names.{
  is_token, is_token-nil, sanitize_token-is_token, canonical_agent_name-is_token,
  detect_harness-is_token, detect_host_client-is_token,
}
use dotfiles_ai.Environment.UserAgent.{
  part, named_harness, is_fallback, final_harness, meta_of, build_user_agent,
}

-- Printable ASCII.
unfoldable pub is_printable : Text → Bool
is_printable s = all (λ c. within 0x20 0x7e c) s

is_printable-append :
    (s t : Text) → is_printable s ≡ true → is_printable t ≡ true → is_printable (s ++ t) ≡ true
unfolding is_printable
is_printable-append [] t h k = k
is_printable-append (c ∷ s) t h k = ground (arith, is_printable-append s t)

is_token-is_printable : (s : Text) → is_token s ≡ true → is_printable s ≡ true
unfolding is_token is_printable is_token_char
is_token-is_printable [] h = refl
is_token-is_printable (c ∷ s) h = ground (arith, is_token-is_printable s)

part-is_printable :
    (b : Bool) (name value : Text)
    → is_printable name ≡ true
    → is_token value ≡ true
    → is_printable (part b name value) ≡ true
unfolding is_printable
part-is_printable true name value h k =
    is_printable-append name value h (is_token-is_printable value k)
part-is_printable false name value h k = refl

unknown-is_token : is_token unknown ≡ true
unfolding is_token is_token_char lit
unknown-is_token = refl

or_else-is_token :
    (a b : Text) → is_token a ≡ true → is_token b ≡ true → is_token (or_else a b) ≡ true
unfolding or_else
or_else-is_token [] b h k = k
or_else-is_token (c ∷ a) b h k = h

is_printable-if :
    (b : Bool) (s t : Text)
    → is_printable s ≡ true
    → is_printable t ≡ true
    → is_printable (if b then s else t) ≡ true
is_printable-if true s t h k = h
is_printable-if false s t h k = k

is_token-if :
    (b : Bool) (s t : Text)
    → is_token s ≡ true
    → is_token t ≡ true
    → is_token (if b then s else t) ≡ true
is_token-if true s t h k = h
is_token-if false s t h k = k

module _ (host : Host) where
  named_harness-is_token : is_token (named_harness host) ≡ true
  unfolding named_harness
  named_harness-is_token =
      is_token-if (is_set (detect_harness host))
        (or_else (canonical_agent_name host (detect_harness host)) (detect_harness host)) []
        (or_else-is_token _ _ (canonical_agent_name-is_token host (detect_harness host))
          (detect_harness-is_token host))
        is_token-nil

  final_harness-is_token : (slug : Text) → is_token (final_harness host slug) ≡ true
  unfolding final_harness
  final_harness-is_token slug =
      is_token-if (is_fallback host slug) unknown (named_harness host) unknown-is_token
        named_harness-is_token

literals :
    (is_printable (lit "trigger=skill") ≡ true)
    × (is_printable (lit "; tool=") ≡ true)
    × (is_printable (lit "; client=") ≡ true)
    × (is_printable (lit "; model=") ≡ true)
    × (is_printable (lit "jfrog-skills/") ≡ true)
    × (is_printable (lit " (") ≡ true)
    × (is_printable (lit ") jfrog-cli-go/") ≡ true)
unfolding is_printable lit
literals = (refl, refl, refl, refl, refl, refl, refl)

module _ (number_of : Text → Number) (host : Host) where
  meta_of-is_printable :
      (slug cli : Text)
      → is_token slug ≡ true
      → is_printable (meta_of number_of host slug cli) ≡ true
  unfolding meta_of
  meta_of-is_printable slug cli h = is_printable-append (lit "trigger=skill") _ literals.0 (
      is_printable-append _ _
        (part-is_printable (is_set (final_harness host slug)) (lit "; tool=") _ literals.1
          (final_harness-is_token host slug))
        (is_printable-append _ _
          (part-is_printable _ (lit "; client=") (detect_host_client host) literals.2
            (detect_host_client-is_token host))
          (part-is_printable (is_set slug) (lit "; model=") slug literals.3 h)))

  -- The User-Agent is printable ASCII, so that it is one header line, whatever the environment and
  -- the slug are, if the versions of the CLI and of the skill are printable ASCII.
  pub is_printable-build_user_agent :
      (slug_arg live cached skill : Text)
      → is_printable live ≡ true
      → is_printable cached ≡ true
      → is_printable skill ≡ true
      → is_printable (build_user_agent number_of host slug_arg live cached skill) ≡ true
  unfolding build_user_agent
  is_printable-build_user_agent slug_arg live cached skill h k l =
      let cli = if text_eq live unknown then cached else live in
      let safe : is_printable cli ≡ true = is_printable-if (text_eq live unknown) cached live k h in
      is_printable-append (lit "jfrog-skills/") _ literals.4 (
        is_printable-append skill _ l (
          is_printable-append (lit " (") _ literals.5 (
            is_printable-append (meta_of number_of host (sanitize_token host slug_arg) cli) _
              (meta_of-is_printable _ cli (sanitize_token-is_token host slug_arg).0)
              (is_printable-append (lit ") jfrog-cli-go/") cli literals.6 safe))))
