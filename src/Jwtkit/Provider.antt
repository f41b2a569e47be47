-- ===== src/Jwtkit/Provider.antt =====
-- authkit/jwtkit/jwks.go: the provider, its refresh, and its checks of tokens. Times are nanoseconds
-- of a clock that does not go back. What `fetchJWKS` does to the key store, and `convertKey`, are
-- parameters here; Keys has both.
use servekit.Prelude.{
  ℕ, ◌-◌, Bool, false, Option, none, some, List, [], if◌then◌else◌, is_empty, Bytes, ℤ, pos, ltb_ℤ,
}
use servekit.Jwtkit.Token.{
  JwtLibrary, TokenError, bad_header, no_key_id, not_refreshed, unknown_key, no_verifier,
  sign_not_supported, Result, ok, err, Token, parsed, no_token, parsed_custom,
}
use servekit.Jwtkit.Keys.{Key, lookup, add_keys, Fetched}

module _ (lib : JwtLibrary) where
  pub record Provider : Type 0 where
    pub store : Option (List Key)
    pub cache : List (Bytes × lib.PublicKey)
    pub refresh_interval : ℤ
    -- the zero time is `none`
    pub last_fetch : Option ℕ

  pub data Refreshed : Type 0 where
    -- without fetching, and with it
    kept : Provider → Refreshed
    renewed : Provider → Refreshed
    refresh_failed : Provider → Refreshed
    -- a nil key store is dereferenced
    crashed : Refreshed

  -- time.Since(p.lastFetch) < p.refreshInt; no duration exceeds that since the zero time.
  unfoldable pub is_fresh : Option ℕ → ℤ → ℕ → Bool
  is_fresh none interval now = false
  is_fresh (some last) interval now = ltb_ℤ (pos (now - last)) interval

  module _ (convert : Bytes → Bytes → Option lib.PublicKey) where
    unfoldable pub renew : Provider → ℕ → Option (List Key) → Refreshed
    unfolding add_keys
    renew p now none = crashed
    renew p now (some keys) =
        renewed
          (record p { store = some keys; cache = add_keys convert keys []; last_fetch = some now })

    unfoldable pub after_fetch : Provider → ℕ → Fetched → Refreshed
    unfolding renew
    after_fetch p now f =
        if f.failed then refresh_failed (record p { store = f.store }) else renew p now f.store

    -- `refresh` at a time
    unfoldable pub refresh : (Option (List Key) → Fetched) → Provider → ℕ → Refreshed
    unfolding is_fresh after_fetch
    refresh fetch p now =
        if is_fresh p.last_fetch p.refresh_interval now
        then kept p
        else after_fetch p now (fetch p.store)

    unfoldable pub empty_provider : ℤ → Provider
    empty_provider interval = record {
      store = none;
      cache = [];
      refresh_interval = interval;
      last_fetch = none;
    }

    -- NewJWKSProvider
    unfoldable pub new_jwks_provider : (Option (List Key) → Fetched) → ℤ → ℕ → Refreshed
    unfolding refresh empty_provider
    new_jwks_provider fetch interval now = refresh fetch (empty_provider interval) now

    -- A provider after a call, with what the call returned; none is a panic.
    pub data Called (A : Type 0) : Type 0 where
      called : Provider → A → Called A
      panicked : Called A

    unfoldable pub verifier_of : Option lib.PublicKey → Bytes → Result lib.Verifier
    verifier_of none kid = err (unknown_key kid)
    verifier_of (some pk) kid = elim (lib.new_verifier pk) [
      | none ↦ err no_verifier
      | some v ↦ ok v
    ]

    unfoldable pub cached_verifier : Provider → Bytes → Called (Result lib.Verifier)
    unfolding lookup verifier_of
    cached_verifier p kid = called p (verifier_of (lookup kid p.cache) kid)

    unfoldable pub verifier_after : Refreshed → Bytes → Called (Result lib.Verifier)
    unfolding cached_verifier
    verifier_after (kept p) kid = cached_verifier p kid
    verifier_after (renewed p) kid = cached_verifier p kid
    verifier_after (refresh_failed p) kid = called p (err not_refreshed)
    verifier_after crashed kid = panicked

    -- `getVerifier`
    unfoldable pub get_verifier :
        (Option (List Key) → Fetched) → Provider → ℕ → Bytes → Called (Result lib.Verifier)
    unfolding refresh verifier_after
    get_verifier fetch p now kid = verifier_after (refresh fetch p now) kid

    unfoldable pub parse_with : Result lib.Verifier → Bytes → ℕ → Result (Token lib)
    unfolding parsed
    parse_with (err e) token now = err e
    parse_with (ok v) token now = parsed lib (lib.parse token v) now

    unfoldable pub parse_after :
        Called (Result lib.Verifier) → Bytes → ℕ → Called (Result (Token lib))
    unfolding parse_with
    parse_after (called p v) token now = called p (parse_with v token now)
    parse_after panicked token now = panicked

    unfoldable pub parse_header :
        (Option (List Key) → Fetched)
        → Provider
        → ℕ
        → Bytes
        → Option Bytes
        → Called (Result (Token lib))
    unfolding parse_after get_verifier
    parse_header fetch p now token none = called p (err bad_header)
    parse_header fetch p now token (some kid) =
        if is_empty kid
        then called p (err no_key_id)
        else parse_after (get_verifier fetch p now kid) token now

    -- JWKSProvider.ParseVerify
    unfoldable pub parse_verify_jwks :
        (Option (List Key) → Fetched) → Provider → ℕ → Bytes → Called (Result (Token lib))
    unfolding parse_header
    parse_verify_jwks fetch p now token = parse_header fetch p now token (lib.header_key_id token)

    unfoldable pub error_after : Called (Result (Token lib)) → Called (Option TokenError)
    unfolding no_token
    error_after (called p r) = called p (no_token lib r)
    error_after panicked = panicked

    -- JWKSProvider.Verify
    unfoldable pub verify_jwks :
        (Option (List Key) → Fetched) → Provider → ℕ → Bytes → Called (Option TokenError)
    unfolding error_after parse_verify_jwks
    verify_jwks fetch p now token = error_after (parse_verify_jwks fetch p now token)

    unfoldable pub claims_with :
        (lib.Raw → Bool) → Result lib.Verifier → Bytes → ℕ → Option TokenError
    unfolding parsed_custom
    claims_with custom (err e) token now = some e
    claims_with custom (ok v) token now = parsed_custom lib custom (lib.parse token v) now

    unfoldable pub claims_after :
        (lib.Raw → Bool) → Called (Result lib.Verifier) → Bytes → ℕ → Called (Option TokenError)
    unfolding claims_with
    claims_after custom (called p v) token now = called p (claims_with custom v token now)
    claims_after custom panicked token now = panicked

    unfoldable pub claims_header :
        (Option (List Key) → Fetched)
        → (lib.Raw → Bool)
        → Provider
        → ℕ
        → Bytes
        → Option Bytes
        → Called (Option TokenError)
    unfolding claims_after get_verifier
    claims_header fetch custom p now token none = called p (some bad_header)
    claims_header fetch custom p now token (some kid) =
        if is_empty kid
        then called p (some no_key_id)
        else claims_after custom (get_verifier fetch p now kid) token now

    -- JWKSProvider.ParseVerifyClaims
    unfoldable pub parse_verify_claims_jwks :
        (Option (List Key) → Fetched)
        → (lib.Raw → Bool)
        → Provider
        → ℕ
        → Bytes
        → Called (Option TokenError)
    unfolding claims_header
    parse_verify_claims_jwks fetch custom p now token =
        claims_header fetch custom p now token (lib.header_key_id token)

  -- JWKSProvider.Sign
  unfoldable pub sign_jwks : Result Bytes
  sign_jwks = err sign_not_supported
