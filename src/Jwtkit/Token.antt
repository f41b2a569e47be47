-- ===== src/Jwtkit/Token.antt =====
-- authkit/jwtkit/jwt.go: the checks of a token. The library that parses, builds and decodes tokens
-- is a parameter, with its types.
use servekit.Prelude.{ℕ, Bool, not, Option, none, some, if◌then◌else◌, Bytes}

-- What the code calls of github.com/cristalhq/jwt.
pub record JwtLibrary : Type 1 where
  pub Raw : Type 0
  pub Claims : Type 0
  pub Verifier : Type 0
  pub PublicKey : Type 0
  -- jwt.Parse, which verifies the signature
  pub parse : Bytes → Verifier → Option Raw
  -- jwt.ParseNoVerify and the key ID of its header
  pub header_key_id : Bytes → Option Bytes
  -- raw.DecodeClaims(&t)
  pub decode_claims : Raw → Option Claims
  -- IsValidExpiresAt, IsValidNotBefore and IsValidIssuedAt, at a time
  pub valid_expires_at : Claims → ℕ → Bool
  pub valid_not_before : Claims → ℕ → Bool
  pub valid_issued_at : Claims → ℕ → Bool
  -- jwt.NewVerifierRS(jwt.RS256, key)
  pub new_verifier : PublicKey → Option Verifier
  -- builder.Build(token) and its text
  pub build : Claims → Option Bytes

pub data TokenError : Type 0 where
  -- ErrTokenExpired, ErrTokenNotBefore, ErrTokenIssuedAt
  expired : TokenError
  not_before : TokenError
  issued_at : TokenError
  -- ErrTokenInvalid
  not_parsed : TokenError
  not_decoded : TokenError
  custom_not_decoded : TokenError
  bad_header : TokenError
  no_key_id : TokenError
  not_refreshed : TokenError
  unknown_key : Bytes → TokenError
  no_verifier : TokenError
  -- no sentinel
  not_signed : TokenError
  sign_not_supported : TokenError

pub data Result {ℓ} (A : Type ℓ) : Type ℓ where
  ok : A → Result A
  err : TokenError → Result A

module _ (lib : JwtLibrary) where
  -- A Token, without its metadata.
  pub record Token : Type 0 where
    pub claims : lib.Claims
    pub raw : lib.Raw

  -- Token.Validate
  unfoldable pub validate : lib.Claims → ℕ → Option TokenError
  validate c now =
      if not (lib.valid_expires_at c now)
      then some expired
      else if not (lib.valid_not_before c now)
      then some not_before
      else if not (lib.valid_issued_at c now)
      then some issued_at
      else none

  unfoldable pub token_unless : Option TokenError → Token → Result Token
  token_unless none t = ok t
  token_unless (some e) t = err e

  unfoldable pub decoded : Option lib.Claims → lib.Raw → ℕ → Result Token
  unfolding token_unless validate
  decoded none raw now = err not_decoded
  decoded (some c) raw now = token_unless (validate c now) (record { claims = c; raw = raw })

  unfoldable pub parsed : Option lib.Raw → ℕ → Result Token
  unfolding decoded
  parsed none now = err not_parsed
  parsed (some raw) now = decoded (lib.decode_claims raw) raw now

  -- TokenManagerJWT.ParseVerify
  unfoldable pub parse_verify : lib.Verifier → Bytes → ℕ → Result Token
  unfolding parsed
  parse_verify v token now = parsed (lib.parse token v) now

  unfoldable pub no_token : Result Token → Option TokenError
  no_token (ok t) = none
  no_token (err e) = some e

  -- TokenManagerJWT.Verify
  unfoldable pub verify : lib.Verifier → Bytes → ℕ → Option TokenError
  unfolding no_token parse_verify
  verify v token now = no_token (parse_verify v token now)

  -- The claims of the caller are decoded before the standard ones.
  unfoldable pub parsed_custom : (lib.Raw → Bool) → Option lib.Raw → ℕ → Option TokenError
  unfolding no_token decoded
  parsed_custom custom none now = some not_parsed
  parsed_custom custom (some raw) now =
      if custom raw
      then no_token (decoded (lib.decode_claims raw) raw now)
      else some custom_not_decoded

  -- TokenManagerJWT.ParseVerifyClaims, where `custom` tells whether the claims of the caller decode
  unfoldable pub parse_verify_claims :
      (lib.Raw → Bool) → lib.Verifier → Bytes → ℕ → Option TokenError
  unfolding parsed_custom
  parse_verify_claims custom v token now = parsed_custom custom (lib.parse token v) now

  unfoldable pub signed : Option Bytes → Result Bytes
  signed none = err not_signed
  signed (some s) = ok s

  -- TokenManagerJWT.Sign
  unfoldable pub sign : lib.Claims → Result Bytes
  unfolding signed
  sign c = signed (lib.build c)
