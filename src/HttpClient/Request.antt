-- ===== src/HttpClient/Request.antt =====
-- httpkit/http_client.go, one request: `doRequest`, with and without the circuit breaker.
use servekit.Prelude.{ℕ, Bool, true, false, Option, none, some, Bytes}

pub record Response : Type 0 where
  pub status : ℕ
  -- res.Header.Get("Retry-After")
  pub retry_after : Bytes

-- A *url.Error, by what the code asks of it: its text matches `redirectsErrRegExp`, its text matches
-- `schemeErrRegExp`, it wraps an x509.UnknownAuthorityError.
pub record UrlError : Type 0 where
  pub too_many_redirects : Bool
  pub unsupported_scheme : Bool
  pub unknown_authority : Bool

pub data Cause : Type 0 where
  -- a circuit.Error
  circuit_error : ℕ → Cause
  url_error : UrlError → Cause
  other_error : ℕ → Cause

-- The error of `doRequest`; `non_retryable` is the type nonRetryableError.
pub data DoError : Type 0 where
  plain : Cause → DoError
  non_retryable : Cause → DoError

-- What http.Client.Do returns.
pub record DoResult : Type 0 where
  pub response : Option Response
  pub error : Option Cause

-- What the breaker's `Run` does: it runs its function, or it refuses with an error.
pub data BreakerRun : Type 0 where
  runs : BreakerRun
  refuses : Cause → BreakerRun

-- What `doRequest` returns; `crashed` is a nil dereference inside the breaker's function.
pub data Reply : Type 0 where
  reply : Option Response → Option DoError → Reply
  crashed : Reply

unfoldable pub mark_non_retryable : Option Response → Cause → Reply
mark_non_retryable none c = reply none (some (plain c))
mark_non_retryable (some r) c = reply none (some (non_retryable c))

-- The path with no breaker.
unfoldable pub do_plain : Option Response → Option Cause → Reply
unfolding mark_non_retryable
do_plain res none = reply res none
do_plain res (some c) = mark_non_retryable res c

-- The path through the breaker, when it ran its function: the synthetic error for a 5xx status goes
-- to the breaker alone.
unfoldable pub do_guarded : Option Response → Option Cause → Reply
unfolding mark_non_retryable
do_guarded none none = crashed
do_guarded (some r) none = reply (some r) none
do_guarded res (some c) = mark_non_retryable res c

unfoldable pub do_breaker : BreakerRun → DoResult → Reply
unfolding do_guarded
do_breaker runs d = do_guarded d.response d.error
do_breaker (refuses c) d = reply none (some (plain c))

-- `has_breaker` is `t.circuitBreaker != nil`.
unfoldable pub do_request : Bool → BreakerRun → DoResult → Reply
unfolding do_plain do_breaker
do_request false b d = do_plain d.response d.error
do_request true b d = do_breaker b d
