-- ===== src/Errors.antt =====
-- Go's `error` values and the packages `errors` and `errkit` (errkit/errors.go, error.go): the
-- sentinels, `fmt.Errorf` with `%w`, `errors.Join`, `errors.Is`. A nil error is `none`.
use servekit.Prelude.{ℕ, ◌≡◌, refl, Bool, true, false, ◌||◌}

-- The sentinel errors that code of the repository tests for or returns.
pub data Sentinel : Type 0 where
  not_found : Sentinel
  already_exists : Sentinel
  invalid_argument : Sentinel
  unauthenticated : Sentinel
  unauthorized : Sentinel
  unavailable : Sentinel
  conn_failed : Sentinel
  password_incorrect : Sentinel
  token_invalid : Sentinel
  token_expired : Sentinel
  token_not_before : Sentinel
  token_issued_at : Sentinel
  invalid_id : Sentinel
  validation : Sentinel
  retry_limit_reached : Sentinel
  context_canceled : Sentinel
  deadline_exceeded : Sentinel

pub Sentinel-discrete : Discrete Sentinel
Sentinel-discrete = hlevel

-- An error tree, as `Unwrap` shows it.
pub data Error : Type 0 where
  sentinel : Sentinel → Error
  -- a leaf that is none of the sentinels
  opaque : ℕ → Error
  -- fmt.Errorf("...: %w", err)
  wrap : Error → Error
  -- errors.Join(e, f), fmt.Errorf("%w: %w", e, f)
  join : Error → Error → Error
  -- &retry.RetryableError{err: e}
  retryable : Error → Error
  -- retry.RetryableError{}, which wraps nil
  retryable_nil : Error

-- s == t
unfoldable pub sentinel_eq : Sentinel → Sentinel → Bool
sentinel_eq s t = elim (Sentinel-discrete s t) [ yes _ ↦ true | no _ ↦ false ]

-- errors.Is(err, s)
unfoldable pub is : Error → Sentinel → Bool
is (sentinel t) s = sentinel_eq t s
is (opaque n) s = false
is (wrap e) s = is e s
is (join e f) s = is e s || is f s
is (retryable e) s = is e s
is retryable_nil s = false

-- errors.As(err, &target) for `RetryableError` or a pointer to one
unfoldable pub is_retryable : Error → Bool
is_retryable (sentinel t) = false
is_retryable (opaque n) = false
is_retryable (wrap e) = is_retryable e
is_retryable (join e f) = is_retryable e || is_retryable f
is_retryable (retryable e) = true
is_retryable retryable_nil = true

pub sentinel_eq_refl : (s : Sentinel) → sentinel_eq s s ≡ true
unfolding sentinel_eq
sentinel_eq_refl s =
    elim (Sentinel-discrete s s) as (λ d. (elim d [ yes _ ↦ true | no _ ↦ false ]) ≡ true) [
      | yes _ ↦ refl
      | no h ↦ absurd (h refl)
    ]

-- Where an error tree holds the sentinel.
pub data Holds (s : Sentinel) : Error → Type 0 where
  here : Holds s (sentinel s)
  in_wrap : {e : Error} → Holds s e → Holds s (wrap e)
  in_left : {e f : Error} → Holds s e → Holds s (join e f)
  in_right : {e f : Error} → Holds s f → Holds s (join e f)
  in_retryable : {e : Error} → Holds s e → Holds s (retryable e)
