-- ===== src/Retry/Examples.antt =====
-- Concrete runs of retry/retry.go.
use servekit.Prelude.{
  ℕ, zero, suc, ◌<◌, ◌≡◌, ◌↔◌, refl, Option, none, some, List, [], ◌∷◌, arith, ◌⊎◌,
}
use servekit.Errors.{Error, opaque, retryable, is_retryable}
use servekit.Retry.Strategies.{
  static_backoff, new_exponential_backoff, new_linear_backoff, new_constant_backoff,
  exponential_next, linear_next, constant_next,
}
use servekit.Retry.{
  Options, Env, next, round, with_max_attempts, with_backoff, apply_options, do_retry,
}
use servekit.Retry.Rounds.{Exhausted, Decided, options_of, do_retry_cases}
use servekit.Retry.Bounds.{AtMost, IsBoundedBy, DrawsBelow, backoffs_bounded}
use servekit.Retry.Panics.{panics_iff}

-- A function that fails twice and then succeeds.
abbrev third_time : ℕ → Option Error
third_time zero = some (retryable (opaque 1))
third_time (suc zero) = some (retryable (opaque 2))
third_time (suc (suc i)) = none

abbrev third_time_env : Env
third_time_env = record { done_before = λ i. none; call = third_time; done_while = λ i. none }

abbrev slow_options : List (Options → Options)
slow_options = with_max_attempts 5 ∷ with_backoff (some (static_backoff 7)) ∷ []

do_retry_cases_example :
    Exhausted
      (options_of slow_options).backoff
      third_time_env
      0
      (options_of slow_options).max_retries
      (do_retry third_time_env slow_options)
    ⊎ Decided
        (options_of slow_options).backoff
        third_time_env
        0
        (options_of slow_options).max_retries
        (do_retry third_time_env slow_options)
do_retry_cases_example = do_retry_cases third_time_env slow_options

-- Three calls, and a wait of 7 after each of the first two.
third_time_calls : (do_retry third_time_env slow_options).calls ≡ 3
unfolding do_retry apply_options with_max_attempts with_backoff static_backoff round is_retryable
third_time_calls = refl

static_backoff-IsBoundedBy : IsBoundedBy 7 (options_of slow_options).backoff
unfolding apply_options with_max_attempts with_backoff static_backoff next
static_backoff-IsBoundedBy i d e = ground arith

abbrev draw_zero : ℕ → ℕ → ℕ
draw_zero retry n = 0

draw_zero-DrawsBelow : DrawsBelow draw_zero
draw_zero-DrawsBelow retry n h = h

backoffs_bounded_example :
    AtMost 5003000000
      (exponential_next draw_zero (new_exponential_backoff 2 100000000 5000000000 3000000) 4)
    × AtMost 5003000000 (linear_next draw_zero (new_linear_backoff 100000000 5000000000 3000000) 4)
    × AtMost 5003000000
        (constant_next draw_zero (new_constant_backoff 100000000 5000000000 3000000) 4)
backoffs_bounded_example =
    backoffs_bounded draw_zero 2 100000000 5000000000 3000000 4 draw_zero-DrawsBelow (omega arith)

panics_iff_example :
    ((exponential_next draw_zero (new_exponential_backoff 2 1000000 5000000 0) 1 ≡ none)
      ↔ ((0 < 1) × (1 < 5) × (0 < 1000000)))
    × ((linear_next draw_zero (new_linear_backoff 1000000 5000000 0) 1 ≡ none)
        ↔ ((0 < 1) × (0 < 1000000)))
    × ((constant_next draw_zero (new_constant_backoff 1000000 5000000 0) 1 ≡ none)
        ↔ ((0 < 1) × (0 < 1000000)))
panics_iff_example = panics_iff draw_zero 2 1000000 5000000 0 1
