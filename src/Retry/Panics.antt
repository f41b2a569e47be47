-- ===== src/Retry/Panics.antt =====
-- When `Next` of a strategy of retry/retry.go panics: rand.Int64N is called with the jitter in whole
-- milliseconds, and a jitter below one millisecond becomes 0 there.
use servekit.Prelude.{ℕ, ◌/◌, ◌<◌, ◌≡◌, ◌↔◌, none, arith}
use servekit.Retry.Strategies.{
  millisecond, new_exponential_backoff, new_linear_backoff, new_constant_backoff, exponential_next,
  constant_next, linear_next,
}

-- The growing and the constant backoff panic exactly from the second round on, if the jitter is
-- shorter than a millisecond; the exponential one only if its minimum is below its maximum, both in
-- whole milliseconds.
pub panics_iff :
    (int64_n : ℕ → ℕ → ℕ) (f minv maxv jitter retry : ℕ)
    → ((exponential_next int64_n (new_exponential_backoff f minv maxv jitter) retry ≡ none)
        ↔ ((0 < retry) × (minv / millisecond < maxv / millisecond) × (jitter < millisecond)))
      × ((linear_next int64_n (new_linear_backoff minv maxv jitter) retry ≡ none)
          ↔ ((0 < retry) × (jitter < millisecond)))
      × ((constant_next int64_n (new_constant_backoff minv maxv jitter) retry ≡ none)
          ↔ ((0 < retry) × (jitter < millisecond)))
unfolding new_exponential_backoff new_linear_backoff new_constant_backoff exponential_next
    linear_next constant_next
panics_iff int64_n f minv maxv jitter retry = (
  (λ h. ground arith, λ h. ground arith),
  (λ h. ground arith, λ h. ground arith),
  (λ h. ground arith, λ h. ground arith),
)
