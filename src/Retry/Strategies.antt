-- ===== src/Retry/Strategies.antt =====
-- retry/retry.go, the backoff strategies. A `time.Duration` is a number of nanoseconds, the bit
-- pattern of an int64. The intervals that the code keeps as float64 are whole milliseconds below
-- 2 ^ 53, where float64 is exact: an int64 of nanoseconds has at most 2 ^ 44 milliseconds, and a
-- product past 2 ^ 53 is above the maximum that `math.Min` takes. Negative durations, and the NaN
-- of `0 * math.Pow` past the range of float64, are left out.
use servekit.Prelude.{
  ℕ, ◌+◌, ◌*◌, ◌/◌, ◌%◌, ◌^◌, min, Option, none, some, leb, ◌==◌, if◌then◌else◌, int64_mod,
}

abbrev pub millisecond : ℕ
millisecond = 1000000

-- The interface `Backoff`: the wait before the next retry; `none` is a panic.
abbrev pub Backoff : Type 0
Backoff = ℕ → Option ℕ

-- time.Duration(ms) * time.Millisecond
unfoldable pub duration : ℕ → ℕ
duration ms = (ms * millisecond) % int64_mod

unfoldable pub static_backoff : ℕ → Backoff
static_backoff d retry = some d

pub record ExponentialBackoff : Type 0 where
  pub exponential_factor : ℕ
  pub min_backoff_interval : ℕ
  pub max_backoff_interval : ℕ
  pub max_jitter_interval : ℕ

unfoldable pub new_exponential_backoff : ℕ → ℕ → ℕ → ℕ → ExponentialBackoff
new_exponential_backoff f minv maxv jitter = record {
  exponential_factor = f;
  min_backoff_interval = minv / millisecond;
  max_backoff_interval = maxv / millisecond;
  max_jitter_interval = jitter / millisecond;
}

pub record ConstantBackoff : Type 0 where
  pub min_backoff_interval : ℕ
  pub max_backoff_interval : ℕ
  pub max_jitter_interval : ℕ

unfoldable pub new_constant_backoff : ℕ → ℕ → ℕ → ConstantBackoff
new_constant_backoff minv maxv jitter = record {
  min_backoff_interval = minv / millisecond;
  max_backoff_interval = maxv / millisecond;
  max_jitter_interval = jitter / millisecond;
}

pub record LinearBackoff : Type 0 where
  pub min_backoff_interval : ℕ
  pub max_backoff_interval : ℕ
  pub max_jitter_interval : ℕ

unfoldable pub new_linear_backoff : ℕ → ℕ → ℕ → LinearBackoff
new_linear_backoff minv maxv jitter = record {
  min_backoff_interval = minv / millisecond;
  max_backoff_interval = maxv / millisecond;
  max_jitter_interval = jitter / millisecond;
}

-- `int64_n retry n` is what rand.Int64N(n) draws in the call `Next(retry)`.
module _ (int64_n : ℕ → ℕ → ℕ) where
  -- rand.Int64N panics unless its argument is positive.
  unfoldable pub draw : ℕ → ℕ → Option ℕ
  draw retry n = if n == 0 then none else some (int64_n retry n)

  unfoldable pub add_jitter : ℕ → Option ℕ → Option ℕ
  unfolding duration
  add_jitter backoff none = none
  add_jitter backoff (some jitter) = some (duration (backoff + jitter))

  unfoldable pub exponential_next : ExponentialBackoff → Backoff
  unfolding draw add_jitter
  exponential_next b retry =
      if retry == 0
      then some 0
      else if leb b.max_backoff_interval b.min_backoff_interval
      then some (duration b.max_backoff_interval)
      else add_jitter
          (min (b.min_backoff_interval * b.exponential_factor ^ retry) b.max_backoff_interval)
          (draw retry b.max_jitter_interval)

  unfoldable pub constant_next : ConstantBackoff → Backoff
  unfolding draw add_jitter
  constant_next b retry =
      if retry == 0
      then some 0
      else add_jitter (min b.min_backoff_interval b.max_backoff_interval)
          (draw retry b.max_jitter_interval)

  unfoldable pub linear_next : LinearBackoff → Backoff
  unfolding draw add_jitter
  linear_next b retry =
      if retry == 0
      then some 0
      else add_jitter (min (b.min_backoff_interval * retry) b.max_backoff_interval)
          (draw retry b.max_jitter_interval)
