-- ===== src/Retry/Bounds.antt =====
-- How long the strategies of retry/retry.go, and `Do` with one of them, wait.
use servekit.Prelude.{
  ℕ, zero, suc, ◌+◌, ◌*◌, ◌/◌, ◌≤◌, ◌<◌, ◌≡◌, refl, Option, none, some, List, All, arith,
  int64_half,
}
use servekit.Retry.Strategies.{
  Backoff, millisecond, duration, ExponentialBackoff, new_exponential_backoff, LinearBackoff,
  new_linear_backoff, ConstantBackoff, new_constant_backoff, draw, add_jitter, exponential_next,
  constant_next, linear_next,
}
use servekit.Retry.{Options, Env, Round, stop, again, round, next, waited, do_from, do_retry}
use servekit.Retry.Rounds.{
  RoundView, goes, options_of, round-RoundView, do_from-again, do_from-stop,
}

-- No wait of the backoff is longer than this.
abbrev pub IsBoundedBy : ℕ → Option Backoff → Type 0
IsBoundedBy most b = (i d : ℕ) → next b i ≡ some d → d ≤ most

duration_le :
    (ms most : ℕ) → ms ≤ most → most * millisecond < int64_half → duration ms ≤ most * millisecond
unfolding duration
duration_le ms most h fits = omega arith

-- The documented contract of rand.Int64N.
abbrev pub DrawsBelow : (ℕ → ℕ → ℕ) → Type 0
DrawsBelow int64_n = (retry n : ℕ) → 0 < n → int64_n retry n < n

module _ (int64_n : ℕ → ℕ → ℕ) (below : DrawsBelow int64_n) where
  add_jitter_le :
      (retry base cap jitter most d : ℕ)
      → base ≤ cap
      → cap + jitter ≤ most
      → most * millisecond < int64_half
      → add_jitter int64_n base (draw int64_n retry jitter) ≡ some d
      → d ≤ most * millisecond
  unfolding add_jitter draw duration
  add_jitter_le retry base cap jitter most d h k fits e = ground (arith, below retry jitter)

  exponential_next_le :
      (b : ExponentialBackoff)
      → (b.max_backoff_interval + b.max_jitter_interval) * millisecond < int64_half
      → IsBoundedBy
          ((b.max_backoff_interval + b.max_jitter_interval) * millisecond)
          (some (exponential_next int64_n b))
  unfolding exponential_next add_jitter draw duration next
  exponential_next_le b fits retry d e = ground (arith, below retry b.max_jitter_interval)

  linear_next_le :
      (b : LinearBackoff)
      → (b.max_backoff_interval + b.max_jitter_interval) * millisecond < int64_half
      → IsBoundedBy
          ((b.max_backoff_interval + b.max_jitter_interval) * millisecond)
          (some (linear_next int64_n b))
  unfolding linear_next add_jitter draw duration next
  linear_next_le b fits retry d e = ground (arith, below retry b.max_jitter_interval)

  constant_next_le :
      (b : ConstantBackoff)
      → (b.max_backoff_interval + b.max_jitter_interval) * millisecond < int64_half
      → IsBoundedBy
          ((b.max_backoff_interval + b.max_jitter_interval) * millisecond)
          (some (constant_next int64_n b))
  unfolding constant_next add_jitter draw duration next
  constant_next_le b fits retry d e = ground (arith, below retry b.max_jitter_interval)

-- The wait is at most this, unless `Next` panics.
abbrev pub AtMost : ℕ → Option ℕ → Type 0
AtMost most none = Unit
AtMost most (some d) = d ≤ most

AtMost-IsBoundedBy :
    (m n : ℕ) (b : Backoff) (i : ℕ) → m ≤ n → IsBoundedBy m (some b) → AtMost n (b i)
AtMost-IsBoundedBy m n b i k h = of_wait (b i) (λ d e. h i d (unfold next in e))
  where
    of_wait : (o : Option ℕ) → ((d : ℕ) → o ≡ some d → d ≤ m) → AtMost n o
    of_wait none f = tt
    of_wait (some d) f = omega (arith, f d refl)

-- With the constructors of the package and a maximum and a jitter whose sum an int64 holds, no
-- strategy makes a caller wait longer than that sum: the three kinds of backoff, at any retry,
-- whatever rand.Int64N draws below its argument.
pub backoffs_bounded :
    (int64_n : ℕ → ℕ → ℕ) (f minv maxv jitter retry : ℕ)
    → DrawsBelow int64_n
    → maxv + jitter < int64_half
    → AtMost
        (maxv + jitter)
        (exponential_next int64_n (new_exponential_backoff f minv maxv jitter) retry)
      × AtMost (maxv + jitter) (linear_next int64_n (new_linear_backoff minv maxv jitter) retry)
      × AtMost (maxv + jitter) (constant_next int64_n (new_constant_backoff minv maxv jitter) retry)
unfolding new_exponential_backoff new_linear_backoff new_constant_backoff
backoffs_bounded int64_n f minv maxv jitter retry below fits =
    let whole : ℕ = (maxv / millisecond + jitter / millisecond) * millisecond in
    let le : whole ≤ maxv + jitter = omega arith in
    (
      AtMost-IsBoundedBy whole _ _ retry le (
          exponential_next_le int64_n below (new_exponential_backoff f minv maxv jitter)
            (omega arith)),
      AtMost-IsBoundedBy whole _ _ retry le
          (linear_next_le int64_n below (new_linear_backoff minv maxv jitter) (omega arith)),
      AtMost-IsBoundedBy whole _ _ retry le
          (constant_next_le int64_n below (new_constant_backoff minv maxv jitter) (omega arith)),
    )

module _ (b : Option Backoff) (env : Env) (most : ℕ) (bounded : IsBoundedBy most b) where
  round_waits :
      (n i : ℕ) (r : Round)
      → round b env i ≡ r
      → RoundView b env i r
      → All (λ d. d ≤ most) (do_from b env n (suc i)).waits
      → All (λ d. d ≤ most) (do_from b env (suc n) i).waits
  unfolding waited
  round_waits n i (stop o m) e v ih = rw (do_from-stop b env n i e) tt
  round_waits n i (again d) e (goes g) ih =
      rw (do_from-again b env n i e) (bounded i g.delay g.delay_known, ih)

  do_from_waits : (n i : ℕ) → All (λ d. d ≤ most) (do_from b env n i).waits
  unfolding do_from
  do_from_waits zero i = tt
  do_from_waits (suc n) i =
      let (r, e, v) = round-RoundView b env i in round_waits n i r e v (do_from_waits n (suc i))

-- If the configured backoff never asks for more than `most`, no wait of `Do` is longer.
waits_bounded :
    (env : Env) (options : List (Options → Options)) (most : ℕ)
    → IsBoundedBy most (options_of options).backoff
    → All (λ d. d ≤ most) (do_retry env options).waits
unfolding do_retry
waits_bounded env options most h =
    let o = options_of options in do_from_waits o.backoff env most h o.max_retries 0
