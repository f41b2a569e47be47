-- ===== src/Retry.antt =====
-- retry/retry.go: the options and the loop `Do`.
pub mod Strategies
pub mod Rounds
pub mod Bounds
pub mod Panics
mod Examples
use servekit.Prelude.{
  ℕ, zero, suc, ◌≡◌, Bool, true, false, not, Option, none, some, List, [], ◌∷◌, if◌then◌else◌,
}
use servekit.Errors.{Error, sentinel, retryable, retry_limit_reached, is_retryable}
use Strategies.{Backoff, static_backoff}

-- The generic ternary operator of tern/ternary.go.
unfoldable pub op {ℓ} : {A : Type ℓ} → Bool → A → A → A
op true t f = t
op false t f = f

unfoldable pub is_nil : Option Error → Bool
is_nil none = true
is_nil (some e) = false

-- &RetryableError{err: err}; the wrapped error may be nil, and then the value is never returned.
unfoldable pub wrap_retryable : Option Error → Option Error
wrap_retryable none = some Error.retryable_nil
wrap_retryable (some e) = some (retryable e)

unfoldable pub mark_retryable : Option Error → Option Error
unfolding op is_nil wrap_retryable
mark_retryable err = op (is_nil err) none (wrap_retryable err)

-- The logger is never read by `Do`.
pub record Options : Type 0 where
  pub max_retries : ℕ
  pub backoff : Option Backoff

unfoldable pub with_max_attempts : ℕ → Options → Options
with_max_attempts n o = record o { max_retries = n }

unfoldable pub with_backoff : Option Backoff → Options → Options
with_backoff b o = record o { backoff = b }

unfoldable pub apply_options : List (Options → Options) → Options → Options
apply_options [] o = o
apply_options (option ∷ options) o = apply_options options (option o)

unfoldable pub default_options : Options
default_options = record { max_retries = 3; backoff = some (static_backoff 0) }

-- What the caller's context and function do in the i-th round of the loop.
pub record Env : Type 0 where
  -- ctx.Err() if ctx.Done() is ready at the top of the round
  pub done_before : ℕ → Option Error
  -- fn(ctx)
  pub call : ℕ → Option Error
  -- ctx.Err() if ctx.Done() wins over the timer
  pub done_while : ℕ → Option Error

pub data Outcome : Type 0 where
  returned : Option Error → Outcome
  -- a nil Backoff, or one whose `Next` panics
  panicked : Outcome

-- One round: it ends the loop, after so many calls of fn, or waits and goes on.
pub data Round : Type 0 where
  stop : Outcome → ℕ → Round
  again : ℕ → Round

unfoldable pub after_wait : Option Error → ℕ → Round
after_wait none d = again d
after_wait (some e) d = stop (returned (some e)) 1

unfoldable pub wait : Option ℕ → Option Error → Round
unfolding after_wait
wait none interrupt = stop panicked 1
wait (some d) interrupt = after_wait interrupt d

-- o.backoff.Next(i)
unfoldable pub next : Option Backoff → ℕ → Option ℕ
next none i = none
next (some b) i = b i

unfoldable pub after_call : Option Error → Option ℕ → Option Error → Round
unfolding wait
after_call none d interrupt = stop (returned none) 1
after_call (some e) d interrupt =
    if not (is_retryable e) then stop (returned (some e)) 1 else wait d interrupt

unfoldable pub before_call : Option Error → Round → Round
before_call none r = r
before_call (some e) r = stop (returned (some e)) 0

unfoldable pub round : Option Backoff → Env → ℕ → Round
unfolding before_call after_call next
round b env i =
    before_call (env.done_before i) (after_call (env.call i) (next b i) (env.done_while i))

-- What `Do` returned, how often it called fn, and how long it waited after each call.
pub record Report : Type 0 where
  pub outcome : Outcome
  pub calls : ℕ
  pub waits : List ℕ

unfoldable pub waited : ℕ → Report → Report
waited d r = record r { calls = suc r.calls; waits = d ∷ r.waits }

-- The loop with `left` rounds left, from round i on.
unfoldable pub do_from : Option Backoff → Env → ℕ → ℕ → Report
unfolding waited
do_from b env zero i = record {
  outcome = returned (some (sentinel retry_limit_reached));
  calls = 0;
  waits = [];
}
do_from b env (suc left) i = elim (round b env i) [
  | stop o n ↦ record { outcome = o; calls = n; waits = [] }
  | again d ↦ waited d (do_from b env left (suc i))
]

unfoldable pub do_retry : Env → List (Options → Options) → Report
unfolding do_from
do_retry env options =
    let o = apply_options options default_options in do_from o.backoff env o.max_retries 0
