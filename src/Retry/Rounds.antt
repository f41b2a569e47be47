-- ===== src/Retry/Rounds.antt =====
-- What the loop `Do` of retry/retry.go does over all its rounds.
use servekit.Prelude.{
  ℕ, zero, suc, ◌+◌, ◌≤◌, ◌<◌, ◌≡◌, refl, ap, subst, Bool, true, false, Option, none, some, List,
  [], arith, ◌⊎◌, inl, inr,
}
use servekit.Errors.{Error, sentinel, retry_limit_reached, is_retryable}
use servekit.Retry.Strategies.{Backoff}
use servekit.Retry.{
  Options, Env, Outcome, returned, panicked, Round, stop, again, round, next, Report, waited,
  do_from, do_retry, apply_options, default_options,
}

-- Round i runs fn to a retryable error, waits, and hands over to round i + 1.
pub record GoesOn (b : Option Backoff) (env : Env) (i : ℕ) : Type 0 where
  pub error : Error
  pub delay : ℕ
  pub not_done : env.done_before i ≡ none
  pub failed : env.call i ≡ some error
  pub may_retry : is_retryable error ≡ true
  pub delay_known : next b i ≡ some delay
  pub not_interrupted : env.done_while i ≡ none

-- Round i ends the loop with this outcome.
pub data Ends (b : Option Backoff) (env : Env) (i : ℕ) : Outcome → ℕ → Type 0 where
  done_first : {e : Error} → env.done_before i ≡ some e → Ends b env i (returned (some e)) 0
  success : env.done_before i ≡ none → env.call i ≡ none → Ends b env i (returned none) 1
  hard_error :
      {e : Error}
      → env.done_before i ≡ none
      → env.call i ≡ some e
      → is_retryable e ≡ false
      → Ends b env i (returned (some e)) 1
  no_backoff :
      {e : Error}
      → env.done_before i ≡ none
      → env.call i ≡ some e
      → is_retryable e ≡ true
      → next b i ≡ none
      → Ends b env i panicked 1
  interrupted :
      {e f : Error} {d : ℕ}
      → env.done_before i ≡ none
      → env.call i ≡ some e
      → is_retryable e ≡ true
      → next b i ≡ some d
      → env.done_while i ≡ some f
      → Ends b env i (returned (some f)) 1

-- `round` computed, with the facts that led to it.
pub data RoundView (b : Option Backoff) (env : Env) (i : ℕ) : Round → Type 0 where
  goes : (g : GoesOn b env i) → RoundView b env i (again g.delay)
  ends : {o : Outcome} {n : ℕ} → Ends b env i o n → RoundView b env i (stop o n)

module _ (b : Option Backoff) (env : Env) (i : ℕ) where
  view_round :
      (done call interrupt : Option Error) (d : Option ℕ) (re : Bool)
      → env.done_before i ≡ done
      → env.call i ≡ call
      → env.done_while i ≡ interrupt
      → next b i ≡ d
      → ((e : Error) → call ≡ some e → is_retryable e ≡ re)
      → (r : Round) × (round b env i ≡ r) × RoundView b env i r
  unfolding round
  view_round (some e) call interrupt d re p q s t u =
      (stop (returned (some e)) 0, rw p, ends (done_first p))
  view_round none none interrupt d re p q s t u =
      (stop (returned none) 1, rw (p, q), ends (success p q))
  view_round none (some e) interrupt d false p q s t u =
      (stop (returned (some e)) 1, rw (p, q, u e refl), ends (hard_error p q (u e refl)))
  view_round none (some e) interrupt none true p q s t u =
      (stop panicked 1, rw (p, q, u e refl, t), ends (no_backoff p q (u e refl) t))
  view_round none (some e) (some f) (some d) true p q s t u =
      (stop (returned (some f)) 1, rw (p, q, u e refl, t, s), ends (interrupted p q (u e refl) t s))
  view_round none (some e) none (some d) true p q s t u = (
    again d,
    rw (p, q, u e refl, t, s),
    goes (record {
      error = e;
      delay = d;
      not_done = p;
      failed = q;
      may_retry = u e refl;
      delay_known = t;
      not_interrupted = s;
    }),
  )

  retryable_of : Option Error → Bool
  retryable_of none = false
  retryable_of (some e) = is_retryable e

  pub round-RoundView : (r : Round) × (round b env i ≡ r) × RoundView b env i r
  unfolding retryable_of
  round-RoundView =
      view_round (env.done_before i) (env.call i) (env.done_while i) (next b i)
        (retryable_of (env.call i)) refl refl refl refl (λ e h. rw h)

  round-GoesOn : (g : GoesOn b env i) → round b env i ≡ again g.delay
  unfolding round
  round-GoesOn g = rw (g.not_done, g.failed, g.may_retry, g.delay_known, g.not_interrupted)

-- Every round of the n rounds from round i on goes on, and `Do` gives up.
pub record Exhausted (b : Option Backoff) (env : Env) (i n : ℕ) (r : Report) : Type 0 where
  pub all_go_on : (j : ℕ) → j < n → GoesOn b env (i + j)
  pub gives_up : r.outcome ≡ returned (some (sentinel retry_limit_reached))
  pub all_called : r.calls ≡ n

-- The k-th of the n rounds from round i on is the first that ends, and it decides the result.
pub record Decided (b : Option Backoff) (env : Env) (i n : ℕ) (r : Report) : Type 0 where
  pub rounds_before : ℕ
  pub last_calls : ℕ
  pub within : rounds_before < n
  pub go_on_before : (j : ℕ) → j < rounds_before → GoesOn b env (i + j)
  pub decides : Ends b env (i + rounds_before) r.outcome last_calls
  pub counted : r.calls ≡ rounds_before + last_calls

shift_GoesOn :
    (b : Option Backoff) (env : Env) (i n : ℕ)
    → GoesOn b env i
    → ((j : ℕ) → j < n → GoesOn b env (suc i + j))
    → (j : ℕ) → j < suc n
    → GoesOn b env (i + j)
shift_GoesOn b env i n g h zero lt = subst (GoesOn b env) (omega arith) g
shift_GoesOn b env i n g h (suc j) lt =
    subst (GoesOn b env) {x = suc i + j} (omega arith) (h j (omega arith))

module _ (b : Option Backoff) (env : Env) where
  pub do_from-stop :
      (n i : ℕ) {o : Outcome} {m : ℕ}
      → round b env i ≡ stop o m
      → do_from b env (suc n) i ≡ record { outcome = o; calls = m; waits = [] }
  unfolding do_from
  do_from-stop n i h = rw (h, do_from)

  pub do_from-again :
      (n i : ℕ) {d : ℕ}
      → round b env i ≡ again d
      → do_from b env (suc n) i ≡ waited d (do_from b env n (suc i))
  unfolding do_from
  do_from-again n i h = rw (h, do_from)

  waited-cases :
      (n i : ℕ) (g : GoesOn b env i) (r : Report)
      → Exhausted b env (suc i) n r ⊎ Decided b env (suc i) n r
      → Exhausted b env i (suc n) (waited g.delay r) ⊎ Decided b env i (suc n) (waited g.delay r)
  unfolding waited
  waited-cases n i g r (inl x) = inl (record {
    all_go_on = shift_GoesOn b env i n g x.all_go_on;
    gives_up = x.gives_up;
    all_called = ap suc x.all_called;
  })
  waited-cases n i g r (inr x) = inr (record {
    rounds_before = suc x.rounds_before;
    last_calls = x.last_calls;
    within = omega arith;
    go_on_before = shift_GoesOn b env i x.rounds_before g x.go_on_before;
    decides =
        subst (λ k. Ends b env k r.outcome x.last_calls) {x = suc i + x.rounds_before} (omega arith)
          x.decides;
    counted = omega arith;
  })

  round_cases :
      (n i : ℕ) (r : Round)
      → round b env i ≡ r
      → RoundView b env i r
      → Exhausted b env (suc i) n (do_from b env n (suc i))
        ⊎ Decided b env (suc i) n (do_from b env n (suc i))
      → Exhausted b env i (suc n) (do_from b env (suc n) i)
        ⊎ Decided b env i (suc n) (do_from b env (suc n) i)
  round_cases n i (stop o m) h (ends {o = o'} {n = m'} e) rest = rw (do_from-stop n i h) (
      inr (record {
        rounds_before = 0;
        last_calls = m;
        within = omega arith;
        go_on_before = λ j lt. absurd (omega arith);
        decides = subst (λ k. Ends b env k o m) {x = i} (omega arith) e;
        counted = omega arith;
      }))
  round_cases n i (again d) h (goes g) rest =
      rw (do_from-again n i h) (waited-cases n i g (do_from b env n (suc i)) rest)

  do_from_cases :
      (n i : ℕ) → Exhausted b env i n (do_from b env n i) ⊎ Decided b env i n (do_from b env n i)
  unfolding do_from
  do_from_cases zero i =
      inl (record { all_go_on = λ j lt. absurd (omega arith); gives_up = refl; all_called = refl })
  do_from_cases (suc n) i =
      let (r, e, v) = round-RoundView b env i in round_cases n i r e v (do_from_cases n (suc i))

-- The options of a call of `Do`.
abbrev pub options_of : List (Options → Options) → Options
options_of options = apply_options options default_options

-- Whatever the context, the function and the options do, one of two things holds of `Do`: every one
-- of the `max_retries` rounds calls fn, gets a retryable error and waits, and `Do` returns
-- ErrRetryLimitReached after as many calls; or some round is the first that does not go on, it ends
-- by a done context, a success, an error that is not retryable, a panicking backoff or a context
-- done during the wait, and the result of `Do` is the outcome of that round.
pub do_retry_cases :
    (env : Env) (options : List (Options → Options))
    → let o = options_of options in
      Exhausted o.backoff env 0 o.max_retries (do_retry env options)
      ⊎ Decided o.backoff env 0 o.max_retries (do_retry env options)
unfolding do_retry
do_retry_cases env options =
    let o = options_of options in do_from_cases o.backoff env o.max_retries 0

last_calls-le-one :
    {b : Option Backoff} {env : Env} {i : ℕ} {o : Outcome} {n : ℕ} → Ends b env i o n → n ≤ 1
last_calls-le-one (done_first p) = omega arith
last_calls-le-one (success p q) = omega arith
last_calls-le-one (hard_error p q r) = omega arith
last_calls-le-one (no_backoff p q r s) = omega arith
last_calls-le-one (interrupted p q r s t) = omega arith

calls-le :
    {b : Option Backoff} {env : Env} {i n : ℕ} {r : Report}
    → Exhausted b env i n r ⊎ Decided b env i n r
    → r.calls ≤ n
calls-le (inl x) = omega (arith, x.all_called)
calls-le (inr x) = omega (arith, x.counted, x.within, last_calls-le-one x.decides)

-- `Do` calls the function at most `max_retries` times.
calls-le-max_retries :
    (env : Env) (options : List (Options → Options))
    → (do_retry env options).calls ≤ (options_of options).max_retries
calls-le-max_retries env options = calls-le (do_retry_cases env options)
