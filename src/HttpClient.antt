-- ===== src/HttpClient.antt =====
-- httpkit/http_client.go: the retrying round tripper. What the network, the breaker and the context
-- do is an environment, indexed by the attempt.
pub mod Request
pub mod Options
pub mod Trips
pub mod Results
pub mod Replays
pub mod Panics
mod Examples
use mathlib.Core.Option
use servekit.Prelude.{
  ℕ, zero, suc, ◌+◌, ◌*◌, Bool, true, false, not, ◌&&◌, ◌||◌, Option, none, some, List, [], ◌∷◌,
  leb, ◌==◌, if◌then◌else◌, ℤ, pos, negsuc, wrap64, of_word64, Bytes, is_empty,
}
use servekit.GoText.{parse_int}
use servekit.Errors.{Error}
use servekit.Retry.Strategies.{Backoff}
use servekit.Retry.{next}
use Request.{
  Response, Cause, circuit_error, url_error, other_error, DoError, plain, non_retryable, DoResult,
  BreakerRun, Reply, reply, crashed, do_request,
}

pub record RoundTripper : Type 0 where
  pub max_attempts : ℕ
  pub backoff : Option Backoff
  pub has_breaker : Bool

-- What happens in the i-th attempt, if the loop gets so far.
pub record Env : Type 0 where
  -- req.Context().Err() at the top of the round, and after the last response was closed
  pub done_first : ℕ → Option Error
  pub done_second : ℕ → Option Error
  -- the error of closing the body of the last response
  pub close : ℕ → Option Error
  pub breaker : ℕ → BreakerRun
  pub result : ℕ → DoResult
  -- how many bytes of the request's body the attempt reads
  pub reads : ℕ → ℕ
  -- how many more it reads of the same reader after `Do` returned and the reader was rewound, before
  -- the next request is sent; 0 unless the transport reads on then
  pub late_reads : ℕ → ℕ
  -- ctx.Err() if the context ends the sleep
  pub done_sleep : ℕ → Option Error

pub data TripError : Type 0 where
  context_error : Error → TripError
  close_error : Error → TripError
  read_body_error : Error → TripError
  request_error : Cause → TripError
  nil_response : TripError

pub data Outcome : Type 0 where
  returned : Option Response → Option TripError → Outcome
  -- the backoff is nil or panics, or the breaker's function crashed
  panicked : Outcome

-- One attempt: it ends the loop and says whether a request was sent, or it sends one, sleeps so many
-- nanoseconds and leaves `res` for the next attempt.
pub data Attempt : Type 0 where
  stop : Outcome → Bool → Attempt
  again : Option Response → ℤ → Attempt

-- t.sleepWithContext
unfoldable pub slept : Option Error → Option Response → ℤ → Attempt
slept none res d = again res d
slept (some e) res d = stop (returned none (some (context_error e))) true

-- Sleeping for what `Next` gives; `none` is a panic there.
unfoldable pub backoff_sleep : Option ℕ → Option Error → Option Response → Attempt
unfolding slept
backoff_sleep none e res = stop panicked true
backoff_sleep (some d) e res = slept e res (of_word64 d)

unfoldable pub is_final_cause : Cause → Bool
is_final_cause (circuit_error n) = true
is_final_cause (url_error u) = u.too_many_redirects || u.unsupported_scheme || u.unknown_authority
is_final_cause (other_error n) = false

-- `if doErr != nil`
unfoldable pub on_error : DoError → Attempt → Attempt
unfolding is_final_cause
on_error (non_retryable c) sleep = stop (returned none (some (request_error c))) true
on_error (plain c) sleep =
    if is_final_cause c then stop (returned none (some (request_error c))) true else sleep

unfoldable pub is_throttled : ℕ → Bool
is_throttled status = status == 429 || status == 503

unfoldable pub is_server_error : ℕ → Bool
is_server_error status = leb 500 status && (not (status == 503) && not (status == 501))

-- time.Second * time.Duration(timeout)
unfoldable pub seconds : ℤ → ℤ
seconds (pos n) = wrap64 (pos (n * 1000000000))
seconds (negsuc n) = wrap64 (negsuc (n * 1000000000 + 999999999))

-- The wait that the Retry-After header asks for, if it is there and parses as an integer.
unfoldable pub retry_after_wait : Response → Option ℤ
unfolding seconds
retry_after_wait r =
    if is_empty r.retry_after then none else Option.map seconds (parse_int r.retry_after)

unfoldable pub throttled_sleep : Option ℤ → Option ℕ → Option Error → Response → Attempt
unfolding slept backoff_sleep
throttled_sleep (some d) wait interrupt r = slept interrupt (some r) d
throttled_sleep none wait interrupt r = backoff_sleep wait interrupt (some r)

-- The checks of the status of a response.
unfoldable pub on_response : Response → Option ℕ → Option Error → Attempt
unfolding throttled_sleep backoff_sleep is_throttled is_server_error
on_response r wait interrupt =
    if is_throttled r.status
    then throttled_sleep (retry_after_wait r) wait interrupt r
    else if is_server_error r.status
    then backoff_sleep wait interrupt (some r)
    else stop (returned (some r) none) true

unfoldable pub on_reply : Reply → Option ℕ → Option Error → Attempt
unfolding on_error on_response backoff_sleep
on_reply crashed wait interrupt = stop panicked true
on_reply (reply res (some e)) wait interrupt = on_error e (backoff_sleep wait interrupt none)
on_reply (reply none none) wait interrupt = stop (returned none (some nil_response)) true
on_reply (reply (some r) none) wait interrupt = on_response r wait interrupt

unfoldable pub check_context : Option Error → Attempt → Attempt
check_context none rest = rest
check_context (some e) rest = stop (returned none (some (context_error e))) false

-- res.Body.Close() before the next request
unfoldable pub close_last : Option Response → Option Error → Attempt → Attempt
close_last none e rest = rest
close_last (some r) none rest = rest
close_last (some r) (some e) rest = stop (returned none (some (close_error e))) false

unfoldable pub attempt : RoundTripper → Env → Option Response → ℕ → Attempt
unfolding check_context close_last on_reply do_request next
attempt t env res i = check_context (env.done_first i) (
    close_last res (env.close i) (
      check_context (env.done_second i) (
        on_reply (do_request t.has_breaker (env.breaker i) (env.result i)) (next t.backoff i)
          (env.done_sleep i))))

-- What `RoundTrip` returned, the position of the body reader at each request that it sent, and the
-- sleeps that it sat out.
pub record Report : Type 0 where
  pub outcome : Outcome
  pub sent_at : List ℕ
  pub sleeps : List ℤ

unfoldable pub sends : Bool → ℕ → List ℕ
sends true position = position ∷ []
sends false position = []

-- bodyReader.Seek(0, 0), which never fails on a bytes.Reader
unfoldable pub rewind : Bool → ℕ → ℕ
rewind true position = 0
rewind false position = position

unfoldable pub sent : ℕ → ℤ → Report → Report
sent position d r = record r { sent_at = position ∷ r.sent_at; sleeps = d ∷ r.sleeps }

-- The loop with `left` attempts left, from the i-th on; `has_body` is `bodyReader != nil`.
unfoldable pub trip_from : RoundTripper → Env → Bool → ℕ → ℕ → Option Response → ℕ → Report
unfolding sends rewind sent
trip_from t env has_body zero i res position = record {
  outcome = returned res none;
  sent_at = [];
  sleeps = [];
}
trip_from t env has_body (suc left) i res position = elim (attempt t env res i) [
  | stop o was_sent ↦ record { outcome = o; sent_at = sends was_sent position; sleeps = [] }
  | again res' d ↦
      let position' = rewind has_body (position + env.reads i) + env.late_reads i in
      sent position d (trip_from t env has_body left (suc i) res' position')
]

-- What reading the request's body into memory gave: no body, its bytes, or an error.
pub data Body : Type 0 where
  no_body : Body
  body_read : Body
  body_failed : Error → Body

unfoldable pub round_trip : RoundTripper → Env → Body → Report
unfolding trip_from
round_trip t env (body_failed e) = record {
  outcome = returned none (some (read_body_error e));
  sent_at = [];
  sleeps = [];
}
round_trip t env no_body = trip_from t env false (suc t.max_attempts) 0 none 0
round_trip t env body_read = trip_from t env true (suc t.max_attempts) 0 none 0
