-- ===== src/HttpClient/Results.antt =====
-- Which response or error a round trip of httpkit/http_client.go returns.
use servekit.Prelude.{
  ℕ, suc, ◌≡◌, refl, Bool, true, false, ◌||◌, Option, none, some, List, arith, ◌⊎◌, inl, inr,
  length, ℤ, of_word64, subst, ◌∙◌,
}
use servekit.Errors.{Error}
use servekit.Retry.Strategies.{Backoff}
use servekit.Retry.{next}
use servekit.HttpClient.Request.{Response, Cause, DoError, plain, Reply, reply, crashed, do_request}
use servekit.HttpClient.{
  RoundTripper, Env, Outcome, returned, stop, again, backoff_sleep, is_final_cause, on_error,
  is_throttled, is_server_error, retry_after_wait, on_response, on_reply, attempt, sent, Body,
  no_body, body_read, body_failed, round_trip,
}
use servekit.HttpClient.Trips.{Keeps, trip_induction}

-- The statuses that the round tripper replays a request for: 429, and 5xx but 501.
abbrev pub retries_status : ℕ → Bool
retries_status status = is_throttled status || is_server_error status

-- If there is no error, the response is final, or all the attempts were used.
abbrev FinalOrExhausted : ℕ → Outcome → List ℕ → Type 0
FinalOrExhausted left outcome sent_at =
    (o : Option Response)
    → outcome ≡ returned o none
    → ((res : Response) × (o ≡ some res) × (retries_status res.status ≡ false))
      ⊎ (length sent_at ≡ left)

IsFinal : Option Response → Type 0
IsFinal o = (res : Response) × (o ≡ some res) × (retries_status res.status ≡ false)

on_response-stop :
    (r : Response) (wait : Option ℕ) (interrupt : Option Error) (o : Option Response) (b : Bool)
    → on_response r wait interrupt ≡ stop (returned o none) b
    → IsFinal o
unfolding on_response IsFinal
on_response-stop r wait interrupt o b h = (r, ground arith, ground arith)

on_error-stop :
    (e : DoError) (wait : Option ℕ) (interrupt : Option Error) (o : Option Response) (b : Bool)
    → on_error e (backoff_sleep wait interrupt none) ≡ stop (returned o none) b
    → IsFinal o
unfolding on_error backoff_sleep
on_error-stop e wait interrupt o b h = ground arith

on_reply-stop :
    (rp : Reply) (wait : Option ℕ) (interrupt : Option Error) (o : Option Response) (b : Bool)
    → on_reply rp wait interrupt ≡ stop (returned o none) b
    → IsFinal o
unfolding on_reply
on_reply-stop crashed wait interrupt o b h = cc
on_reply-stop (reply res (some e)) wait interrupt o b h = on_error-stop e wait interrupt o b h
on_reply-stop (reply none none) wait interrupt o b h = cc
on_reply-stop (reply (some r) none) wait interrupt o b h = on_response-stop r wait interrupt o b h

attempt-stop :
    (t : RoundTripper) (env : Env) (res o : Option Response) (i : ℕ) (b : Bool)
    → attempt t env res i ≡ stop (returned o none) b
    → IsFinal o
unfolding attempt
attempt-stop t env res o i b h = ground (
  arith,
  on_reply-stop (do_request t.has_breaker (env.breaker i) (env.result i)) (next t.backoff i)
      (env.done_sleep i) o b,
)

FinalOrExhausted-Keeps :
    (t : RoundTripper) (env : Env) (b : Bool)
    → Keeps t env b (λ left position r. FinalOrExhausted left r.outcome r.sent_at)
unfolding sent IsFinal
FinalOrExhausted-Keeps t env b = record {
  at_end = λ position res o h. inr refl;
  at_stop = λ left position i res outcome was_sent e o h. inl (
      attempt-stop t env res o i was_sent (subst (λ x. attempt t env res i ≡ stop x was_sent) h e));
  at_again = λ left position i d r h o e. ground (arith, h o);
}

-- If a round trip returns with no error, then it returns a response whose status is not replayed, or
-- it has sent its request as often as it may, `maxAttempts` + 1 times.
pub final_or_exhausted :
    (t : RoundTripper) (env : Env) (body : Body) (o : Option Response)
    → (round_trip t env body).outcome ≡ returned o none
    → ((res : Response) × (o ≡ some res) × (retries_status res.status ≡ false))
      ⊎ (length (round_trip t env body).sent_at ≡ suc t.max_attempts)
unfolding round_trip
final_or_exhausted t env (body_failed e) o h = cc
final_or_exhausted t env no_body o h =
    trip_induction t env false _ (FinalOrExhausted-Keeps t env false) (suc t.max_attempts) 0 none 0
      o h
final_or_exhausted t env body_read o h =
    trip_induction t env true _ (FinalOrExhausted-Keeps t env true) (suc t.max_attempts) 0 none 0 o
      h

-- The request's context stays alive, and responses can be closed.
pub record IsQuiet (env : Env) : Type 0 where
  pub alive_first : (i : ℕ) → env.done_first i ≡ none
  pub alive_second : (i : ℕ) → env.done_second i ≡ none
  pub alive_sleep : (i : ℕ) → env.done_sleep i ≡ none
  pub closes : (i : ℕ) → env.close i ≡ none

-- The backoff is there and never panics.
abbrev pub AlwaysWaits : Option Backoff → Type 0
AlwaysWaits b = (i : ℕ) → (d : ℕ) × (next b i ≡ some d)

abbrev pub reply_at : RoundTripper → Env → ℕ → Reply
reply_at t env i = do_request t.has_breaker (env.breaker i) (env.result i)

-- The i-th request gets a status that is replayed, or an error that is.
pub data Replays (t : RoundTripper) (env : Env) (i : ℕ) : Type 0 where
  by_status :
      {r : Response}
      → reply_at t env i ≡ reply (some r) none
      → retries_status r.status ≡ true
      → Replays t env i
  by_error :
      {c : Cause}
      → reply_at t env i ≡ reply none (some (plain c))
      → is_final_cause c ≡ false
      → Replays t env i

-- How long the round tripper sleeps before it replays a request: what Retry-After asks for, if the
-- status is 429 or 503 and the header parses, and else what the backoff gives.
abbrev pub response_wait : Bool → Option ℤ → ℕ → ℤ
response_wait true (some w) d = w
response_wait true none d = of_word64 d
response_wait false o d = of_word64 d

on_response-again :
    (r : Response) (d : ℕ)
    → retries_status r.status ≡ true
    → on_response r (some d) none
      ≡ again (some r) (response_wait (is_throttled r.status) (retry_after_wait r) d)
unfolding on_response
on_response-again r d h = ground arith

on_response-final :
    (r : Response) (wait : Option ℕ)
    → retries_status r.status ≡ false
    → on_response r wait none ≡ stop (returned (some r) none) true
unfolding on_response
on_response-final r wait h = ground arith

module _ (t : RoundTripper) (env : Env) (quiet : IsQuiet env) where
  pub attempt-quiet :
      (res : Option Response) (i : ℕ)
      → attempt t env res i ≡ on_reply (reply_at t env i) (next t.backoff i) none
  unfolding attempt
  attempt-quiet none i = rw (quiet.alive_first i, quiet.alive_second i, quiet.alive_sleep i)
  attempt-quiet (some r) i =
      rw (quiet.alive_first i, quiet.closes i, quiet.alive_second i, quiet.alive_sleep i)

  pub attempt-final :
      (res : Option Response) (i : ℕ) (r : Response)
      → reply_at t env i ≡ reply (some r) none
      → retries_status r.status ≡ false
      → attempt t env res i ≡ stop (returned (some r) none) true
  unfolding on_reply
  attempt-final res i r e h =
      attempt-quiet res i ∙ rw (e, on_reply) (on_response-final r (next t.backoff i) h)

abbrev pub response_of : Reply → Option Response
response_of (reply res e) = res
response_of crashed = none

-- An attempt whose reply is replayed leaves the response of that reply for the next one.
pub attempt-Replays :
    (t : RoundTripper) (env : Env)
    → IsQuiet env
    → AlwaysWaits t.backoff
    → (res : Option Response) (i : ℕ) → Replays t env i
    → (d : ℤ) × (attempt t env res i ≡ again (response_of (reply_at t env i)) d)
unfolding on_reply on_error
attempt-Replays t env quiet waits res i (by_status {r = r} e h) =
    let (d, w) = waits i in
    (
      response_wait (is_throttled r.status) (retry_after_wait r) d,
      attempt-quiet t env quiet res i ∙ rw (e, w, on_reply) (on_response-again r d h),
    )
attempt-Replays t env quiet waits res i (by_error {c = c} e h) =
    let (d, w) = waits i in (of_word64 d, attempt-quiet t env quiet res i ∙ rw (e, w, h))
