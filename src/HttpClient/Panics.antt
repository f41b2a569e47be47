-- ===== src/HttpClient/Panics.antt =====
-- When a round trip of httpkit/http_client.go panics that has no backoff.
use servekit.Prelude.{
  sym, ℕ, suc, ◌≤◌, ◌≡◌, ◌≢◌, ◌↔◌, ◌⊎◌, inl, inr, Bool-cases, Option-cases, refl, Bool, true, false,
  none, some, arith, subst, ◌∙◌,
}
use servekit.Retry.{next}
use servekit.HttpClient.Request.{Response, reply}
use servekit.HttpClient.{
  RoundTripper, Env, Outcome, Attempt, again, slept, throttled_sleep, retry_after_wait, returned,
  panicked, stop, is_server_error, is_throttled, attempt, on_reply, on_response, backoff_sleep,
  sent, trip_from, Body, no_body, body_read, body_failed, round_trip,
}
use servekit.HttpClient.Trips.{trip_from-again, trip_from-stop}
use servekit.HttpClient.Results.{IsQuiet, reply_at, attempt-quiet}
use servekit.HttpClient.Replays.{IsSendable}

-- The responses after which the round tripper asks its backoff for a wait: 429 and 503 without a
-- readable Retry-After, and 5xx but 501 and 503.
abbrev pub NeedsBackoff : Response → Type 0
NeedsBackoff r =
    (((r.status ≡ 429) ⊎ (r.status ≡ 503)) × (retry_after_wait r ≡ none))
    ⊎ ((500 ≤ r.status) × (r.status ≢ 501) × (r.status ≢ 503))

-- How a loop ends that has one attempt.
only_outcome : Attempt → Outcome
only_outcome (stop o b) = o
only_outcome (again res d) = returned res none

on_response-panics_iff :
    (r : Response) → (only_outcome (on_response r none none) ≡ panicked) ↔ NeedsBackoff r
unfolding on_response throttled_sleep backoff_sleep slept is_throttled is_server_error only_outcome
on_response-panics_iff r = elim (Option-cases (retry_after_wait r)) [
  | inl w ↦ elim (Bool-cases (is_throttled r.status)) [
    | inl e ↦ ground arith
    | inr e ↦ ground arith
  ]
  | inr (d, w) ↦ elim (Bool-cases (is_throttled r.status)) [
    | inl e ↦ ground arith
    | inr e ↦ ground arith
  ]
]

attempt-alone :
    (t : RoundTripper) (env : Env) (r : Response)
    → IsQuiet env
    → t.backoff ≡ none
    → reply_at t env 0 ≡ reply (some r) none
    → attempt t env none 0 ≡ on_response r none none
unfolding next
attempt-alone t env r quiet h e =
    attempt-quiet t env quiet none 0 ∙ rw (e, h) (unfold on_reply in refl)

trip_from-alone :
    (t : RoundTripper) (env : Env) (has_body : Bool) (a : Attempt)
    → attempt t env none 0 ≡ a
    → (trip_from t env has_body 1 0 none 0).outcome ≡ only_outcome a
unfolding only_outcome sent trip_from
trip_from-alone t env has_body (stop o b) h = rw (trip_from-stop t env has_body 0 0 0 none h) refl
trip_from-alone t env has_body (again res d) h =
    rw (trip_from-again t env has_body 0 0 0 none h) refl

trip_from-one :
    (t : RoundTripper) (env : Env) (has_body : Bool) (r : Response) (n : ℕ)
    → IsQuiet env
    → n ≡ 0
    → t.backoff ≡ none
    → reply_at t env 0 ≡ reply (some r) none
    → (trip_from t env has_body (suc n) 0 none 0).outcome ≡ only_outcome (on_response r none none)
trip_from-one t env has_body r n quiet m h e =
    subst
      (λ k.
        (trip_from t env has_body (suc k) 0 none 0).outcome
        ≡ only_outcome (on_response r none none))
      (sym m)
      (trip_from-alone t env has_body (on_response r none none) (attempt-alone t env r quiet h e))

-- With one attempt and no backoff, as a client of `NewClient` without `WithRetries` has them, and
-- while the context lives: a round trip panics exactly if the response has status 429 or 503 and no
-- Retry-After that can be read, or another status from 500 on but 501.
pub no_backoff_panics :
    (t : RoundTripper) (env : Env) (body : Body) (r : Response)
    → IsSendable body
    → IsQuiet env
    → t.max_attempts ≡ 0
    → t.backoff ≡ none
    → reply_at t env 0 ≡ reply (some r) none
    → ((round_trip t env body).outcome ≡ panicked) ↔ NeedsBackoff r
unfolding round_trip
no_backoff_panics t env (body_failed x) r b quiet m h e = absurd b
no_backoff_panics t env no_body r b quiet m h e =
    rw (trip_from-one t env false r t.max_attempts quiet m h e) (on_response-panics_iff r)
no_backoff_panics t env body_read r b quiet m h e =
    rw (trip_from-one t env true r t.max_attempts quiet m h e) (on_response-panics_iff r)
