-- ===== src/HttpClient/Examples.antt =====
-- Concrete round trips of httpkit/http_client.go.
use servekit.Prelude.{
  ◌↔◌, ℕ, zero, suc, ◌≤◌, ◌<◌, ◌≡◌, refl, false, none, some, [], ◌∷◌, arith, ◌⊎◌, length, pos,
}
use servekit.GoText.{ascii}
use servekit.Retry.Strategies.{static_backoff}
use servekit.Retry.{next, with_max_attempts}
use servekit.HttpClient.Request.{Response, other_error, DoResult, runs, do_request}
use servekit.HttpClient.{
  RoundTripper, Env, returned, panicked, is_throttled, is_server_error, is_final_cause, no_body,
  body_read, round_trip,
}
use servekit.HttpClient.Options.{with_retries, default_config, new_client}
use servekit.HttpClient.Results.{
  retries_status, IsQuiet, AlwaysWaits, Replays, by_status, by_error, reply_at, response_of,
  final_or_exhausted,
}
use servekit.HttpClient.Panics.{NeedsBackoff, no_backoff_panics}
use servekit.HttpClient.Replays.{returns_first_final, exhausted_returns_last, new_client_sends_once}

abbrev unavailable : Response
unavailable = record { status = 503; retry_after = ascii "7" }

abbrev fine : Response
fine = record { status = 200; retry_after = [] }

abbrev broken : Response
broken = record { status = 500; retry_after = [] }

-- A 503 response, a transport error, and then 200.
abbrev flaky : ℕ → DoResult
flaky zero = record { response = some unavailable; error = none }
flaky (suc zero) = record { response = none; error = some (other_error 4) }
flaky (suc (suc i)) = record { response = some fine; error = none }

abbrev env_of : (ℕ → DoResult) → Env
env_of result = record {
  done_first = λ i. none;
  done_second = λ i. none;
  close = λ i. none;
  breaker = λ i. runs;
  result = result;
  reads = λ i. 12;
  late_reads = λ i. 0;
  done_sleep = λ i. none;
}

abbrev flaky_env : Env
flaky_env = env_of flaky

abbrev always_broken : Env
always_broken = env_of (λ i. record { response = some broken; error = none })

abbrev patient : RoundTripper
patient = record { max_attempts = 2; backoff = some (static_backoff 5); has_breaker = false }

flaky_env-IsQuiet : IsQuiet flaky_env
flaky_env-IsQuiet = record {
  alive_first = λ i. refl;
  alive_second = λ i. refl;
  alive_sleep = λ i. refl;
  closes = λ i. refl;
}

always_broken-IsQuiet : IsQuiet always_broken
always_broken-IsQuiet = record {
  alive_first = λ i. refl;
  alive_second = λ i. refl;
  alive_sleep = λ i. refl;
  closes = λ i. refl;
}

patient-AlwaysWaits : AlwaysWaits patient.backoff
unfolding next static_backoff
patient-AlwaysWaits i = (5, refl)

flaky-Replays : (j : ℕ) → j < 2 → Replays patient flaky_env j
unfolding do_request is_throttled is_server_error is_final_cause
flaky-Replays zero h = by_status {r = unavailable} refl refl
flaky-Replays (suc zero) h = by_error {c = other_error 4} refl refl
flaky-Replays (suc (suc j)) h = absurd (omega arith)

broken-Replays : (j : ℕ) → j ≤ 2 → Replays patient always_broken j
unfolding do_request is_throttled is_server_error
broken-Replays j h = by_status {r = broken} refl refl

returns_first_final_example :
    ((round_trip patient flaky_env body_read).outcome ≡ returned (some fine) none)
    × (length (round_trip patient flaky_env body_read).sent_at ≡ 3)
unfolding do_request is_throttled is_server_error
returns_first_final_example =
    returns_first_final patient flaky_env body_read tt flaky_env-IsQuiet patient-AlwaysWaits 2 fine
      (omega arith) flaky-Replays refl refl

exhausted_returns_last_example :
    ((round_trip patient always_broken body_read).outcome
      ≡ returned (response_of (reply_at patient always_broken 2)) none)
    × (length (round_trip patient always_broken body_read).sent_at ≡ 3)
exhausted_returns_last_example =
    exhausted_returns_last patient always_broken body_read tt always_broken-IsQuiet
      patient-AlwaysWaits broken-Replays

final_or_exhausted_example :
    ((res : Response) × (some fine ≡ some res) × (retries_status res.status ≡ false))
    ⊎ (length (round_trip patient flaky_env body_read).sent_at ≡ 3)
final_or_exhausted_example =
    final_or_exhausted patient flaky_env body_read (some fine) (returns_first_final_example.0)

new_client_sends_once_example :
    length
      (round_trip
        (new_client (pos 9) (with_retries (with_max_attempts 4 ∷ []) ∷ []))
        flaky_env
        body_read).sent_at
    ≤ 1
new_client_sends_once_example =
    new_client_sends_once (pos 9) (with_retries (with_max_attempts 4 ∷ []) ∷ []) flaky_env body_read

no_backoff_panics_example :
    ((round_trip (new_client (pos 9) []) always_broken no_body).outcome ≡ panicked)
    ↔ NeedsBackoff broken
unfolding new_client default_config do_request
no_backoff_panics_example =
    no_backoff_panics (new_client (pos 9) []) always_broken no_body broken tt always_broken-IsQuiet
      refl refl refl
