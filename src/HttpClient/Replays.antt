-- ===== src/HttpClient/Replays.antt =====
-- How a round trip of httpkit/http_client.go goes from replay to replay, and where it ends.
use servekit.Prelude.{
  ℕ, zero, suc, ◌+◌, ◌≤◌, ◌<◌, ◌≡◌, refl, ap, Bool, true, false, Option, none, some, List, [],
  arith, length, ℤ, subst, ◌∙◌,
}
use servekit.HttpClient.Request.{Response, reply}
use servekit.HttpClient.{
  RoundTripper, Env, returned, sends, sent, rewind, trip_from, Body, no_body, body_read,
  body_failed, round_trip,
}
use servekit.HttpClient.Options.{ClientOption, new_client}
use servekit.HttpClient.Trips.{trip_from-again, trip_from-stop, sends-le-max_attempts}
use servekit.HttpClient.Results.{
  retries_status, IsQuiet, AlwaysWaits, reply_at, Replays, response_of, attempt-Replays,
  attempt-final,
}

-- The attempts that a round trip with this body may make: none if the body cannot be read.
abbrev pub IsSendable : Body → Type 0
IsSendable (body_failed e) = ⊥
IsSendable b = Unit

module _ (t : RoundTripper) (env : Env) (quiet : IsQuiet env) (waits : AlwaysWaits t.backoff)
    (has_body : Bool) where
  shift_Replays :
      (k i : ℕ)
      → ((j : ℕ) → j < suc k → Replays t env (i + j))
      → (j : ℕ) → j < k
      → Replays t env (suc i + j)
  shift_Replays k i h j lt =
      subst (Replays t env) {x = i + suc j} (omega arith) (h (suc j) (omega arith))

  first_Replays : (k i : ℕ) → ((j : ℕ) → j < suc k → Replays t env (i + j)) → Replays t env i
  first_Replays k i h = subst (Replays t env) {x = i + 0} (omega arith) (h 0 (omega arith))

  trip_from-final :
      (k left i : ℕ) (res : Option Response) (position : ℕ) (r : Response)
      → ((j : ℕ) → j < k → Replays t env (i + j))
      → k < left
      → reply_at t env (i + k) ≡ reply (some r) none
      → retries_status r.status ≡ false
      → ((trip_from t env has_body left i res position).outcome ≡ returned (some r) none)
        × (length (trip_from t env has_body left i res position).sent_at ≡ suc k)
  unfolding sends sent
  trip_from-final k zero i res position r h lt e f = absurd (omega arith)
  trip_from-final zero (suc left) i res position r h lt e f =
      rw
        (trip_from-stop t env has_body left i position res (
          attempt-final t env quiet res i r
            (subst (λ n. reply_at t env n ≡ reply (some r) none) {x = i + 0} (omega arith) e) f))
        (refl, omega arith)
  trip_from-final (suc k) (suc left) i res position r h lt e f =
      let (d, a) = attempt-Replays t env quiet waits res i (first_Replays k i h) in
      let rest =
        trip_from-final k left (suc i) (response_of (reply_at t env i))
          (rewind has_body (position + env.reads i) + env.late_reads i) r (shift_Replays k i h)
          (omega arith)
          (subst (λ n. reply_at t env n ≡ reply (some r) none) {x = i + suc k} (omega arith) e) f in
      rw (trip_from-again t env has_body left i position res a) (rest.0, ap suc rest.1)

  trip_from-zero :
      (i : ℕ) (res : Option Response) (position : ℕ)
      → trip_from t env has_body 0 i res position
        ≡ record { outcome = returned res none; sent_at = []; sleeps = [] }
  unfolding trip_from
  trip_from-zero i res position = refl

  trip_from-exhausted :
      (left i : ℕ) (res : Option Response) (position : ℕ)
      → ((j : ℕ) → j < suc left → Replays t env (i + j))
      → ((trip_from t env has_body (suc left) i res position).outcome
          ≡ returned (response_of (reply_at t env (i + left))) none)
        × (length (trip_from t env has_body (suc left) i res position).sent_at ≡ suc left)
  unfolding sent
  trip_from-exhausted zero i res position h =
      let (d, a) = attempt-Replays t env quiet waits res i (first_Replays 0 i h) in
      rw (trip_from-again t env has_body 0 i position res a) (
        rw trip_from-zero
          (ap (λ n. returned (response_of (reply_at t env n)) none) (omega arith), omega arith))
  trip_from-exhausted (suc left) i res position h =
      let (d, a) = attempt-Replays t env quiet waits res i (first_Replays (suc left) i h) in
      let position' = rewind has_body (position + env.reads i) + env.late_reads i in
      let rest =
        trip_from-exhausted left (suc i) (response_of (reply_at t env i)) position'
          (shift_Replays (suc left) i h) in
      rw (trip_from-again t env has_body (suc left) i position res a) (
        rest.0 ∙ ap (λ n. returned (response_of (reply_at t env n)) none) (omega arith),
        ap suc rest.1,
      )

module _ (t : RoundTripper) (env : Env) (body : Body) (sendable : IsSendable body)
    (quiet : IsQuiet env) (waits : AlwaysWaits t.backoff) where
  -- While the context lives and the backoff gives a wait: if the first k requests are replayed, k at
  -- most `maxAttempts`, and the next one gets a response with a final status, then the round trip
  -- returns that response with no error, after k + 1 requests.
  pub returns_first_final :
      (k : ℕ) (r : Response)
      → k ≤ t.max_attempts
      → ((j : ℕ) → j < k → Replays t env j)
      → reply_at t env k ≡ reply (some r) none
      → retries_status r.status ≡ false
      → ((round_trip t env body).outcome ≡ returned (some r) none)
        × (length (round_trip t env body).sent_at ≡ suc k)
  unfolding round_trip
  returns_first_final k r le h e f = by_body body sendable
    where
      from_start : (j : ℕ) → j < k → Replays t env (0 + j)
      from_start j lt = subst (Replays t env) (omega arith) (h j lt)

      at_k : reply_at t env (0 + k) ≡ reply (some r) none
      at_k = subst (λ n. reply_at t env n ≡ reply (some r) none) {x = k} (omega arith) e

      by_body :
          (b : Body)
          → IsSendable b
          → ((round_trip t env b).outcome ≡ returned (some r) none)
            × (length (round_trip t env b).sent_at ≡ suc k)
      by_body (body_failed x) s = absurd s
      by_body no_body s =
          trip_from-final t env quiet waits false k (suc t.max_attempts) 0 none 0 r from_start
            (omega arith) at_k f
      by_body body_read s =
          trip_from-final t env quiet waits true k (suc t.max_attempts) 0 none 0 r from_start
            (omega arith) at_k f

  -- While the context lives and the backoff gives a wait: if all `maxAttempts` + 1 requests are
  -- replayed, then the round trip returns the response of the last one, with no error. If the last
  -- one failed, it returns neither a response nor an error.
  pub exhausted_returns_last :
      ((j : ℕ) → j ≤ t.max_attempts → Replays t env j)
      → ((round_trip t env body).outcome
          ≡ returned (response_of (reply_at t env t.max_attempts)) none)
        × (length (round_trip t env body).sent_at ≡ suc t.max_attempts)
  unfolding round_trip
  exhausted_returns_last h = by_body body sendable
    where
      from_start : (j : ℕ) → j < suc t.max_attempts → Replays t env (0 + j)
      from_start j lt = subst (Replays t env) (omega arith) (h j (omega arith))

      last :
          response_of (reply_at t env (0 + t.max_attempts))
          ≡ response_of (reply_at t env t.max_attempts)
      last = ap (λ n. response_of (reply_at t env n)) (omega arith)

      by_body :
          (b : Body)
          → IsSendable b
          → ((round_trip t env b).outcome
              ≡ returned (response_of (reply_at t env t.max_attempts)) none)
            × (length (round_trip t env b).sent_at ≡ suc t.max_attempts)
      by_body (body_failed x) s = absurd s
      by_body no_body s =
          let r = trip_from-exhausted t env quiet waits false t.max_attempts 0 none 0 from_start in
          (r.0 ∙ ap (λ o. returned o none) last, r.1)
      by_body body_read s =
          let r = trip_from-exhausted t env quiet waits true t.max_attempts 0 none 0 from_start in
          (r.0 ∙ ap (λ o. returned o none) last, r.1)

-- A client of `NewClient` sends each request at most once, whatever its options, those of
-- `WithRetries` included.
pub new_client_sends_once :
    (per_host : ℤ) (options : List ClientOption) (env : Env) (body : Body)
    → length (round_trip (new_client per_host options) env body).sent_at ≤ 1
unfolding new_client
new_client_sends_once per_host options env body =
    sends-le-max_attempts (new_client per_host options) env body
