-- ===== src/HttpClient/Trips.antt =====
-- What a round trip of httpkit/http_client.go does over all its attempts.
use servekit.Prelude.{
  ℕ, zero, suc, ◌+◌, ◌≤◌, ◌≡◌, refl, Bool, true, false, Option, none, [], arith, length, All, ℤ,
}
use servekit.HttpClient.Request.{Response}
use servekit.HttpClient.{
  RoundTripper, Env, Outcome, returned, Attempt, stop, again, attempt, Report, sends, rewind, sent,
  trip_from, Body, no_body, body_read, body_failed, round_trip,
}

module _ (t : RoundTripper) (env : Env) (has_body : Bool) where
  pub trip_from-stop :
      (left i position : ℕ) (res : Option Response) {o : Outcome} {b : Bool}
      → attempt t env res i ≡ stop o b
      → trip_from t env has_body (suc left) i res position
        ≡ record { outcome = o; sent_at = sends b position; sleeps = [] }
  unfolding trip_from
  trip_from-stop left i position res h = rw (h, trip_from)

  pub trip_from-again :
      (left i position : ℕ) (res : Option Response) {res' : Option Response} {d : ℤ}
      → attempt t env res i ≡ again res' d
      → trip_from t env has_body (suc left) i res position
        ≡ sent position d (
            trip_from t env has_body left
              (suc i)
              res'
              (rewind has_body (position + env.reads i) + env.late_reads i))
  unfolding trip_from
  trip_from-again left i position res h = rw (h, trip_from)

module _ (t : RoundTripper) (env : Env) (has_body : Bool) (P : ℕ → ℕ → Report → Type 0) where
  -- A statement about the attempts left, the position of the reader and the report, kept by each way
  -- in which an attempt ends.
  pub record Keeps : Type 0 where
    pub at_end :
        (position : ℕ) (res : Option Response)
        → P 0 position (record { outcome = returned res none; sent_at = []; sleeps = [] })
    pub at_stop :
        (left position i : ℕ) (res : Option Response) (o : Outcome) (b : Bool)
        → attempt t env res i ≡ stop o b
        → P (suc left) position (record { outcome = o; sent_at = sends b position; sleeps = [] })
    pub at_again :
        (left position i : ℕ) (d : ℤ) (r : Report)
        → P left (rewind has_body (position + env.reads i) + env.late_reads i) r
        → P (suc left) position (sent position d r)

  trip_step :
      Keeps
      → (left i position : ℕ) (res : Option Response) (a : Attempt) → attempt t env res i ≡ a
      → ((res' : Option Response) (position' : ℕ)
          → P left position' (trip_from t env has_body left (suc i) res' position'))
      → P (suc left) position (trip_from t env has_body (suc left) i res position)
  trip_step k left i position res (stop o b) e ih =
      rw (trip_from-stop t env has_body left i position res e) (k.at_stop left position i res o b e)
  trip_step k left i position res (again res' d) e ih =
      rw (trip_from-again t env has_body left i position res e) (
        k.at_again left position i d _
          (ih res' (rewind has_body (position + env.reads i) + env.late_reads i)))

  pub trip_induction :
      Keeps
      → (left i : ℕ) (res : Option Response) (position : ℕ)
      → P left position (trip_from t env has_body left i res position)
  unfolding trip_from
  trip_induction k zero i res position = k.at_end position res
  trip_induction k (suc left) i res position =
      trip_step k left i position res (attempt t env res i) refl
        (λ res' position'. trip_induction k left (suc i) res' position')

-- The number of requests is bounded by the attempts left.
abbrev SendsAtMost : ℕ → ℕ → Report → Type 0
SendsAtMost left position r = length r.sent_at ≤ left

SendsAtMost-Keeps : (t : RoundTripper) (env : Env) (b : Bool) → Keeps t env b SendsAtMost
unfolding sends sent
SendsAtMost-Keeps t env b = record {
  at_end = λ position res. omega arith;
  at_stop = λ left position i res o b e. ground arith;
  at_again = λ left position i d r h. omega arith;
}

-- A round trip sends its request at most once more than `maxAttempts`.
pub sends-le-max_attempts :
    (t : RoundTripper) (env : Env) (body : Body)
    → length (round_trip t env body).sent_at ≤ suc t.max_attempts
unfolding round_trip
sends-le-max_attempts t env (body_failed e) = omega arith
sends-le-max_attempts t env no_body =
    trip_induction t env false SendsAtMost (SendsAtMost-Keeps t env false) (suc t.max_attempts) 0
      none 0
sends-le-max_attempts t env body_read =
    trip_induction t env true SendsAtMost (SendsAtMost-Keeps t env true) (suc t.max_attempts) 0 none
      0

abbrev SendsFromStart : ℕ → ℕ → Report → Type 0
SendsFromStart left position r = position ≡ 0 → All (λ p. p ≡ 0) r.sent_at

-- The transport reads nothing of a body once `Do` has returned.
abbrev pub ReadsInTime : Env → Type 0
ReadsInTime env = (i : ℕ) → env.late_reads i ≡ 0
