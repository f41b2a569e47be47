-- ===== src/Respond/Classes.antt =====
-- How httpkit/respond.go and grpckit/respond.go tell errors apart.
use mathlib.Core.Bool.{false≢true}
use servekit.Prelude.{
  ◌≡◌, ◌↔◌, refl, Bool, true, false, some, List, [], ◌∷◌, arith, inl, inr, Bool-cases, ℤ, pos,
  subst, if◌then◌else◌,
}
use servekit.Errors.{
  Error, Sentinel, sentinel, sentinel_eq, sentinel_eq_refl, Sentinel-discrete, is, Holds, here,
  in_wrap, in_left, in_right, in_retryable, opaque, wrap, join, retryable, retryable_nil,
  already_exists, not_found, unauthenticated, unauthorized, invalid_argument, unavailable,
}
use servekit.Respond.{is_error}
use servekit.Respond.Http.{
  ResponseOption, error_status, error_http, err_http_responder, new_response_options, http_error,
  hooked, status_or,
}
use servekit.Respond.Grpc.{
  Code, code_already_exists, code_not_found, code_unauthenticated, code_permission_denied,
  code_invalid_argument, code_unavailable, code_internal, GrpcOptions, error_code, error_grpc,
}

sentinel-Holds : (s t : Sentinel) → sentinel_eq t s ≡ true → Holds s (sentinel t)
unfolding sentinel_eq
sentinel-Holds s t h =
    elim (Sentinel-discrete t s)
        as (λ d. (elim d [ yes _ ↦ true | no _ ↦ false ]) ≡ true → Holds s (sentinel t)) [
          | yes e ↦ λ k. subst (λ x. Holds x (sentinel t)) e here
          | no n ↦ λ k. absurd (false≢true k)
        ]
      h

Holds-is : (e : Error) (s : Sentinel) → is e s ≡ true → Holds s e
unfolding is
Holds-is (sentinel t) s h = sentinel-Holds s t h
Holds-is (opaque n) s h = absurd (false≢true h)
Holds-is (wrap e) s h = in_wrap (Holds-is e s h)
Holds-is (join e f) s h = elim (Bool-cases (is e s)) [
  | inl p ↦ in_left (Holds-is e s p)
  | inr p ↦ in_right (Holds-is f s (ground arith))
]
Holds-is (retryable e) s h = in_retryable (Holds-is e s h)
Holds-is retryable_nil s h = absurd (false≢true h)

is-of-Holds : {s : Sentinel} {e : Error} → Holds s e → is e s ≡ true
unfolding is
is-of-Holds {s = s} here = sentinel_eq_refl s
is-of-Holds (in_wrap h) = is-of-Holds h
is-of-Holds (in_left h) = let p = is-of-Holds h in ground arith
is-of-Holds (in_right h) = let p = is-of-Holds h in ground arith
is-of-Holds (in_retryable h) = is-of-Holds h

-- `errors.Is` finds a sentinel exactly if the tree of the error holds it: behind any number of
-- `%w`, on either side of a join, or inside a RetryableError.
is-Holds : (e : Error) (s : Sentinel) → (is e s ≡ true) ↔ Holds s e
is-Holds e s = (Holds-is e s, is-of-Holds)

-- The table of both responders: the sentinel, the HTTP status and the gRPC code, in this order.
pub record Row : Type 0 where
  pub kind : Sentinel
  pub status : ℤ
  pub code : Code

abbrev pub table : List Row
table =
    record { kind = already_exists; status = pos 409; code = code_already_exists }
    ∷ record { kind = not_found; status = pos 404; code = code_not_found }
    ∷ record { kind = unauthenticated; status = pos 401; code = code_unauthenticated }
    ∷ record { kind = unauthorized; status = pos 403; code = code_permission_denied }
    ∷ record { kind = invalid_argument; status = pos 400; code = code_invalid_argument }
    ∷ record { kind = unavailable; status = pos 503; code = code_unavailable }
    ∷ []

-- The first row whose sentinel the error holds decides, and without one it is 500 and Internal.
pub data Decides (e : Error) : List Row → ℤ → Code → Type 0 where
  no_row : Decides e [] (pos 500) code_internal
  this_row : {r : Row} {rs : List Row} → Holds r.kind e → Decides e (r ∷ rs) r.status r.code
  later_row :
      {r : Row} {rs : List Row} {status : ℤ} {code : Code}
      → ¬ Holds r.kind e
      → Decides e rs status code
      → Decides e (r ∷ rs) status code

-- The table, read by `errors.Is`.
abbrev row_status : Error → List Row → ℤ
row_status e [] = pos 500
row_status e (r ∷ rs) = if is e r.kind then r.status else row_status e rs

abbrev row_code : Error → List Row → Code
row_code e [] = code_internal
row_code e (r ∷ rs) = if is e r.kind then r.code else row_code e rs

rows-Decides : (e : Error) (rs : List Row) → Decides e rs (row_status e rs) (row_code e rs)
rows-Decides e [] = no_row
rows-Decides e (r ∷ rs) = elim (Bool-cases (is e r.kind)) [
  | inl h ↦ simp h (this_row {r = r} {rs = rs} (Holds-is e r.kind h))
  | inr h ↦ simp h (later_row {r = r} (λ k. cc (h, is-of-Holds k)) (rows-Decides e rs))
]

http_status :
    (e : Error) (has_hook : Bool) (options : List ResponseOption)
    → (error_http has_hook (some e) options).status
      ≡ status_or (row_status e table) (new_response_options options)
unfolding error_http err_http_responder http_error hooked error_status is_error
http_status e true options = refl
http_status e false options = refl

-- Both responders read the same table: the first of its rows whose sentinel the error holds gives
-- the HTTP status and the gRPC code, and an error with none of them is 500 and Internal. `WithStatus`
-- of httpkit replaces the status; no option of grpckit, `WithStatus` included, changes the code.
pub responders_agree :
    (e : Error) (hook hook' : Bool) (options : List ResponseOption)
    (grpc_options : List (GrpcOptions → GrpcOptions))
    → (s : ℤ) × (c : Code) × Decides e table s c
      × ((error_http hook (some e) options).status ≡ status_or s (new_response_options options))
      × ((error_grpc hook' (some e) grpc_options).code ≡ c)
unfolding error_grpc error_code is_error
responders_agree e hook hook' options grpc_options =
    (row_status e table, row_code e table, rows-Decides e table, http_status e hook options, refl)
