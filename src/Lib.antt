-- ===== src/Lib.antt =====
-- A model of servekit, a Go library of building blocks for services.
--
-- The parts that are modelled, and the files that model them:
--   Prelude     Boolean tests, lists and integers shared by all parts: int64 values are the integers
--               ℤ with `wrap64` after each sum, uint values are ℕ, strings are lists of bytes.
--   GoText      what the code uses of strings, unicode/utf8 and strconv: the runes of a string with
--               RuneError for invalid bytes, TrimSpace(s) == "", ParseInt; Query has ParseQuery and hex.
--   Errors      error values as trees (errkit/errors.go, retry/retry.go) with errors.Is and errors.As.
--   Retry       retry/retry.go and tern/ternary.go. `do_retry` is `Do`, `round` one round of its loop,
--               `Env` what the context, the function and the timer do in each round. Strategies has
--               the types of Backoff and their `Next`.
--   HttpClient  httpkit/http_client.go. `round_trip` is `RoundTrip`, `attempt` one pass of its loop,
--               Request is `doRequest`, Options is `NewClient` with its options. It takes the backoffs
--               and the options of Retry.
--   Tgkit       tgkit. Invoice is `validateInvoice`, Payments and Updates are payments.go, Channel is
--               channel.go, Bot is bot.go, InitData is miniapp_auth.go, MiniApp
--               is miniapp.go. An operation is a function
--               that gives the request it sends, if any, and its result.
--   Litekit     dbkit/litekit. Modes is conn.go: the modes as text and `connString`. Evolver is
--               schema_evolution.go: `mutate_schema` is `MutateSchema`.
--   Slackkit    slackkit. Blocks, Builders, Checks and Validate are slack.go, Http and Client are
--               client.go: `validate` is the method of Notification, `post_message` is `PostMessage`.
--   Jwtkit      authkit/jwtkit: Token is jwt.go, Keys and Provider are jwks.go, Documents the
--               specification of the provider.
--   HttpListener  httpkit/http_listener.go: Config has the options, Setup is `NewListenerHTTP`, Health
--               the health handlers, Serve has `Serve` and `handleShutdown` as a step relation.
--   Grpckit     grpckit: Listener is grpc_listener.go, Interceptors is interceptors.go.
--   Idkit       idkit/id.go: `digi_code` and `validate_digi_code`.
--   Server      server.go: `register_listener` and `serve`.
--   ErrGroup    the interface of golang.org/x/sync/errgroup that both Serve use.
--   Respond     httpkit/respond.go (Http) and grpckit/respond.go (Grpc): the default responders for
--               errors and the writers of JSON, HTML, text and templates. What a handler makes of the
--               response writer is one record.
-- The children of each file hold its theorems, named for what they are about, and Examples holds
-- concrete runs.
--
-- What is a parameter: the Bot API and telegram.New (functions from a request to an answer), the
-- network, the circuit breaker, the error group, what the router can mount, the status page, the
-- context and the clock (environments indexed by the attempt), the checks of tokens and keys,
-- rand.Int, rand.Int64N (any function; where a bound needs it, one that draws below its argument, as
-- documented), unicode.IsNumber, unicode.ToLower past ASCII, HMAC-SHA-256, Ed25519, base64 and JSON
-- decoding, the SQL engine (a function on schemas that may fail, and what a transaction that failed
-- leaves), the directory of the mutations, the success of each call of the database, the writes to a
-- response, when the transport reads a request's body, and what the listeners of a server return,
-- and when.
--
-- Loops: `do_from` recurses on the rounds that are left and `trip_from` on the attempts that are
-- left, starting from the bounds of the Go loops, so they need no fuel. `decimal` has room for
-- the 19 digits that an int64 has at most, `digi_code_from` recurses on the digits
-- that are left, the runs of Serve are a step relation. The others recurse on lists.
--
-- What is assumed: the float64 intervals of the backoffs are whole milliseconds below 2 ^ 53, where
-- float64 is exact, and durations are not negative; the scripts of a migration do not touch the
-- table schema_version; the caller's slices and options are not changed by others during a call.
--
-- What is not modelled: the run of the error group in Serve of grpckit, the HTTP middlewares,
-- the other packages of authkit, the ULIDs and XIDs of idkit, logkit, mailkit, the other packages of
-- dbkit, the connections and backups of litekit, and getters.
-- They mostly call other packages; those with logic of their own can be added beside these files.
pub mod Prelude
pub mod GoText
pub mod Errors
pub mod Retry
pub mod HttpClient
pub mod Tgkit
pub mod Litekit
pub mod Respond
pub mod Slackkit
pub mod ErrGroup
pub mod Grpckit
pub mod HttpListener
pub mod Idkit
pub mod Jwtkit
pub mod Server
