-- ===== src/HttpListener/Serve.antt =====
-- httpkit/http_listener.go: `Serve` and `handleShutdown`, as the steps of the two functions that run
-- in the error group. http.Server does as documented: its ListenAndServe returns ErrServerClosed
-- only after Shutdown was called, and always returns an error.
use servekit.Prelude.{
  ℕ, ◌≡◌, ◌≢◌, Bool, true, false, ◌||◌, Option, none, some, is_empty, if◌then◌else◌, Bytes,
}
use servekit.ErrGroup.{ErrGroup}
use servekit.HttpListener.Setup.{Listener}

pub data ServeError : Type 0 where
  invalid_address : ServeError
  listener_failed : ℕ → ServeError
  -- ErrGracefullyShutdown with the error of Shutdown
  forced_stop : ℕ → ServeError

-- The http.Server call of `serveFunc`.
pub data ServeCall : Type 0 where
  listen_and_serve : ServeCall
  listen_and_serve_tls : Bytes → Bytes → ServeCall

unfoldable pub serve_func : Listener → ServeCall
serve_func l = if l.enable_tls then listen_and_serve_tls l.cert l.key else listen_and_serve

-- What ListenAndServe returns.
pub data ServeEnd : Type 0 where
  server_closed : ServeEnd
  broke : ℕ → ServeEnd

-- What the function that serves returns to the group.
unfoldable pub serve_result : ServeEnd → Option ServeError
serve_result server_closed = none
serve_result (broke e) = some (listener_failed e)

-- `handleShutdown` once its context is done, by the errors of Shutdown and of Close: whether it
-- called Close, how many errors it logged, and what it returns.
pub record Stop : Type 0 where
  pub closed : Bool
  pub logged : ℕ
  pub error : Option ServeError

unfoldable pub logged_of : Option ℕ → ℕ
logged_of none = 1
logged_of (some e) = 2

unfoldable pub handle_shutdown : Option ℕ → Option ℕ → Stop
unfolding logged_of
handle_shutdown none close = record { closed = false; logged = 0; error = none }
handle_shutdown (some e) close = record {
  closed = true;
  logged = logged_of close;
  error = some (forced_stop e);
}

pub data Phase : Type 0 where
  -- <-ctx.Done()
  waiting : Phase
  -- in Shutdown
  stopping : Phase
  -- with the error of Shutdown
  stopped : Option ℕ → Phase

-- `Serve` after both functions have started: whether the caller's context is canceled, the group,
-- what the serving function has returned, and where the shutdown is.
pub record State (G : Type 0) : Type 0 where
  pub parent_canceled : Bool
  pub tasks : G
  pub served : Option ServeEnd
  pub phase : Phase

module _ (group : ErrGroup ServeError) where
  unfoldable pub started : State group.Group
  started = record {
    parent_canceled = false;
    tasks = group.with_context;
    served = none;
    phase = waiting;
  }

  -- The context of the group is done.
  unfoldable pub is_done : State group.Group → Bool
  is_done s = s.parent_canceled || group.canceled s.tasks

  unfoldable pub serve_returns : ServeEnd → State group.Group → State group.Group
  unfolding serve_result
  serve_returns r s = record s { tasks = group.returned (serve_result r) s.tasks; served = some r }

  unfoldable pub shutdown_returns : Option ℕ → Option ℕ → State group.Group → State group.Group
  unfolding handle_shutdown
  shutdown_returns e close s =
      let stop = handle_shutdown e close in
      record s { tasks = group.returned stop.error s.tasks; phase = stopped e }

  -- The steps of the two functions and of the http.Server: ListenAndServe fails or, after Shutdown
  -- was called, returns; handleShutdown sees the group's context done; Shutdown returns.
  pub data Step : State group.Group → State group.Group → Type 0 where
    break : (s : State group.Group) (e : ℕ) → s.served ≡ none → Step s (serve_returns (broke e) s)
    close :
        (s : State group.Group)
        → s.served ≡ none
        → s.phase ≢ waiting
        → Step s (serve_returns server_closed s)
    begin :
        (s : State group.Group)
        → s.phase ≡ waiting
        → is_done s ≡ true
        → Step s (record s { phase = stopping })
    end :
        (s : State group.Group) (e close : Option ℕ)
        → s.phase ≡ stopping
        → Step s (shutdown_returns e close s)

  -- What happens next: the caller cancels its context, or a step of `Serve`.
  pub data Event : State group.Group → State group.Group → Type 0 where
    cancel : (s : State group.Group) → Event s (record s { parent_canceled = true })
    step : (s t : State group.Group) → Step s t → Event s t

  pub data Run : State group.Group → State group.Group → Type 0 where
    here : (s : State group.Group) → Run s s
    later : (s t u : State group.Group) → Run s t → Event t u → Run s u

  -- What `Serve` returns, when both functions have.
  unfoldable pub served_result : State group.Group → Option ServeError
  served_result s = group.wait s.tasks

-- The guard of `Serve`: with no address it starts nothing.
unfoldable pub refuses : Listener → Option ServeError
refuses l = if is_empty l.addr then some invalid_address else none
