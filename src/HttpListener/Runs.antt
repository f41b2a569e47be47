-- ===== src/HttpListener/Runs.antt =====
-- The runs of `Serve` of httpkit/http_listener.go: they do not get stuck, and what they return.
use servekit.Prelude.{
  ℕ, ◌≡◌, ◌≢◌, refl, sym, ap, ◌∙◌, ◌↔◌, Bool, true, false, ◌||◌, Option, none, some, ◌⊎◌, subst,
}
use servekit.ErrGroup.{ErrGroup, first_error}
use servekit.HttpListener.Serve.{
  ServeError, listener_failed, forced_stop, ServeEnd, server_closed, broke, serve_result, Phase,
  waiting, stopping, stopped, State, started, is_done, serve_returns, shutdown_returns, Step, Event,
  cancel, step, break, close, begin, end, Run, here, later, served_result,
}

or_true : (b : Bool) → b || true ≡ true
or_true true = refl
or_true false = refl

module _ (group : ErrGroup ServeError) where
  serve_error : Option ServeEnd → Option ServeError
  serve_error none = none
  serve_error (some r) = serve_result r

  phase_error : Phase → Option ServeError
  phase_error waiting = none
  phase_error stopping = none
  phase_error (stopped none) = none
  phase_error (stopped (some e)) = some (forced_stop e)

  -- The group has an error exactly if one of its two functions returned one, and then, and only
  -- then, it is canceled.
  record Tells (g : group.Group) (a b : Option ServeError) : Type 0 where
    clean : (group.wait g ≡ none) ↔ ((a ≡ none) × (b ≡ none))
    quiet : group.wait g ≡ none → group.canceled g ≡ false
    loud : {e : ServeError} → group.wait g ≡ some e → group.canceled g ≡ true

  Tells-start : Tells group.with_context none none
  Tells-start = record {
    clean = (λ h. (refl, refl), λ v. group.wait-with_context);
    quiet = λ h. group.canceled-with_context;
    loud = λ h. absurd (let wrong = sym group.wait-with_context ∙ h in cc);
  }

  Tells-none :
      (g : group.Group) (a b : Option ServeError) → Tells g a b → Tells (group.returned none g) a b
  Tells-none g a b v =
      let w = group.wait-returned_none g in
      let c = group.canceled-returned_none g in
      record {
        clean = (λ h. v.clean.0 (sym w ∙ h), λ h. w ∙ v.clean.1 h);
        quiet = λ h. c ∙ v.quiet (sym w ∙ h);
        loud = λ h. c ∙ v.loud (sym w ∙ h);
      }

  first_error_some : (o : Option ServeError) (e : ServeError) → first_error o e ≡ none → ⊥
  first_error_some none e h = absurd cc
  first_error_some (some d) e h = absurd cc

  Tells-some :
      (g : group.Group) (e : ServeError) (a b : Option ServeError)
      → (((a ≡ none) × (b ≡ none)) → ⊥)
      → Tells (group.returned (some e) g) a b
  Tells-some g e a b wrong =
      let w = group.wait-returned_some g e in
      let never : group.wait (group.returned (some e) g) ≡ none → ⊥ =
        λ h. first_error_some (group.wait g) e (sym w ∙ h) in
      record {
        clean = (λ h. absurd (never h), λ h. absurd (wrong h));
        quiet = λ h. absurd (never h);
        loud = λ h. group.canceled-returned_some g e;
      }

  record Inv (s : State group.Group) : Type 0 where
    tells : Tells s.tasks (serve_error s.served) (phase_error s.phase)
    begun : s.phase ≢ waiting → is_done group s ≡ true

  Inv-started : Inv (started group)
  unfolding started serve_error phase_error
  Inv-started = record { tells = Tells-start; begun = λ h. absurd (h refl) }

  Inv-Step : {s t : State group.Group} → Step group s t → Inv s → Inv t
  unfolding is_done serve_returns shutdown_returns serve_error phase_error
  Inv-Step (break s e h) v = record {
    tells =
        Tells-some s.tasks (listener_failed e) (some (listener_failed e)) (phase_error s.phase)
          (λ both. absurd (let x = both.0 in cc));
    begun = λ k.
        rw (group.canceled-returned_some s.tasks (listener_failed e)) (or_true s.parent_canceled);
  }
  Inv-Step (close s h k) v = record {
    tells =
        Tells-none s.tasks none (phase_error s.phase)
          (subst (λ a. Tells s.tasks (serve_error a) (phase_error s.phase)) h v.tells);
    begun = λ x. rw (group.canceled-returned_none s.tasks) (v.begun k);
  }
  Inv-Step (begin s h k) v = record {
    tells = (subst (λ p. Tells s.tasks (serve_error s.served) (phase_error p)) h v.tells);
    begun = λ x. k;
  }
  Inv-Step (end s none c h) v = record {
    tells =
        Tells-none s.tasks (serve_error s.served) none
          (subst (λ p. Tells s.tasks (serve_error s.served) (phase_error p)) h v.tells);
    begun = λ k.
        rw (group.canceled-returned_none s.tasks) (v.begun (λ w. absurd (let x = sym h ∙ w in cc)));
  }
  Inv-Step (end s (some e) c h) v = record {
    tells =
        Tells-some s.tasks (forced_stop e) (serve_error s.served) (some (forced_stop e))
          (λ both. absurd (let x = both.1 in cc));
    begun =
        λ k. rw (group.canceled-returned_some s.tasks (forced_stop e)) (or_true s.parent_canceled);
  }

  Inv-Event : {s t : State group.Group} → Event group s t → Inv s → Inv t
  unfolding is_done
  Inv-Event (cancel s) v = record { tells = v.tells; begun = λ k. refl }
  Inv-Event (step s t st) v = Inv-Step st v

  Run-Inv : {s t : State group.Group} → Run group s t → Inv s → Inv t
  Run-Inv (here s) v = v
  Run-Inv (later s t u r e) v = Inv-Event e (Run-Inv r v)

  -- Both functions have returned, the one that serves with what ListenAndServe returned, the other
  -- with the error of Shutdown.
  unfoldable pub IsReturned : State group.Group → ServeEnd → Option ℕ → Type 0
  IsReturned s r e = (s.served ≡ some r) × (s.phase ≡ stopped e)

  -- The caller has canceled its context, or the server has failed.
  abbrev pub MustStop : State group.Group → Type 0
  MustStop s = (s.parent_canceled ≡ true) ⊎ ((e : ℕ) × (s.served ≡ some (broke e)))

closed_of : (r : ServeEnd) → serve_result r ≡ none → r ≡ server_closed
unfolding serve_result
closed_of server_closed h = refl
closed_of (broke e) h = absurd cc

parent_done : (a b : Bool) → a || b ≡ true → b ≡ false → a ≡ true
parent_done true b h k = refl
parent_done false b h k = absurd (let x = sym h ∙ k in cc)

shutdown_clean :
    (group : ErrGroup ServeError) (e : Option ℕ) → phase_error group (stopped e) ≡ none → e ≡ none
unfolding phase_error
shutdown_clean group none h = refl
shutdown_clean group (some e) h = absurd cc

-- When both functions have returned, Serve returns no error exactly if the caller canceled the
-- context, the server was closed by Shutdown, and Shutdown returned no error.
pub serve_none_iff :
    (group : ErrGroup ServeError) (s : State group.Group) (r : ServeEnd) (e : Option ℕ)
    → Run group (started group) s
    → IsReturned group s r e
    → (served_result group s ≡ none)
      ↔ ((s.parent_canceled ≡ true) × (r ≡ server_closed) × (e ≡ none))
unfolding IsReturned serve_error phase_error is_done served_result serve_result
serve_none_iff group s r e run h =
    let v = Run-Inv group run (Inv-started group) in
    let half =
      subst (λ a. Tells group s.tasks (serve_error group a) (phase_error group s.phase)) h.0
        v.tells in
    let told : Tells group s.tasks (serve_result r) (phase_error group (stopped e)) =
      subst (λ p. Tells group s.tasks (serve_result r) (phase_error group p)) h.1 half in
    let done = v.begun (λ w. absurd (let x = sym h.1 ∙ w in cc)) in
    (
      λ w. (
        parent_done s.parent_canceled (group.canceled s.tasks) done (told.quiet w),
        closed_of r (told.clean.0 w).0,
        shutdown_clean group e (told.clean.0 w).1,
      ),
      λ y. told.clean.1 (ap serve_result y.1, ap (λ x. phase_error group (stopped x)) y.2),
    )
