-- ===== src/ErrGroup.antt =====
-- golang.org/x/sync/errgroup, which server.go and the listeners call: a group whose context is
-- canceled by the first error that one of its functions returns.
pub mod Example
use servekit.Prelude.{ℕ, ◌≡◌, Bool, true, false, Option, none, some}

-- The error that is there, or else the new one.
abbrev pub first_error : {E : Type 0} → Option E → E → Option E
first_error none e = some e
first_error (some d) e = some d

-- A group by what has returned in it: `canceled` is the context of WithContext, as far as the group
-- cancels it, and `wait` what Wait returns when all its functions have returned.
pub record ErrGroup (E : Type 0) : Type 1 where
  pub Group : Type 0
  pub with_context : Group
  pub returned : Option E → Group → Group
  pub canceled : Group → Bool
  pub wait : Group → Option E
  pub canceled-with_context : canceled with_context ≡ false
  pub wait-with_context : wait with_context ≡ none
  pub canceled-returned_none : (g : Group) → canceled (returned none g) ≡ canceled g
  pub wait-returned_none : (g : Group) → wait (returned none g) ≡ wait g
  pub canceled-returned_some : (g : Group) (e : E) → canceled (returned (some e) g) ≡ true
  pub wait-returned_some : (g : Group) (e : E) → wait (returned (some e) g) ≡ first_error (wait g) e
