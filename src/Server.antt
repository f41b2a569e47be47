-- ===== src/Server.antt =====
-- server.go: the listeners of a server, and `Serve` over an error group. What the Serve of a listener
-- returns, and the order in which the listeners return, are parameters.
pub mod Results
mod Examples
use servekit.Prelude.{
  ℕ, Bool, ◌||◌, Option, none, some, List, [], ◌∷◌, if◌then◌else◌, Bytes, bytes_eq,
}
use servekit.ErrGroup.{ErrGroup}

-- The map of listeners, as its entries; L is the type of listeners.
pub record Server (L : Type 0) : Type 0 where
  pub listeners : List (Bytes × L)

unfoldable pub new_server : {L : Type 0} → Server L
new_server = record { listeners = [] }

-- listeners[name] = listener
unfoldable pub set_entry : {L : Type 0} → Bytes → L → List (Bytes × L) → List (Bytes × L)
set_entry name l [] = (name, l) ∷ []
set_entry name l (entry ∷ rest) =
    let others = set_entry name l rest in
    if bytes_eq entry.0 name then (name, l) ∷ rest else entry ∷ others

unfoldable pub register_listener : {L : Type 0} → Bytes → L → Server L → Server L
unfolding set_entry
register_listener name l s = record s { listeners = set_entry name l s.listeners }

-- "listener %s failed: %w"
pub data ServeError : Type 0 where
  listener_failed : Bytes → ℕ → ServeError

unfoldable pub wrapped : Bytes → Option ℕ → Option ServeError
wrapped name none = none
wrapped name (some e) = some (listener_failed name e)

-- `run l canceled` is what Serve of the listener returns, an error or `none`, if the context that it
-- was given is canceled by then or not; `parent name` tells whether the caller had canceled its
-- context when the listener of this name returned.
module _ {L : Type 0} (group : ErrGroup ServeError) (run : L → Bool → Option ℕ)
    (parent : Bytes → Bool) where
  -- The function of one listener, which is given the context of the group.
  unfoldable pub returns : Bytes × L → group.Group → group.Group
  unfolding wrapped
  returns entry g =
      group.returned (wrapped entry.0 (run entry.1 (parent entry.0 || group.canceled g))) g

  -- The group after these listeners have returned, in this order.
  unfoldable pub all_returned : List (Bytes × L) → group.Group → group.Group
  unfolding returns
  all_returned [] g = g
  all_returned (entry ∷ entries) g = all_returned entries (returns entry g)

  -- `Serve` starts all listeners of the server and waits; `order` puts them in the order in which
  -- they return.
  unfoldable pub serve : (List (Bytes × L) → List (Bytes × L)) → Server L → Option ServeError
  unfolding all_returned
  serve order s = group.wait (all_returned (order s.listeners) group.with_context)
