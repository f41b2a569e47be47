-- ===== src/Server/Examples.antt =====
-- A concrete server of server.go.
use mathlib.Core.List.Permᴰ.{swap}
use servekit.Prelude.{ℕ, ◌≡◌, ◌↔◌, refl, Bool, false, Option, none, some, List, [], ◌∷◌, All, Bytes}
use servekit.GoText.{ascii}
use servekit.ErrGroup.Example.{first_error_group}
use servekit.Server.{Server, ServeError, listener_failed, new_server, register_listener, serve}
use servekit.Server.Results.{serve_fine_iff}

-- A name that is registered again takes the new listener.
registers_again :
    (register_listener {L = ℕ} (ascii "http") 2 (
      register_listener (ascii "grpc") 3 (register_listener (ascii "http") 1 new_server))).listeners
    ≡ (ascii "http", 2) ∷ (ascii "grpc", 3) ∷ []
unfolding register_listener new_server
registers_again = refl

-- Listeners that are known by their error, and return it when their context is canceled or not.
abbrev run_listener : Option ℕ → Bool → Option ℕ
run_listener l canceled = l

abbrev servers : Server (Option ℕ)
servers = record {
  listeners = (ascii "grpc", none) ∷ (ascii "http", some 7) ∷ (ascii "dns", some 8) ∷ [];
}

abbrev never : Bytes → Bool
never name = false

abbrev last_first : List (Bytes × Option ℕ) → List (Bytes × Option ℕ)
last_first (a ∷ b ∷ l) = b ∷ a ∷ l
last_first l = l

http_first :
    serve (first_error_group ServeError) run_listener never last_first servers
    ≡ some (listener_failed (ascii "http") 7)
unfolding serve first_error_group
http_first = refl

serve_fine_iff_example :
    (serve (first_error_group ServeError) run_listener never last_first servers ≡ none)
    ↔ All (λ entry. run_listener entry.1 false ≡ none) servers.listeners
serve_fine_iff_example =
    serve_fine_iff (first_error_group ServeError) run_listener never last_first servers
      (swap refl refl)
