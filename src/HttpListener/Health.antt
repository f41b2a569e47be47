-- ===== src/HttpListener/Health.antt =====
-- httpkit/http_listener.go: the handlers of the health checks, and what they do to the response
-- writer of net/http: the first status that is written is the one that is sent. Rendering the
-- status page is a parameter.
use servekit.Prelude.{ℕ, Bool, true, false, Option, none, some, [], ◌++◌, Bytes}
use servekit.GoText.{ascii}

-- A response writer: the header that is to be sent, the status and the type that were sent, the
-- body, and whether writes of the body go through.
pub record Writer : Type 0 where
  pub content_type : Bytes
  pub sent : Option (ℕ × Bytes)
  pub body : Bytes
  pub writable : Bool

-- w.Header().Set("Content-Type", ...)
unfoldable pub set_content_type : Bytes → Writer → Writer
set_content_type t w = record w { content_type = t }

unfoldable pub send_status : ℕ → Option (ℕ × Bytes) → Writer → Writer
send_status status none w = record w { sent = some (status, w.content_type) }
send_status status (some s) w = w

-- w.WriteHeader(status): a second call changes nothing.
unfoldable pub write_header : ℕ → Writer → Writer
unfolding send_status
write_header status w = send_status status w.sent w

unfoldable pub append_body : Bool → Bytes → Writer → Writer
append_body true s w = record w { body = w.body ++ s }
append_body false s w = w

-- w.Write(s), which sends the status 200 if none was sent; it fails if the writer is not writable.
unfoldable pub write : Bytes → Writer → Writer
unfolding write_header append_body
write s w = append_body w.writable s (write_header 200 w)

-- http.Error(w, text, status)
unfoldable pub http_error : Bytes → ℕ → Writer → Writer
unfolding set_content_type write_header write
http_error text status w =
    write (text ++ ascii "\n")
      (write_header status (set_content_type (ascii "text/plain; charset=utf-8") w))

-- The writer, the number of errors that the log hook got, and a call of a hook or a health checker
-- that is not there.
pub data Handled : Type 0 where
  handled : Writer → ℕ → Handled
  crashed : Writer → Handled

-- What a request finds: the health checker of the listener (the outcome of its check, true if it is
-- healthy), whether the context has a log hook, and the page that is rendered, if rendering works.
pub record Request : Type 0 where
  pub health : Option Bool
  pub has_hook : Bool
  pub page : Option Bytes

-- ctxkit.GetLogErrHook(r.Context())(err), and what follows it
unfoldable pub hooked : Bool → Writer → Writer → Handled
hooked true before after = handled after 1
hooked false before after = crashed before

abbrev pub unavailable : Bytes
unavailable = ascii "Service Unavailable"

abbrev pub internal_error : Bytes
internal_error = ascii "Internal Server Error"

unfoldable pub plain_ok : Writer → Writer
unfolding set_content_type write_header
plain_ok w = write_header 200 (set_content_type (ascii "text/plain; charset=utf-8") w)

-- healthCheckHandler
unfoldable pub health_check_handler : Request → Writer → Handled
unfolding plain_ok hooked http_error
health_check_handler r w = elim r.health [
  | none ↦ handled (plain_ok w) 0
  | some true ↦ handled (plain_ok w) 0
  | some false ↦ hooked r.has_hook w (http_error unavailable 503 w)
]

abbrev pub unhealthy_json : Bytes
unhealthy_json =
    ascii "{\"message\":\"Service is temporarily unavailable. Please try again later.\","
    ++ ascii "\"status\":\"503 Service Unavailable\"}\n"

abbrev pub healthy_json : Bytes
healthy_json = ascii "{\"message\":\"Service is healthy\",\"status\":\"200 OK\"}\n"

-- The unhealthy branch of `healthCheckHandlerJSON`: the encoder writes to w before http.Error.
unfoldable pub unhealthy_report : Bool → Request → Writer → Handled
unfolding hooked http_error write
unhealthy_report true r w =
    let v = write unhealthy_json w in hooked r.has_hook v (http_error unavailable 503 v)
unhealthy_report false r w =
    let v = write unhealthy_json w in hooked r.has_hook v (http_error internal_error 500 v)

unfoldable pub healthy_report : Bool → Request → Writer → Handled
unfolding hooked http_error write
healthy_report true r w = handled (write healthy_json w) 0
healthy_report false r w =
    let v = write healthy_json w in hooked r.has_hook v (http_error internal_error 500 v)

-- healthCheckHandlerJSON
unfoldable pub health_check_handler_json : Request → Writer → Handled
unfolding unhealthy_report healthy_report set_content_type
health_check_handler_json r w = elim r.health [
  | none ↦ crashed w
  | some true ↦
      healthy_report w.writable r (set_content_type (ascii "application/json; charset=utf-8") w)
  | some false ↦ unhealthy_report w.writable r w
]

-- io.Copy(w, &buf), which writes nothing of an empty page, and the hook if it fails
unfoldable pub copied_page : Bool → Request → Bytes → Writer → Handled
unfolding write hooked
copied_page true r page w = handled (write page w) 0
copied_page false r [] w = handled w 0
copied_page false r page w = let v = write page w in hooked r.has_hook v v

unfoldable pub rendered : Option Bytes → Request → Writer → Handled
unfolding hooked http_error set_content_type write_header copied_page
rendered none r w = hooked r.has_hook w (http_error internal_error 500 w)
rendered (some page) r w =
    copied_page w.writable r page
      (write_header 200 (set_content_type (ascii "text/html; charset=utf-8") w))

-- healthCheckHandlerHTML
unfoldable pub health_check_handler_html : Request → Writer → Handled
unfolding rendered
health_check_handler_html r w = elim r.health [
  | none ↦ crashed w
  | some healthy ↦ rendered r.page r w
]

-- A writer that nothing was done to.
unfoldable pub fresh : Bool → Writer
fresh writable = record { content_type = []; sent = none; body = []; writable = writable }
