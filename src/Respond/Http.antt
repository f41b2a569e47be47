-- ===== src/Respond/Http.antt =====
-- httpkit/respond.go: the responders. A response is what the handler makes of the writer: the status
-- of its first WriteHeader, the Content-Type, the headers of the options and the body. The status is
-- passed on as it is; that net/http panics on one outside 100 to 999 is left out. What a Write of the
-- body sends, and its error, are a parameter. The headers are
-- those that the options add; what net/http makes of a Content-Type or a Content-Length among them is
-- left to it. The error responder is the default one.
use servekit.Prelude.{
  Bool, true, false, Option, none, some, List, [], ◌∷◌, ◌++◌, if◌then◌else◌, ℤ, pos, is_zero_ℤ,
  is_empty, Bytes,
}
use servekit.Errors.{
  Error, already_exists, not_found, unauthenticated, unauthorized, invalid_argument, unavailable,
}
use servekit.Respond.{is_error}

abbrev pub Header : Type 0
Header = Bytes × Bytes

-- The headers stand in the order in which they were added.
pub record ResponseOptions : Type 0 where
  pub status_code : ℤ
  pub headers : List Header
  pub report_error : Bool

abbrev pub ResponseOption : Type 0
ResponseOption = ResponseOptions → ResponseOptions

unfoldable pub with_status : ℤ → ResponseOption
with_status code o = record o { status_code = code }

unfoldable pub with_header : Bytes → Bytes → ResponseOption
with_header k v o = record o { headers = o.headers ++ ((k, v) ∷ []) }

unfoldable pub with_error_report : ResponseOption
with_error_report o = record o { report_error = true }

unfoldable pub apply_response_options : List ResponseOption → ResponseOptions → ResponseOptions
apply_response_options [] o = o
apply_response_options (option ∷ options) o = apply_response_options options (option o)

unfoldable pub new_response_options : List ResponseOption → ResponseOptions
unfolding apply_response_options
new_response_options options =
    apply_response_options options
      (record { status_code = pos 0; headers = []; report_error = false })

pub data ContentType : Type 0 where
  no_type : ContentType
  application_json : ContentType
  text_html : ContentType
  text_plain : ContentType

pub data Body : Type 0 where
  empty : Body
  bytes : Bytes → Body
  -- http.StatusText(code)
  status_text : ℤ → Body

pub record Response : Type 0 where
  pub status : ℤ
  pub content_type : ContentType
  pub headers : List Header
  pub body : Body
  -- what the log hook of the context and errkit.Report were given
  pub logged : List (Option Error)
  pub reported : List (Option Error)

-- o.statusCode, or the default if it is 0
unfoldable pub status_or : ℤ → ResponseOptions → ℤ
status_or code o = if is_zero_ℤ o.status_code then code else o.status_code

-- http.Error(w, http.StatusText(code), code)
unfoldable pub http_error : ℤ → ResponseOptions → Response
http_error code o = record {
  status = code;
  content_type = text_plain;
  headers = o.headers;
  body = status_text code;
  logged = [];
  reported = [];
}

-- The switch of `errHTTPResponder`.
unfoldable pub error_status : Option Error → ℤ
unfolding is_error
error_status err =
    if is_error err already_exists
    then pos 409
    else if is_error err not_found
    then pos 404
    else if is_error err unauthenticated
    then pos 401
    else if is_error err unauthorized
    then pos 403
    else if is_error err invalid_argument
    then pos 400
    else if is_error err unavailable
    then pos 503
    else pos 500

unfoldable pub err_http_responder : Option Error → List ResponseOption → Response
unfolding new_response_options error_status status_or http_error
err_http_responder err options =
    let o = new_response_options options in
    record (http_error (status_or (error_status err) o) o) {
      reported = if o.report_error then err ∷ [] else [];
    }

-- The hook is nil if the context has none.
unfoldable pub hooked : Bool → Option Error → Response → Response
hooked has_hook err r = if has_hook then record r { logged = err ∷ [] } else r

unfoldable pub error_http : Bool → Option Error → List ResponseOption → Response
unfolding err_http_responder hooked
error_http has_hook err options = hooked has_hook err (err_http_responder err options)

unfoldable pub status : ℤ → List ResponseOption → Response
unfolding new_response_options status_or
status code options =
    let o = new_response_options options in
    record {
      status = status_or code o;
      content_type = no_type;
      headers = o.headers;
      body = empty;
      logged = [];
      reported = [];
    }

-- What is written with a status of 200 unless the options have another.
unfoldable pub written : ContentType → Body → ResponseOptions → Response
unfolding status_or
written t body o = record {
  status = status_or (pos 200) o;
  content_type = t;
  headers = o.headers;
  body = body;
  logged = [];
  reported = [];
}

-- What Write of the response writer does with the bytes that it is given: those that are sent, and
-- its error.
abbrev pub Write : Type 0
Write = Bytes → Bytes × Option Error

unfoldable pub logged_write : Bool → Option Error → Response → Response
unfolding hooked
logged_write has_hook none r = r
logged_write has_hook (some e) r = hooked has_hook (some e) r

-- The body is written after the header, and an error of that goes to the hook.
unfoldable pub write_body : Bool → Write → Bytes → Response → Response
unfolding logged_write
write_body has_hook write content r =
    let (sent, error) = write content in
    logged_write has_hook error (record r { body = bytes sent })

-- A buffer after the encoder or the template wrote to it: its content, which may be a part of the
-- output if there is an error.
pub record Buffer : Type 0 where
  pub content : Bytes
  pub failure : Option Error

-- The error goes to the hook, and the response is a plain 500.
unfoldable pub server_error : Bool → Error → ResponseOptions → Response
unfolding hooked http_error
server_error has_hook e o = hooked has_hook (some e) (http_error (pos 500) o)

unfoldable pub json_encoded : Bool → Write → Bytes → Option Error → ResponseOptions → Response
unfolding server_error write_body written
json_encoded has_hook write content (some e) o = server_error has_hook e o
json_encoded has_hook write content none o =
    write_body has_hook write content (written application_json empty o)

-- `JSON`; the buffer is what the encoder left.
unfoldable pub json : Bool → Write → Buffer → List ResponseOption → Response
unfolding json_encoded new_response_options
json has_hook write buf options =
    json_encoded has_hook write buf.content buf.failure (new_response_options options)

-- The writes of `HTML` and `TEXT`, which return if there is nothing to write.
unfoldable pub write_unless_empty : Bool → Write → Bytes → Response → Response
unfolding write_body
write_unless_empty has_hook write v r = if is_empty v then r else write_body has_hook write v r

unfoldable pub html : Bool → Write → Bytes → List ResponseOption → Response
unfolding written write_unless_empty new_response_options
html has_hook write v options =
    write_unless_empty has_hook write v (written text_html empty (new_response_options options))

unfoldable pub text : Bool → Write → Bytes → List ResponseOption → Response
unfolding written write_unless_empty new_response_options
text has_hook write v options =
    write_unless_empty has_hook write v (written text_plain empty (new_response_options options))

-- The template was not found, or it was executed into a buffer.
pub data Templated : Type 0 where
  not_provided : Error → Templated
  executed : Buffer → Templated

unfoldable pub template_executed : Bool → Write → Bytes → Option Error → ResponseOptions → Response
unfolding server_error write_body written
template_executed has_hook write content (some e) o = server_error has_hook e o
template_executed has_hook write content none o =
    write_body has_hook write content (written text_html empty o)

unfoldable pub template_response : Bool → Write → Templated → ResponseOptions → Response
unfolding server_error template_executed
template_response has_hook write (not_provided e) o = server_error has_hook e o
template_response has_hook write (executed buf) o =
    template_executed has_hook write buf.content buf.failure o

-- `TemplateHTML`
unfoldable pub template_html : Bool → Write → Templated → List ResponseOption → Response
unfolding template_response new_response_options
template_html has_hook write t options =
    template_response has_hook write t (new_response_options options)
