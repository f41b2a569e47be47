-- ===== src/Slackkit/Http.antt =====
-- slackkit/client.go: the configuration of the HTTP client, requests and responses.
use servekit.Prelude.{
  ℕ, Bool, ◌&&◌, Option, none, some, List, [], ◌∷◌, leb, ltb, is_empty, length, if◌then◌else◌,
  Bytes,
}
use servekit.GoText.{ascii}
use servekit.GoText.Trim.{trim_right, trim_space, take}
use servekit.Slackkit.Blocks.{Block, Notification}
use servekit.Slackkit.Checks.{Invalid}

abbrev pub default_base_url : Bytes
default_base_url = ascii "https://slack.com"

abbrev pub max_response_body_bytes : ℕ
max_response_body_bytes = 4096

-- http.DefaultClient, and any other client by a number.
pub data HttpClient : Type 0 where
  default_client : HttpClient
  other_client : ℕ → HttpClient

-- The pointer of `WithHTTPClient` may be nil.
pub data HttpOption : Type 0 where
  with_http_client : Option HttpClient → HttpOption
  with_base_url : Bytes → HttpOption

pub record HttpConfig : Type 0 where
  pub http_client : Option HttpClient
  pub base_url : Bytes

unfoldable pub apply_option : HttpOption → HttpConfig → HttpConfig
unfolding trim_right
apply_option (with_http_client c) config = record config { http_client = c }
apply_option (with_base_url url) config = record config { base_url = trim_right b'/' url }

unfoldable pub apply_options : List HttpOption → HttpConfig → HttpConfig
unfolding apply_option
apply_options [] config = config
apply_options (option ∷ options) config = apply_options options (apply_option option config)

unfoldable pub client_or_default : Option HttpClient → HttpClient
client_or_default none = default_client
client_or_default (some c) = c

-- The configuration after the options, and the two defaults put in again where they are unset.
unfoldable pub configured : List HttpOption → HttpConfig
unfolding apply_options
configured options =
    apply_options options
      (record { http_client = some default_client; base_url = default_base_url })

unfoldable pub config_client : List HttpOption → HttpClient
unfolding configured client_or_default
config_client options = client_or_default (configured options).http_client

unfoldable pub config_base_url : List HttpOption → Bytes
unfolding configured
config_base_url options =
    let url = (configured options).base_url in if is_empty url then default_base_url else url

-- http.MethodPost, and any other method by its name.
pub data Method : Type 0 where
  method_post : Method
  other_method : Bytes → Method

-- What the code sets of a request.
pub record Request : Type 0 where
  pub method : Method
  pub url : Bytes
  pub content_type : Bytes
  -- the Authorization header
  pub authorization : Option Bytes
  pub payload : Bytes

-- A response, with the bytes of its body and whether reading fails after them.
pub record Response : Type 0 where
  pub status : ℕ
  pub body : Bytes
  pub body_fails : Bool

pub record PostMessageResponse : Type 0 where
  pub ok : Bool
  pub channel : Bytes
  pub timestamp : Bytes
  pub error : Bytes

pub record PostMessageRequest : Type 0 where
  pub channel : Bytes
  pub text : Bytes
  pub blocks : List Block
  pub thread_ts : Bytes

-- What the response decoder leaves in the response, and whether it fails.
pub record Decoded : Type 0 where
  pub response : PostMessageResponse
  pub failed : Bool

pub record Calls : Type 0 where
  pub marshal_message : Notification → Option Bytes
  pub marshal_request : PostMessageRequest → Option Bytes
  -- http.NewRequestWithContext succeeds
  pub is_request_url : Bytes → Bool
  -- http.Client.Do, whose error is `none`
  pub answer : HttpClient → Request → Option Response
  -- json.NewDecoder(resp.Body).Decode(&response), from the zero response
  pub decode : Response → Decoded

pub data SendError : Type 0 where
  nil_channel : SendError
  not_valid : Invalid → SendError
  not_marshalled : SendError
  not_created : SendError
  not_sent : SendError
  unexpected_status : ℕ → Bytes → SendError
  unread_status : ℕ → SendError
  not_decoded : SendError
  -- APIError
  api_error : Bytes → SendError

-- The body up to the limit; a reader that stopped at the limit does not come to the failure.
unfoldable pub read_response_body : Response → Option Bytes
unfolding take trim_space
read_response_body r =
    if r.body_fails && ltb (length r.body) max_response_body_bytes
    then none
    else some (trim_space (take max_response_body_bytes r.body))

unfoldable pub status_error : ℕ → Option Bytes → SendError
status_error status none = unread_status status
status_error status (some body) = unexpected_status status body

-- A status from http.StatusOK on and below http.StatusMultipleChoices.
unfoldable pub is_success : ℕ → Bool
is_success status = leb 200 status && ltb status 300

unfoldable pub check_response_status : Response → Option SendError
unfolding is_success read_response_body status_error
check_response_status r =
    if is_success r.status then none else some (status_error r.status (read_response_body r))
