-- ===== src/Slackkit/Client.antt =====
-- slackkit/client.go: the sender through a webhook and the client of the Web API. An HTTP client
-- is known by a name, and what its `Do` answers, json.Marshal, json.Decoder and the parsing of a
-- request's URL are parameters.
use servekit.Prelude.{
  Bool, true, false, not, Option, none, some, List, [], ◌∷◌, ◌++◌, is_empty, if◌then◌else◌, Bytes,
}
use servekit.GoText.{ascii}
use servekit.Slackkit.Blocks.{Notification}
use servekit.Slackkit.Validate.{validate}
use servekit.Slackkit.Checks.{Invalid}
use servekit.Slackkit.Http.{
  Calls, Decoded, HttpClient, HttpOption, PostMessageRequest, PostMessageResponse, Request,
  Response, SendError, api_error, check_response_status, config_base_url, config_client,
  method_post, nil_channel, not_created, not_decoded, not_marshalled, not_sent, not_valid,
}

-- The requests that were sent, whether the body of the response was closed, and what was returned.
pub record Sent (A : Type 0) : Type 0 where
  pub requests : List Request
  pub closed : Bool
  pub returned : A

unfoldable pub unsent : {A : Type 0} → A → Sent A
unsent a = record { requests = []; closed = false; returned = a }

pub record WebhookSender : Type 0 where
  pub webhook_url : Bytes
  pub sender_client : HttpClient

unfoldable pub new_webhook_sender : Bytes → List HttpOption → WebhookSender
unfolding config_client
new_webhook_sender url options = record { webhook_url = url; sender_client = config_client options }

unfoldable pub json_request : Bytes → Option Bytes → Bytes → Request
json_request url authorization payload = record {
  method = method_post;
  url = url;
  content_type = ascii "application/json";
  authorization = authorization;
  payload = payload;
}

unfoldable pub answered_webhook : Request → Option Response → Sent (Option SendError)
unfolding check_response_status
answered_webhook q none = record { requests = q ∷ []; closed = false; returned = some not_sent }
answered_webhook q (some r) = record {
  requests = q ∷ [];
  closed = true;
  returned = check_response_status r;
}

unfoldable pub send_payload : Calls → WebhookSender → Option Bytes → Sent (Option SendError)
unfolding unsent json_request answered_webhook
send_payload calls s none = unsent (some not_marshalled)
send_payload calls s (some payload) =
    let q = json_request s.webhook_url none payload in
    if calls.is_request_url s.webhook_url
    then answered_webhook q (calls.answer s.sender_client q)
    else unsent (some not_created)

unfoldable pub send_checked :
    Calls → WebhookSender → Notification → Option Invalid → Sent (Option SendError)
unfolding unsent send_payload
send_checked calls s n (some e) = unsent (some (not_valid e))
send_checked calls s n none = send_payload calls s (calls.marshal_message n)

-- WebhookSender.Send
unfoldable pub send : Calls → WebhookSender → Notification → Sent (Option SendError)
unfolding send_checked validate
send calls s n = send_checked calls s n (validate n)

pub record Client : Type 0 where
  pub token : Bytes
  pub api_url : Bytes
  pub api_client : HttpClient

unfoldable pub new_client : Bytes → List HttpOption → Client
unfolding config_base_url config_client
new_client token options = record {
  token = token;
  api_url = config_base_url options;
  api_client = config_client options;
}

-- A response and an error.
pub record PostResult : Type 0 where
  pub response : PostMessageResponse
  pub error : Option SendError

abbrev pub zero_response : PostMessageResponse
zero_response = record { ok = false; channel = []; timestamp = []; error = [] }

unfoldable pub post_failed : SendError → PostResult
post_failed e = record { response = zero_response; error = some e }

unfoldable pub decoded_result : Decoded → PostResult
decoded_result d =
    if d.failed
    then record { response = d.response; error = some not_decoded }
    else if not d.response.ok
    then record { response = d.response; error = some (api_error d.response.error) }
    else record { response = d.response; error = none }

unfoldable pub post_checked : Calls → Response → Option SendError → PostResult
unfolding post_failed decoded_result
post_checked calls r (some e) = post_failed e
post_checked calls r none = decoded_result (calls.decode r)

unfoldable pub answered_post : Calls → Request → Option Response → Sent PostResult
unfolding post_failed post_checked check_response_status
answered_post calls q none = record {
  requests = q ∷ [];
  closed = false;
  returned = post_failed not_sent;
}
answered_post calls q (some r) = record {
  requests = q ∷ [];
  closed = true;
  returned = post_checked calls r (check_response_status r);
}

-- The request that `doPostMessage` sends.
unfoldable pub post_request : Client → Bytes → Request
unfolding json_request
post_request c payload =
    json_request (c.api_url ++ ascii "/api/chat.postMessage") (some (ascii "Bearer " ++ c.token))
      payload

unfoldable pub do_post_message : Calls → Client → Bytes → Sent PostResult
unfolding post_request answered_post unsent post_failed
do_post_message calls c payload =
    let q = post_request c payload in
    if calls.is_request_url (c.api_url ++ ascii "/api/chat.postMessage")
    then answered_post calls q (calls.answer c.api_client q)
    else unsent (post_failed not_created)

pub data Payload : Type 0 where
  payload : Bytes → Payload
  no_payload : SendError → Payload

unfoldable pub marshalled : Option Bytes → Payload
marshalled none = no_payload not_marshalled
marshalled (some s) = payload s

unfoldable pub request_of : Bytes → Notification → PostMessageRequest
request_of channel n = record {
  channel = channel;
  text = n.text;
  blocks = n.blocks;
  thread_ts = n.thread_ts;
}

unfoldable pub valid_payload : Calls → Bytes → Notification → Option Invalid → Payload
unfolding marshalled request_of
valid_payload calls channel n (some e) = no_payload (not_valid e)
valid_payload calls channel n none = marshalled (calls.marshal_request (request_of channel n))

unfoldable pub new_post_message_request : Calls → Bytes → Notification → Payload
unfolding valid_payload validate
new_post_message_request calls channel n =
    if is_empty channel then no_payload nil_channel else valid_payload calls channel n (validate n)

unfoldable pub post_payload : Calls → Client → Payload → Sent PostResult
unfolding do_post_message unsent post_failed
post_payload calls c (no_payload e) = unsent (post_failed e)
post_payload calls c (payload s) = do_post_message calls c s

-- Client.PostMessage
unfoldable pub post_message : Calls → Client → Bytes → Notification → Sent PostResult
unfolding post_payload new_post_message_request
post_message calls c channel n = post_payload calls c (new_post_message_request calls channel n)
