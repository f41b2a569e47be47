-- ===== src/Slackkit/Sends.antt =====
-- What the clients of slackkit/client.go send, and when they succeed.
use servekit.Prelude.{
  ℕ, ◌≤◌, ◌<◌, ◌≡◌, refl, ◌↔◌, true, false, Option, none, some, [], ◌∷◌, ◌++◌, arith, length,
  is_empty, Bytes, Bool-cases, Option-cases, inl, inr, ◌⊎◌, ◌∙◌, ap, sym, subst,
}
use servekit.GoText.{ascii}
use servekit.Slackkit.Blocks.{Notification}
use servekit.Slackkit.Validate.{validate}
use servekit.Slackkit.Shapes.{IsNotification}
use servekit.Slackkit.Valid.{IsNotification-iff}
use servekit.Slackkit.Client.{
  Sent, Client, PostResult, decoded_result, post_checked, answered_post, post_request, json_request,
  do_post_message, Payload, payload, no_payload, marshalled, request_of, valid_payload,
  new_post_message_request, post_payload, post_message, unsent, post_failed,
}
use servekit.Slackkit.Http.{
  Request, Response, PostMessageResponse, Decoded, Calls, SendError, method_post, is_success,
  check_response_status,
}

-- The request of a message that may be posted.
pub record IsPostOf (calls : Calls) (c : Client) (channel : Bytes) (n : Notification) (q : Request)
    : Type 0 where
  pub channel_given : 1 ≤ length channel
  pub valid : IsNotification n
  pub is_post : q.method ≡ method_post
  pub endpoint : q.url ≡ c.api_url ++ ascii "/api/chat.postMessage"
  pub json_type : q.content_type ≡ ascii "application/json"
  pub bearer : q.authorization ≡ some (ascii "Bearer " ++ c.token)
  pub of_message :
      calls.marshal_request
        (record { channel = channel; text = n.text; blocks = n.blocks; thread_ts = n.thread_ts })
      ≡ some q.payload

post_request-IsPostOf :
    (calls : Calls) (c : Client) (channel : Bytes) (n : Notification) (s : Bytes)
    → (1 ≤ length channel)
      × IsNotification n
      × (calls.marshal_request (request_of channel n) ≡ some s)
    → IsPostOf calls c channel n (post_request c s)
unfolding post_request json_request request_of
post_request-IsPostOf calls c channel n s v = record {
  channel_given = v.0;
  valid = v.1;
  is_post = refl;
  endpoint = refl;
  json_type = refl;
  bearer = refl;
  of_message = v.2;
}

payload_of :
    (calls : Calls) (channel : Bytes) (n : Notification) (s : Bytes)
    → new_post_message_request calls channel n ≡ payload s
    → (1 ≤ length channel)
      × IsNotification n
      × (calls.marshal_request (request_of channel n) ≡ some s)
unfolding new_post_message_request valid_payload marshalled
payload_of calls channel n s h = elim (Option-cases (validate n)) [
  | inl fine ↦ elim (Option-cases (calls.marshal_request (request_of channel n))) [
    | inl e ↦ absurd (ground arith)
    | inr (t, e) ↦ (ground arith, (IsNotification-iff n).0 fine, e ∙ grind arith)
  ]
  | inr (cause, bad) ↦ elim (Bool-cases (is_empty channel)) [
    | inl f ↦ absurd (ground arith)
    | inr f ↦ absurd (ground arith)
  ]
]

payload_of_message :
    (calls : Calls) (channel : Bytes) (n : Notification) (s : Bytes)
    → 1 ≤ length channel
    → IsNotification n
    → calls.marshal_request (request_of channel n) ≡ some s
    → new_post_message_request calls channel n ≡ payload s
unfolding new_post_message_request valid_payload marshalled
payload_of_message calls channel n s given v e =
    let fine = (IsNotification-iff n).1 v in ground (arith, given, fine, e)

Payload-cases :
    (p : Payload) → ((e : SendError) × (p ≡ no_payload e)) ⊎ ((s : Bytes) × (p ≡ payload s))
Payload-cases (no_payload e) = inl (e, refl)
Payload-cases (payload s) = inr (s, refl)

requests_of_answer :
    (calls : Calls) (q : Request) (r : Option Response)
    → (answered_post calls q r).requests ≡ q ∷ []
unfolding answered_post
requests_of_answer calls q none = refl
requests_of_answer calls q (some r) = refl

-- PostMessage sends at most one request, and only for a channel that is not empty and a message
-- that is well formed: a POST of JSON to the base URL's /api/chat.postMessage with the bearer token
-- of the client, whose body is the JSON of the channel and the message's text, blocks and thread.
pub post_message-IsPostOf :
    (calls : Calls) (c : Client) (channel : Bytes) (n : Notification)
    → ((post_message calls c channel n).requests ≡ [])
      ⊎ ((q : Request) × ((post_message calls c channel n).requests ≡ q ∷ [])
          × IsPostOf calls c channel n q)
unfolding post_message post_payload do_post_message unsent
post_message-IsPostOf calls c channel n =
    elim (Payload-cases (new_post_message_request calls channel n)) [
      | inl (e, none_made) ↦ inl (ground arith)
      | inr (s, is_made) ↦
          let v = payload_of calls channel n s is_made in
          elim (Bool-cases (calls.is_request_url (c.api_url ++ ascii "/api/chat.postMessage"))) [
            | inl fine ↦ inr (
              post_request c s,
              ground (
                arith,
                requests_of_answer calls (post_request c s)
                    (calls.answer c.api_client (post_request c s)),
              ),
              post_request-IsPostOf calls c channel n s v,
            )
            | inr bad ↦ inl (ground arith)
          ]
    ]

-- A post that Slack answered with a success.
pub record IsPosted (calls : Calls) (c : Client) (channel : Bytes) (n : Notification)
    (a : PostMessageResponse) : Type 0 where
  pub channel_given : 1 ≤ length channel
  pub valid : IsNotification n
  pub json : Bytes
  pub of_message : calls.marshal_request (request_of channel n) ≡ some json
  pub url_fine : calls.is_request_url (c.api_url ++ ascii "/api/chat.postMessage") ≡ true
  pub answer : Response
  pub answered : calls.answer c.api_client (post_request c json) ≡ some answer
  pub success : (200 ≤ answer.status) × (answer.status < 300)
  pub decoded : (calls.decode answer).failed ≡ false
  pub accepted : a.ok ≡ true
  pub body : (calls.decode answer).response ≡ a

is_success_iff : (status : ℕ) → (is_success status ≡ true) ↔ ((200 ≤ status) × (status < 300))
unfolding is_success
is_success_iff status = (λ h. (ground arith, ground arith), λ v. ground (arith, v.0, v.1))

success_of :
    (r : Response) → (check_response_status r ≡ none) ↔ ((200 ≤ r.status) × (r.status < 300))
unfolding check_response_status
success_of r = (
  λ h. elim (Bool-cases (is_success r.status)) [
    | inl e ↦ (is_success_iff r.status).0 e
    | inr e ↦ absurd cc
  ],
  λ v. let e = (is_success_iff r.status).1 v in rw e refl,
)

ok_result : PostMessageResponse → PostResult
ok_result a = record { response = a; error = none }

decoded_ok :
    (d : Decoded) (a : PostMessageResponse)
    → (decoded_result d ≡ ok_result a) ↔ ((d.failed ≡ false) × (a.ok ≡ true) × (d.response ≡ a))
unfolding decoded_result ok_result
decoded_ok d a = (
  to,
  λ v.
      subst (λ b. (b.ok ≡ true) → decoded_result d ≡ ok_result b) v.2 (λ fine. rw (v.0, fine) refl)
        v.1,
)
  where
    to : decoded_result d ≡ ok_result a → (d.failed ≡ false) × (a.ok ≡ true) × (d.response ≡ a)
    to h =
        let same = ap (λ (x : PostResult). x.response) h in
        let fine = ap (λ (x : PostResult). x.error) h in
        elim (Bool-cases d.failed) [
          | inl e ↦ absurd (ground arith)
          | inr e ↦ elim (Bool-cases d.response.ok) [
            | inl f ↦
                let whole : decoded_result d ≡ ok_result d.response = rw (e, f) refl in
                let body = sym (ap (λ (x : PostResult). x.response) whole) ∙ same in
                (e, subst (λ (x : PostMessageResponse). x.ok ≡ true) body f, body)
            | inr f ↦ absurd (ground arith)
          ]
        ]

-- The post once its payload is there and its URL is one.
post_made :
    (calls : Calls) (c : Client) (channel : Bytes) (n : Notification) (s : Bytes)
    → new_post_message_request calls channel n ≡ payload s
    → calls.is_request_url (c.api_url ++ ascii "/api/chat.postMessage") ≡ true
    → post_message calls c channel n
      ≡ answered_post calls (post_request c s) (calls.answer c.api_client (post_request c s))
unfolding post_message post_payload do_post_message
post_made calls c channel n s made fine = rw (made, fine) refl

answered_ok :
    (calls : Calls) (q : Request) (r : Option Response) (a : PostMessageResponse)
    → (answered_post calls q r).returned ≡ ok_result a
    → (answer : Response) × (r ≡ some answer)
      × (check_response_status answer ≡ none)
      × (decoded_result (calls.decode answer) ≡ ok_result a)
unfolding answered_post post_checked post_failed ok_result
answered_ok calls q none a h = absurd (ground arith)
answered_ok calls q (some r) a h = elim (Option-cases (check_response_status r)) [
  | inl e ↦ (r, refl, e, sym (ap (post_checked calls r) e) ∙ h)
  | inr (e, bad) ↦
      let shown = sym (ap (post_checked calls r) bad) ∙ h in
      let not_none = ap (λ (x : PostResult). x.error) shown in absurd cc
]

-- PostMessage returns a response with no error exactly if the channel is given, the message is well
-- formed and turned into JSON, and Slack answered the request with a 2xx status and a body that
-- decodes to this response, with ok = true.
pub post_message_ok_iff :
    (calls : Calls) (c : Client) (channel : Bytes) (n : Notification) (a : PostMessageResponse)
    → ((post_message calls c channel n).returned ≡ record { response = a; error = none })
      ↔ IsPosted calls c channel n a
unfolding post_message post_payload do_post_message ok_result
post_message_ok_iff calls c channel n a = (to, from)
  where
    path : Bytes
    path = c.api_url ++ ascii "/api/chat.postMessage"

    to : (post_message calls c channel n).returned ≡ ok_result a → IsPosted calls c channel n a
    to h = elim (Payload-cases (new_post_message_request calls channel n)) [
      | inl (e, bad) ↦ absurd (ground arith)
      | inr (s, made) ↦
          let v = payload_of calls channel n s made in
          elim (Bool-cases (calls.is_request_url path)) [
            | inl fine ↦
                let q = post_request c s in
                let r = answered_ok calls q (calls.answer c.api_client q) a (
                  sym (
                    ap (λ (x : Sent PostResult). x.returned)
                      (post_made calls c channel n s made fine))
                  ∙ h) in
                let d = (decoded_ok (calls.decode r.0) a).0 r.3 in
                record {
                  channel_given = v.0;
                  valid = v.1;
                  json = s;
                  of_message = v.2;
                  url_fine = fine;
                  answer = r.0;
                  answered = r.1;
                  success = (success_of r.0).0 r.2;
                  decoded = d.0;
                  accepted = d.1;
                  body = d.2;
                }
            | inr bad ↦ absurd (ground arith)
          ]
    ]

    from : IsPosted calls c channel n a → (post_message calls c channel n).returned ≡ ok_result a
    from v =
        let made = payload_of_message calls channel n v.json v.channel_given v.valid v.of_message in
        let fine = (success_of v.answer).1 v.success in
        let whole = (decoded_ok (calls.decode v.answer) a).1 (v.decoded, v.accepted, v.body) in
        let q = post_request c v.json in
        let got : (answered_post calls q (calls.answer c.api_client q)).returned ≡ ok_result a =
          rw (v.answered, fine) whole in
        ap (λ (x : Sent PostResult). x.returned)
          (post_made calls c channel n v.json made v.url_fine)
        ∙ got
