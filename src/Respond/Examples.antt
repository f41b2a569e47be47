-- ===== src/Respond/Examples.antt =====
-- Concrete responses of httpkit and grpckit.
use servekit.GoText.{ascii}
use servekit.Prelude.{◌≡◌, refl, none, true, false, some, List, [], ◌∷◌, ℤ, pos}
use servekit.Errors.{Error, sentinel, wrap, join, opaque, not_found, already_exists}
use servekit.Respond.Http.{
  ResponseOption, with_status, new_response_options, status_or, error_http, application_json,
  text_plain, bytes, status_text, Write, executed, json, template_html,
}
use servekit.Respond.Grpc.{Code, code_internal, GrpcOptions, with_code, error_grpc}
use servekit.Respond.Classes.{table, Decides, responders_agree}

-- An error that wraps two sentinels.
abbrev both : Error
both = wrap (join (sentinel not_found) (wrap (sentinel already_exists)))

abbrev options : List ResponseOption
options = with_status (pos 418) ∷ []

abbrev grpc_options : List (GrpcOptions → GrpcOptions)
grpc_options = with_code code_internal ∷ []

responders_agree_example :
    (s : ℤ) × (c : Code) × Decides both table s c
    × ((error_http true (some both) options).status ≡ status_or s (new_response_options options))
    × ((error_grpc false (some both) grpc_options).code ≡ c)
responders_agree_example = responders_agree both true false options grpc_options

-- A connection that breaks after two bytes.
abbrev broken_write : Write
broken_write (a ∷ b ∷ c ∷ s) = (a ∷ b ∷ [], some (opaque 5))
broken_write s = (s, none)

-- The status is sent, and the error of the write goes to the hook.
half_sent :
    json true broken_write (record { content = ascii "true"; failure = none }) options ≡ record {
      status = pos 418;
      content_type = application_json;
      headers = [];
      body = bytes (ascii "tr");
      logged = some (opaque 5) ∷ [];
      reported = [];
    }
unfolding json new_response_options status_or with_status
half_sent = refl

-- Nothing of a template that failed half way is sent.
template_failed :
    template_html true broken_write
      (executed (record { content = ascii "<p>"; failure = some (opaque 3) }))
      options
    ≡ record {
      status = pos 500;
      content_type = text_plain;
      headers = [];
      body = status_text (pos 500);
      logged = some (opaque 3) ∷ [];
      reported = [];
    }
unfolding template_html with_status
template_failed = refl
