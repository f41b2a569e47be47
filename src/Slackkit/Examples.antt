-- ===== src/Slackkit/Examples.antt =====
-- Concrete messages of slackkit.
use servekit.Prelude.{
  ℕ, ◌≡◌, refl, ◌↔◌, true, false, none, some, List, [], ◌∷◌, ◌++◌, ◌≤◌, ◌<◌, ◌⊎◌, length, All,
}
use servekit.GoText.{ascii}
use servekit.GoText.Trim.{trim_right, trim_space}
use servekit.Slackkit.Blocks.{Block, Notification}
use servekit.Slackkit.Builders.{
  with_block_id, new_header, new_divider, new_section_fields, new_plain_text,
}
use servekit.Slackkit.Validate.{validate, validate_block}
use servekit.Slackkit.Checks.{at_block, at_field, nil_text, too_many_blocks, Invalid}
use servekit.Slackkit.Shapes.{IsNotification}
use servekit.Slackkit.Valid.{IsNotification-iff}
use servekit.Slackkit.Shapes.{IsBlockAs}
use servekit.Slackkit.First.{validate_first_error}
use servekit.Slackkit.Client.{Client, new_client, post_message}
use servekit.Slackkit.Http.{Request, PostMessageResponse, Calls, with_base_url}
use servekit.Slackkit.Sends.{IsPostOf, IsPosted, post_message-IsPostOf, post_message_ok_iff}

abbrev greeting : Notification
unfolding new_header new_divider
greeting = record {
  text = ascii "hi";
  blocks = new_header (ascii "Hello") true (with_block_id (ascii "b") ∷ []) ∷ new_divider [] ∷ [];
  thread_ts = [];
}

greeting_validates : validate greeting ≡ none
unfolding validate new_header greeting
greeting_validates = refl

IsNotification-iff_example : (validate greeting ≡ none) ↔ IsNotification greeting
IsNotification-iff_example = IsNotification-iff greeting

-- The second block has an empty field.
abbrev broken : Notification
unfolding new_section_fields new_plain_text
broken = record {
  text = [];
  blocks = new_divider [] ∷ new_section_fields (new_plain_text [] true ∷ []) [] ∷ [];
  thread_ts = [];
}

broken_error : validate broken ≡ some (at_block 1 (at_field 0 nil_text))
unfolding validate new_divider new_section_fields new_plain_text broken
broken_error = refl

validate_first_error_example :
    ((at_block 1 (at_field 0 nil_text) ≡ too_many_blocks) × (50 < length broken.blocks))
    ⊎ ((i : ℕ) × (cause : Invalid) × (before : List Block) × (b : Block) × (after : List Block)
        × (at_block 1 (at_field 0 nil_text) ≡ at_block i cause)
        × (broken.blocks ≡ before ++ (b ∷ after))
        × (i ≡ length before)
        × (length broken.blocks ≤ 50)
        × All (λ b. IsBlockAs b.kind b) before
        × (validate_block b ≡ some cause))
validate_first_error_example =
    validate_first_error broken (at_block 1 (at_field 0 nil_text)) broken_error

abbrev greeted : PostMessageResponse
greeted = record { ok = true; channel = ascii "C1"; timestamp = ascii "1.0"; error = [] }

abbrev slack : Calls
slack = record {
  marshal_message = λ n. some n.text;
  marshal_request = λ r. some (r.channel ++ r.text);
  is_request_url = λ url. true;
  answer = λ c q. some (record { status = 200; body = q.payload; body_fails = false });
  decode = λ r. record { response = greeted; failed = false };
}

abbrev poster : Client
unfolding new_client
poster = new_client (ascii "xoxb") (with_base_url (ascii "http://localhost/") ∷ [])

posts :
    (post_message slack poster (ascii "C1") greeting).returned
    ≡ record { response = greeted; error = none }
unfolding post_message poster greeting new_header new_divider
posts = refl

post_message-IsPostOf_example :
    ((post_message slack poster (ascii "C1") greeting).requests ≡ [])
    ⊎ ((q : Request) × ((post_message slack poster (ascii "C1") greeting).requests ≡ q ∷ [])
        × IsPostOf slack poster (ascii "C1") greeting q)
post_message-IsPostOf_example = post_message-IsPostOf slack poster (ascii "C1") greeting

post_message_ok_iff_example :
    ((post_message slack poster (ascii "C1") greeting).returned
      ≡ record { response = greeted; error = none })
    ↔ IsPosted slack poster (ascii "C1") greeting greeted
post_message_ok_iff_example = post_message_ok_iff slack poster (ascii "C1") greeting greeted

trims : trim_right b'/' (ascii "http://a//") ≡ ascii "http://a"
unfolding trim_right
trims = refl

trims_space : trim_space (ascii " a b ") ≡ ascii "a b"
unfolding trim_space
trims_space = refl
