-- ===== src/Tgkit/MiniApp.antt =====
-- tgkit/miniapp.go: Mini Apps, their buttons and calls, and direct links. url.ParseRequestURI and
-- the Bot API are parameters. The four kinds of buttons hold the same text and URL.
pub mod Links
mod Examples
use servekit.Prelude.{
  ℕ, zero, suc, ◌-◌, Bool, true, false, not, ◌&&◌, ◌||◌, Option, none, some, List, [], ◌∷◌, ◌++◌,
  ltb, ◌==◌, if◌then◌else◌, length, is_empty, all, any, Bytes, bytes_eq,
}
use servekit.GoText.{ascii, runes, is_blank}
use servekit.GoText.Trim.{trim_space, has_prefix}
use servekit.GoText.Escape.{query_escape}
use servekit.Tgkit.Api.{
  TgError, Result, ok, err, Answer, answer, fault, api_error, check_telegram_result,
}
use servekit.Tgkit.Bot.{is_ascii_letter_or_digit}
use servekit.Tgkit.Channel.{ChatId}

pub data MiniAppError : Type 0 where
  -- ErrInvalidMiniApp
  unparsed_url : MiniAppError
  bad_url : MiniAppError
  empty_text : MiniAppError
  empty_query : MiniAppError
  bad_username : MiniAppError
  bad_short_name : MiniAppError
  bad_mode : MiniAppError
  -- ErrMiniAppNotBound
  not_bound : MiniAppError
  -- what the client answered
  telegram : TgError → MiniAppError

pub data Outcome (A : Type 0) : Type 0 where
  done : A → Outcome A
  failed : MiniAppError → Outcome A

-- What the check reads of a parsed URL.
pub record ParsedUrl : Type 0 where
  pub scheme : Bytes
  pub host : Bytes
  pub has_user : Bool

unfoldable pub check_parsed : Option ParsedUrl → Option MiniAppError
check_parsed none = some unparsed_url
check_parsed (some u) =
    if not (bytes_eq u.scheme (ascii "https")) || is_empty u.host || u.has_user
    then some bad_url
    else none

pub record MiniApp : Type 0 where
  -- whether `bot` is not nil
  pub bound : Bool
  pub url : Bytes

unfoldable pub app_unless : Option MiniAppError → Bool → Bytes → Outcome MiniApp
app_unless none bound url = done (record { bound = bound; url = url })
app_unless (some e) bound url = failed e

-- NewMiniApp, and Bot.MiniApp with `bound`
unfoldable pub new_mini_app : (Bytes → Option ParsedUrl) → Bool → Bytes → Outcome MiniApp
unfolding check_parsed app_unless
new_mini_app parse bound url = app_unless (check_parsed (parse url)) bound url

pub record Button : Type 0 where
  pub text : Bytes
  pub web_app_url : Bytes

-- KeyboardButton, InlineButton, InlineQueryButton, MenuButton
unfoldable pub button : MiniApp → Bytes → Outcome Button
button a text =
    if is_blank text then failed empty_text else done (record { text = text; web_app_url = a.url })

pub record SetMenu : Type 0 where
  -- a nil chat is the default of all chats
  pub chat_id : Option ChatId
  pub menu : Button

pub record AnswerWebApp (R : Type 0) : Type 0 where
  pub query_id : Bytes
  pub result : R

-- The request that was sent, if any, and the result.
pub record Called (Q A : Type 0) : Type 0 where
  pub request : Option Q
  pub outcome : Outcome A

unfoldable pub telegram_outcome : {A : Type 0} → Result A → Outcome A
telegram_outcome (ok a) = done a
telegram_outcome (err e) = failed (telegram e)

unfoldable pub set_menu_with :
    (SetMenu → Answer Bool) → Option ChatId → Outcome Button → Called SetMenu Unit
unfolding telegram_outcome check_telegram_result
set_menu_with api chat_id (failed e) = record { request = none; outcome = failed e }
set_menu_with api chat_id (done b) =
    let q : SetMenu = record { chat_id = chat_id; menu = b } in
    record { request = some q; outcome = telegram_outcome (check_telegram_result (api q)) }

unfoldable pub set_menu_button :
    (SetMenu → Answer Bool) → MiniApp → Option ChatId → Bytes → Called SetMenu Unit
unfolding set_menu_with button
set_menu_button api a chat_id text =
    if not a.bound
    then record { request = none; outcome = failed not_bound }
    else set_menu_with api chat_id (button a text)

unfoldable pub answered : {A : Type 0} → Answer A → Outcome A
answered (answer m) = done m
answered (fault e) = failed (telegram (api_error e))

unfoldable pub answer_query :
    {R M : Type 0} → (AnswerWebApp R → Answer M) → MiniApp → Bytes → R → Called (AnswerWebApp R) M
unfolding answered
answer_query {R} {M} api a query_id result =
    let q : AnswerWebApp R = record { query_id = query_id; result = result } in
    if not a.bound
    then record { request = none; outcome = failed not_bound }
    else if is_blank query_id
    then record { request = none; outcome = failed empty_query }
    else record { request = some q; outcome = answered (api q) }

-- The mode is a string, of which two values are known.
pub data MiniAppMode : Type 0 where
  mode_default : MiniAppMode
  mode_compact : MiniAppMode
  other_mode : Bytes → MiniAppMode

abbrev pub min_bot_username_length : ℕ
min_bot_username_length = 5

abbrev pub max_bot_username_length : ℕ
max_bot_username_length = 32

-- strings.EqualFold of three bytes and "bot"; no other rune folds to one of its letters.
unfoldable pub folds_to_bot : Bytes → Bool
folds_to_bot (b ∷ o ∷ t ∷ []) =
    (b == b'b' || b == b'B') && (o == b'o' || o == b'O') && (t == b't' || t == b'T')
folds_to_bot _ = false

unfoldable pub drop : ℕ → Bytes → Bytes
drop zero s = s
drop (suc n) [] = []
drop (suc n) (c ∷ s) = drop n s

unfoldable pub valid_bot_username : Bytes → Bool
unfolding folds_to_bot drop is_ascii_letter_or_digit runes
valid_bot_username value =
    if ltb (length value) min_bot_username_length
      || ltb max_bot_username_length (length value)
      || not (folds_to_bot (drop (length value - 3) value))
    then false
    else all (λ c. c == b'_' || is_ascii_letter_or_digit c) (runes value)

unfoldable pub valid_mini_app_short_name : Bytes → Bool
unfolding is_ascii_letter_or_digit runes
valid_mini_app_short_name value =
    if is_empty value
    then false
    else all (λ c. c == b'-' || c == b'_' || is_ascii_letter_or_digit c) (runes value)

-- strings.TrimPrefix(s, "@")
unfoldable pub trim_at : Bytes → Bytes
trim_at [] = []
trim_at (c ∷ s) = if c == b'@' then s else c ∷ s

unfoldable pub username_of : Bytes → Bytes
unfolding trim_at trim_space
username_of name = trim_at (trim_space name)

-- strings.Join(parts, "&")
unfoldable pub join_query : List Bytes → Bytes
join_query [] = []
join_query (part ∷ []) = part
join_query (part ∷ next ∷ parts) = part ++ (b'&' ∷ join_query (next ∷ parts))

unfoldable pub start_part : Bytes → Bytes → List Bytes
unfolding query_escape
start_part short_name [] = if is_empty short_name then ascii "startapp" ∷ [] else []
start_part short_name (c ∷ start) = (ascii "startapp=" ++ query_escape (c ∷ start)) ∷ []

unfoldable pub mode_part : MiniAppMode → List Bytes
mode_part mode_compact = ascii "mode=compact" ∷ []
mode_part _ = []

unfoldable pub raw_query : Bytes → Bytes → MiniAppMode → Bytes
unfolding join_query start_part mode_part
raw_query short_name start mode = join_query (start_part short_name start ++ mode_part mode)

unfoldable pub link_path : Bytes → Bytes → Bytes
link_path username short_name =
    ascii "/" ++ (username ++ (if is_empty short_name then [] else ascii "/" ++ short_name))

-- url.URL.String() for a path in which nothing has to be escaped
unfoldable pub link_string : Bytes → Bytes → Bytes
link_string path query =
    ascii "https://t.me" ++ (path ++ (if is_empty query then [] else b'?' ∷ query))

unfoldable pub is_known : MiniAppMode → Bool
is_known (other_mode s) = false
is_known _ = true

-- MiniAppLink
unfoldable pub mini_app_link : Bytes → Bytes → Bytes → MiniAppMode → Outcome Bytes
unfolding username_of valid_bot_username valid_mini_app_short_name is_known raw_query link_path
    link_string
mini_app_link name short_name start mode =
    if not (valid_bot_username (username_of name))
    then failed bad_username
    else if not (is_empty short_name) && not (valid_mini_app_short_name short_name)
    then failed bad_short_name
    else if not (is_known mode)
    then failed bad_mode
    else done
        (link_string (link_path (username_of name) short_name) (raw_query short_name start mode))
