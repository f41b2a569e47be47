-- ===== src/Tgkit/Bot.antt =====
-- tgkit/bot.go: the options of a bot, `New` and the mode of `Serve`. Handlers, clients and the
-- options of the Telegram client are known by a number, and nil is `none`.
pub mod Config
pub mod Errors
use servekit.Prelude.{
  ℕ, Bool, true, false, not, ◌&&◌, ◌||◌, Option, none, some, List, [], ◌∷◌, ◌++◌, map, ltb, leb,
  ◌==◌, if◌then◌else◌, ℤ, pos, leb_ℤ, ltb_ℤ, length, is_empty, all, Bytes,
}
use servekit.GoText.{runes, in_range}
use servekit.Tgkit.Api.{Answer, answer, fault}

-- A `Mode` is a uint8.
abbrev pub mode_polling : ℕ
mode_polling = 0

abbrev pub mode_webhook : ℕ
mode_webhook = 1

abbrev pub max_webhook_secret_token_length : ℕ
max_webhook_secret_token_length = 256

pub data BotError : Type 0 where
  -- ErrInvalidMode
  invalid_mode : ℕ → BotError
  -- ErrInvalidBotConfig
  nil_option : BotError
  bad_secret_token : BotError
  nil_default_handler : BotError
  nil_middleware : BotError
  nil_error_handler : BotError
  bad_workers : BotError
  empty_server_url : BotError
  bad_poll_timeout : BotError
  nil_http_client : BotError
  nil_telegram_option : BotError
  webhook_not_configured : BotError
  -- the error of telegram.New
  client_error : ℕ → BotError

-- The options of the Telegram client that this package makes.
pub data TelegramOption : Type 0 where
  discard_updates : TelegramOption
  discard_errors : TelegramOption
  default_handler : ℕ → TelegramOption
  middlewares_of : List ℕ → TelegramOption
  errors_handler : ℕ → TelegramOption
  webhook_secret_token : Bytes → TelegramOption
  workers_of : ℤ → TelegramOption
  allowed_updates : List Bytes → TelegramOption
  server_url : Bytes → TelegramOption
  http_client : ℤ → ℕ → TelegramOption
  skip_get_me : TelegramOption
  custom : ℕ → TelegramOption

pub record BotConfig : Type 0 where
  pub mode : ℕ
  pub webhook_configured : Bool
  pub telegram_options : List TelegramOption
  pub first_error : Option BotError

unfoldable pub keep_first : Option BotError → BotError → Option BotError
keep_first none e = some e
keep_first (some f) e = some f

unfoldable pub set_error : BotConfig → BotError → BotConfig
unfolding keep_first
set_error config e = record config { first_error = keep_first config.first_error e }

unfoldable pub add_telegram_options : List TelegramOption → BotConfig → BotConfig
add_telegram_options options config = record config {
  telegram_options = config.telegram_options ++ options;
}

unfoldable pub is_ascii_letter_or_digit : ℕ → Bool
unfolding in_range
is_ascii_letter_or_digit c = in_range b'a' b'z' c || in_range b'A' b'Z' c || in_range b'0' b'9' c

unfoldable pub is_secret_character : ℕ → Bool
unfolding is_ascii_letter_or_digit
is_secret_character c = c == b'_' || c == b'-' || is_ascii_letter_or_digit c

unfoldable pub valid_webhook_secret_token : Bytes → Bool
valid_webhook_secret_token value =
    if is_empty value || ltb max_webhook_secret_token_length (length value)
    then false
    else all is_secret_character (runes value)

-- A list with no nil, or none.
unfoldable pub not_nil : List (Option ℕ) → Option (List ℕ)
not_nil [] = some []
not_nil (none ∷ rest) = none
not_nil (some n ∷ rest) = elim (not_nil rest) [ none ↦ none | some l ↦ some (n ∷ l) ]

-- The options that the package exports, by their arguments.
pub data BotOption : Type 0 where
  with_mode : ℕ → BotOption
  with_webhook : Bytes → BotOption
  with_default_handler : Option ℕ → BotOption
  with_middlewares : List (Option ℕ) → BotOption
  with_error_handler : Option ℕ → BotOption
  with_workers : ℤ → BotOption
  with_allowed_updates : List Bytes → BotOption
  with_server_url : Bytes → BotOption
  with_http_client : ℤ → Option ℕ → BotOption
  with_skip_identity_check : BotOption
  with_telegram_options : List (Option ℕ) → BotOption

-- Add the options made of a value that is not nil, or set the error.
unfoldable pub add_or :
    {A : Type 0} → Option A → (A → List TelegramOption) → BotError → BotConfig → BotConfig
unfolding set_error add_telegram_options
add_or none f e config = set_error config e
add_or (some a) f e config = add_telegram_options (f a) config

unfoldable pub configure_webhook : Bytes → BotConfig → BotConfig
unfolding set_error add_telegram_options
configure_webhook secret config =
    if not (valid_webhook_secret_token secret)
    then set_error config bad_secret_token
    else add_telegram_options (webhook_secret_token secret ∷ [])
        (record config { mode = mode_webhook; webhook_configured = true })

unfoldable pub apply : BotOption → BotConfig → BotConfig
unfolding set_error add_telegram_options add_or configure_webhook
apply (with_mode mode) config = record config { mode = mode }
apply (with_webhook secret) config = configure_webhook secret config
apply (with_default_handler h) config =
    add_or h (λ n. default_handler n ∷ []) nil_default_handler config
apply (with_middlewares l) config =
    add_or (not_nil l) (λ ms. middlewares_of ms ∷ []) nil_middleware config
apply (with_error_handler h) config = add_or h (λ n. errors_handler n ∷ []) nil_error_handler config
apply (with_workers n) config =
    if ltb_ℤ n (pos 1)
    then set_error config bad_workers
    else add_telegram_options (workers_of n ∷ []) config
apply (with_allowed_updates updates) config =
    add_telegram_options (allowed_updates updates ∷ []) config
apply (with_server_url url) config =
    if is_empty url
    then set_error config empty_server_url
    else add_telegram_options (server_url url ∷ []) config
apply (with_http_client timeout client) config =
    if leb_ℤ timeout (pos 0)
    then set_error config bad_poll_timeout
    else add_or client (λ n. http_client timeout n ∷ []) nil_http_client config
apply with_skip_identity_check config = add_telegram_options (skip_get_me ∷ []) config
apply (with_telegram_options l) config =
    add_or (not_nil l) (λ os. map custom os) nil_telegram_option config

-- The loop over the options; a nil option sets an error and the loop goes on.
unfoldable pub apply_all : List (Option BotOption) → BotConfig → BotConfig
apply_all [] config = config
apply_all (none ∷ options) config = apply_all options (set_error config nil_option)
apply_all (some option ∷ options) config = apply_all options (apply option config)

unfoldable pub default_config : BotConfig
default_config = record {
  mode = mode_polling;
  webhook_configured = false;
  telegram_options = discard_updates ∷ discard_errors ∷ [];
  first_error = none;
}

-- The first of the checks of `New` that fails.
unfoldable pub check_config : BotConfig → Option BotError
check_config config = elim config.first_error [
  | some e ↦ some e
  | none ↦
      if not (config.mode == mode_polling) && not (config.mode == mode_webhook)
      then some (invalid_mode config.mode)
      else if (config.mode == mode_webhook) && not config.webhook_configured
      then some webhook_not_configured
      else none
]

pub record Bot (Client : Type 0) : Type 0 where
  pub client : Client
  pub mode : ℕ

pub data NewResult (Client : Type 0) : Type 0 where
  created : Bot Client → NewResult Client
  refused : BotError → NewResult Client

unfoldable pub bot_of : {Client : Type 0} → Answer Client → ℕ → NewResult Client
bot_of (answer client) mode = created (record { client = client; mode = mode })
bot_of (fault e) mode = refused (client_error e)

unfoldable pub create_unless :
    {Client : Type 0} → Option BotError → Answer Client → ℕ → NewResult Client
unfolding bot_of
create_unless none a mode = bot_of a mode
create_unless (some e) a mode = refused e

-- `telegram_new` is telegram.New with its token.
unfoldable pub new :
    {Client : Type 0}
    → (List TelegramOption → Answer Client)
    → List (Option BotOption)
    → NewResult Client
unfolding create_unless
new telegram_new options =
    let config = apply_all options default_config in
    create_unless (check_config config) (telegram_new config.telegram_options) config.mode

-- What `Serve` runs until the context ends.
pub data Serving : Type 0 where
  start_polling : Serving
  start_webhook : Serving
  bad_mode : ℕ → Serving

unfoldable pub serve : {Client : Type 0} → Bot Client → Serving
serve bot =
    if bot.mode == mode_polling
    then start_polling
    else if bot.mode == mode_webhook
    then start_webhook
    else bad_mode bot.mode
