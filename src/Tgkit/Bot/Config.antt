-- ===== src/Tgkit/Bot/Config.antt =====
-- What holds of the bots that `New` of tgkit/bot.go makes.
use mathlib.Core.Bool.{false≢true}
use mathlib.Core.List.Memᴰ
use mathlib.Core.List.{Memᴰ}
use servekit.Prelude.{
  ℕ, ◌≡◌, refl, Bool, true, false, Option, none, some, List, [], ◌∷◌, arith, ◌⊎◌, inl, inr,
  is_empty, Bytes, Bool-cases, ◌∙◌, if◌then◌else◌, ltb_ℤ, leb_ℤ, pos,
}
use servekit.Tgkit.Api.{Answer, answer, fault}
use servekit.Tgkit.Bot.{
  BotError, TelegramOption, webhook_secret_token, BotConfig, set_error, add_telegram_options,
  valid_webhook_secret_token, BotOption, with_mode, with_webhook, add_or, configure_webhook, apply,
  apply_all, default_config, check_config, Bot, created, create_unless, bot_of, new, mode_polling,
  mode_webhook, start_polling, start_webhook, serve, nil_option, bad_secret_token, bad_workers,
  empty_server_url, bad_poll_timeout, not_nil, with_default_handler, with_middlewares,
  with_error_handler, with_workers, with_allowed_updates, with_server_url, with_http_client,
  with_skip_identity_check, with_telegram_options,
}

-- The options hand a valid secret to the Telegram client.
abbrev pub HasSecret : List TelegramOption → Type 0
HasSecret options =
    (secret : Bytes) × (valid_webhook_secret_token secret ≡ true)
    × Memᴰ (webhook_secret_token secret) options

abbrev IsSecured : BotConfig → Type 0
IsSecured config = config.webhook_configured ≡ true → HasSecret config.telegram_options

add_telegram_options-IsSecured :
    (options : List TelegramOption) (config : BotConfig)
    → IsSecured config
    → IsSecured (add_telegram_options options config)
unfolding add_telegram_options
add_telegram_options-IsSecured options config h w =
    let (secret, valid, m) = h w in (secret, valid, Memᴰ.append_left options m)

set_error-IsSecured :
    (config : BotConfig) (e : BotError) → IsSecured config → IsSecured (set_error config e)
unfolding set_error
set_error-IsSecured config e h w = h w

add_or-IsSecured :
    {A : Type 0} (o : Option A) (f : A → List TelegramOption) (e : BotError) (config : BotConfig)
    → IsSecured config
    → IsSecured (add_or o f e config)
unfolding add_or
add_or-IsSecured none f e config h = set_error-IsSecured config e h
add_or-IsSecured (some a) f e config h = add_telegram_options-IsSecured (f a) config h

if-IsSecured :
    (b : Bool) (c d : BotConfig) → IsSecured c → IsSecured d → IsSecured (if b then c else d)
if-IsSecured true c d h k = h
if-IsSecured false c d h k = k

configure_webhook-IsSecured :
    (secret : Bytes) (config : BotConfig)
    → IsSecured config
    → IsSecured (configure_webhook secret config)
unfolding configure_webhook
configure_webhook-IsSecured secret config h =
    elim (Bool-cases (valid_webhook_secret_token secret)) [
      | inl e ↦ rw e (λ w. (secret, e, Memᴰ.append_right config.telegram_options (Memᴰ.head refl)))
      | inr e ↦ rw e (set_error-IsSecured config bad_secret_token h)
    ]

apply-IsSecured :
    (option : BotOption) (config : BotConfig) → IsSecured config → IsSecured (apply option config)
unfolding apply
apply-IsSecured (with_mode mode) config h = λ w. h w
apply-IsSecured (with_webhook secret) config h = configure_webhook-IsSecured secret config h
apply-IsSecured (with_default_handler o) config h = add_or-IsSecured o _ _ config h
apply-IsSecured (with_middlewares l) config h = add_or-IsSecured (not_nil l) _ _ config h
apply-IsSecured (with_error_handler o) config h = add_or-IsSecured o _ _ config h
apply-IsSecured (with_workers n) config h =
    if-IsSecured (ltb_ℤ n (pos 1)) _ _ (set_error-IsSecured config bad_workers h)
      (add_telegram_options-IsSecured _ config h)
apply-IsSecured (with_allowed_updates updates) config h = add_telegram_options-IsSecured _ config h
apply-IsSecured (with_server_url url) config h =
    if-IsSecured (is_empty url) _ _ (set_error-IsSecured config empty_server_url h)
      (add_telegram_options-IsSecured _ config h)
apply-IsSecured (with_http_client timeout client) config h =
    if-IsSecured (leb_ℤ timeout (pos 0)) _ _ (set_error-IsSecured config bad_poll_timeout h)
      (add_or-IsSecured client _ _ config h)
apply-IsSecured with_skip_identity_check config h = add_telegram_options-IsSecured _ config h
apply-IsSecured (with_telegram_options l) config h = add_or-IsSecured (not_nil l) _ _ config h

apply_all-IsSecured :
    (options : List (Option BotOption)) (config : BotConfig)
    → IsSecured config
    → IsSecured (apply_all options config)
unfolding apply_all
apply_all-IsSecured [] config h = h
apply_all-IsSecured (none ∷ options) config h =
    apply_all-IsSecured options (set_error config nil_option)
      (set_error-IsSecured config nil_option h)
apply_all-IsSecured (some option ∷ options) config h =
    apply_all-IsSecured options (apply option config) (apply-IsSecured option config h)

check_config-none :
    (config : BotConfig)
    → check_config config ≡ none
    → (config.first_error ≡ none)
      × ((config.mode ≡ mode_polling)
          ⊎ ((config.mode ≡ mode_webhook) × (config.webhook_configured ≡ true)))
unfolding check_config
check_config-none config h = (ground arith, ground arith)

create_unless-created :
    {Client : Type 0} (o : Option BotError) (a : Answer Client) (mode : ℕ) (bot : Bot Client)
    → create_unless o a mode ≡ created bot
    → (o ≡ none) × (a ≡ answer bot.client) × (bot.mode ≡ mode)
unfolding create_unless bot_of
create_unless-created (some e) a mode bot h = absurd (ground arith)
create_unless-created none (answer c) mode bot h = (refl, ground arith, ground arith)
create_unless-created none (fault e) mode bot h = absurd (ground arith)

-- A bot that `New` returns polls, or it waits for webhooks and then the Telegram client was given a
-- secret token of 1 to 256 allowed characters; its client is the one that telegram.New made of the
-- collected options, and `Serve` runs in the bot's mode.
pub new-IsSafe :
    {Client : Type 0} (telegram_new : List TelegramOption → Answer Client)
    (options : List (Option BotOption)) (bot : Bot Client)
    → new telegram_new options ≡ created bot
    → let given = (apply_all options default_config).telegram_options in
      (telegram_new given ≡ answer bot.client)
      × (((bot.mode ≡ mode_polling) × (serve bot ≡ start_polling))
          ⊎ ((bot.mode ≡ mode_webhook) × (serve bot ≡ start_webhook) × HasSecret given))
unfolding new serve
new-IsSafe telegram_new options bot h =
    let config = apply_all options default_config in
    let (checked, made, mode) =
      create_unless-created (check_config config) (telegram_new config.telegram_options) config.mode
        bot h in
    (made, by_mode mode (check_config-none config checked).1)
  where
    by_mode :
        bot.mode ≡ (apply_all options default_config).mode
        → ((apply_all options default_config).mode ≡ mode_polling)
          ⊎ (((apply_all options default_config).mode ≡ mode_webhook)
              × ((apply_all options default_config).webhook_configured ≡ true))
        → ((bot.mode ≡ mode_polling) × (serve bot ≡ start_polling))
          ⊎ ((bot.mode ≡ mode_webhook)
              × (serve bot ≡ start_webhook)
              × HasSecret (apply_all options default_config).telegram_options)
    by_mode e (inl polling) = inl (e ∙ polling, ground arith)
    by_mode e (inr (webhook, configured)) = inr (
      e ∙ webhook,
      ground arith,
      apply_all-IsSecured options default_config
          (unfold default_config in λ w. absurd (false≢true w)) configured,
    )
