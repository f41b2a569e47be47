-- ===== src/Tgkit/Bot/Errors.antt =====
-- Which error `New` of tgkit/bot.go reports.
use servekit.Prelude.{◌≡◌, refl, Option, none, some, List, [], ◌∷◌, ◌++◌, arith}
use servekit.Tgkit.Api.{Answer}
use servekit.Tgkit.Bot.{
  BotError, TelegramOption, BotConfig, set_error, not_nil, BotOption, with_mode, with_webhook,
  with_default_handler, with_middlewares, with_error_handler, with_workers, with_allowed_updates,
  with_server_url, with_http_client, with_skip_identity_check, with_telegram_options, add_or, apply,
  apply_all, default_config, check_config, refused, create_unless, new, nil_option,
  nil_default_handler, nil_middleware, nil_error_handler, nil_telegram_option,
}

abbrev pub HasError : BotConfig → BotError → Type 0
HasError config e = config.first_error ≡ some e

add_or-HasError :
    {A : Type 0} (o : Option A) (f : A → List TelegramOption) (x : BotError) (config : BotConfig)
    (e : BotError)
    → HasError config e
    → HasError (add_or o f x config) e
unfolding add_or
add_or-HasError none f x config e h = ground arith
add_or-HasError (some a) f x config e h = h

-- No option takes an error back or puts another in its place.
apply-HasError :
    (option : BotOption) (config : BotConfig) (e : BotError)
    → HasError config e
    → HasError (apply option config) e
unfolding apply
apply-HasError (with_mode mode) config e h = h
apply-HasError (with_webhook secret) config e h = ground arith
apply-HasError (with_default_handler o) config e h =
    add_or-HasError o _ nil_default_handler config e h
apply-HasError (with_middlewares l) config e h =
    add_or-HasError (not_nil l) _ nil_middleware config e h
apply-HasError (with_error_handler o) config e h = add_or-HasError o _ nil_error_handler config e h
apply-HasError (with_workers n) config e h = ground arith
apply-HasError (with_allowed_updates updates) config e h = h
apply-HasError (with_server_url url) config e h = ground arith
apply-HasError (with_http_client timeout client) config e h = ground arith
apply-HasError with_skip_identity_check config e h = h
apply-HasError (with_telegram_options l) config e h =
    add_or-HasError (not_nil l) _ nil_telegram_option config e h

apply_all-HasError :
    (options : List (Option BotOption)) (config : BotConfig) (e : BotError)
    → HasError config e
    → HasError (apply_all options config) e
unfolding apply_all
apply_all-HasError [] config e h = h
apply_all-HasError (none ∷ options) config e h =
    apply_all-HasError options (set_error config nil_option) e (unfold set_error in ground arith)
apply_all-HasError (some option ∷ options) config e h =
    apply_all-HasError options (apply option config) e (apply-HasError option config e h)

apply_all-append :
    (xs ys : List (Option BotOption)) (config : BotConfig)
    → apply_all (xs ++ ys) config ≡ apply_all ys (apply_all xs config)
unfolding apply_all
apply_all-append [] ys config = refl
apply_all-append (none ∷ xs) ys config = apply_all-append xs ys (set_error config nil_option)
apply_all-append (some x ∷ xs) ys config = apply_all-append xs ys (apply x config)

check_config_error :
    (config : BotConfig) (e : BotError) → HasError config e → check_config config ≡ some e
unfolding check_config
check_config_error config e h = rw (h, check_config)

-- If the first options xs leave an error e, then `New` returns e, whatever options follow and
-- whatever telegram.New would have answered.
pub new_first_error :
    {Client : Type 0} (telegram_new : List TelegramOption → Answer Client)
    (xs ys : List (Option BotOption)) (e : BotError)
    → HasError (apply_all xs default_config) e
    → new telegram_new (xs ++ ys) ≡ refused e
unfolding new create_unless
new_first_error telegram_new xs ys e h =
    let kept : HasError (apply_all (xs ++ ys) default_config) e =
      rw (apply_all-append xs ys default_config)
        (apply_all-HasError ys (apply_all xs default_config) e h) in
    rw (check_config_error (apply_all (xs ++ ys) default_config) e kept, create_unless)
