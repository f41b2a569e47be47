-- ===== src/Tgkit/Examples.antt =====
-- Concrete calls of tgkit.
use servekit.Prelude.{
  ℕ, ◌≤◌, ◌≡◌, ◌≢◌, ◌↔◌, refl, Bool, true, false, Option, none, some, List, [], ◌∷◌, ◌++◌, ◌⊎◌, pos,
  ltb_ℤ,
}
use servekit.GoText.{ascii, runes, decode_rune, rune_count, is_blank}
use servekit.Tgkit.Api.{Answer, answer, ok}
use servekit.Tgkit.Invoice.{
  LabeledPrice, InvoiceFields, invoice_one_time, invoice_subscription, period_seconds,
  validate_invoice,
}
use servekit.Tgkit.Invoice.Accepts.{IsValidInvoice, validate_invoice_iff}
use servekit.Tgkit.Payments.{
  SendInvoiceParams, CreateInvoiceLinkParams, invoice_fields_from_send, invoice_fields_from_link,
  send_invoice, create_invoice_link, create_subscription_link, AnswerPreCheckoutQueryParams,
  reject_pre_checkout, RefundStarPaymentParams, refund_stars, EditUserStarSubscriptionParams,
  set_subscription_canceled,
}
use servekit.Tgkit.Payments.Calls.{SentFor, Refused, invoice_calls, checked_calls_ok_iff}
use servekit.Tgkit.Updates.{
  SuccessfulPayment, Message, Update, payment_one_time, PaymentEvent, payment_from_update,
  payment_message,
}
use servekit.Tgkit.Updates.Events.{
  MessageOf, business, IsEventOf, payment_from_update-IsEventOf, payment_from_update_finds,
}
use servekit.Tgkit.Channel.{
  channel, create_invite_link as create_channel_link, create_subscription_invite_link,
  edit_subscription_invite_link, revoke_invite_link, int_id, username, int64_id, Channel,
  InviteLink, ChannelSubscription, Request, title_of,
}
use servekit.Tgkit.Channel.Scope.{IsInvite, IsPaid, IsSent, IsChat, channel_links_iff}
use servekit.Tgkit.Bot.{
  TelegramOption, bad_workers, with_webhook, with_workers, with_mode, BotOption, apply, apply_all,
  check_config, configure_webhook, is_secret_character, valid_webhook_secret_token, default_config,
  Bot, refused, new, mode_polling, mode_webhook, start_polling, start_webhook, serve,
}
use servekit.Tgkit.Bot.Config.{HasSecret, new-IsSafe}
use servekit.Tgkit.Bot.Errors.{new_first_error}

abbrev price : LabeledPrice
price = record { label = ascii "Plan"; amount = pos 500 }

abbrev stars_invoice : InvoiceFields
stars_invoice = record {
  title = ascii "Pro";
  description = ascii "One month";
  payload = ascii "pro-1";
  provider_token = [];
  currency = ascii "XTR";
  prices = price ∷ [];
  subscription_period_seconds = period_seconds;
  max_tip_amount = pos 0;
  suggested_tip_amounts = [];
}

validate_invoice_iff_example :
    (validate_invoice stars_invoice invoice_subscription ≡ none)
    ↔ IsValidInvoice stars_invoice invoice_subscription
validate_invoice_iff_example = validate_invoice_iff stars_invoice invoice_subscription

abbrev params : SendInvoiceParams ℕ
params = record {
  title = ascii "Pro";
  description = ascii "One month";
  payload = ascii "pro-1";
  provider_token = [];
  currency = ascii "XTR";
  prices = price ∷ [];
  max_tip_amount = pos 0;
  suggested_tip_amounts = [];
  other = 8;
}

abbrev link : CreateInvoiceLinkParams ℕ
link = record {
  title = ascii "Pro";
  description = ascii "One month";
  payload = ascii "pro-1";
  provider_token = [];
  currency = ascii "XTR";
  prices = price ∷ [];
  subscription_period = pos 0;
  max_tip_amount = pos 0;
  suggested_tip_amounts = [];
  other = 8;
}

abbrev monthly_link : CreateInvoiceLinkParams ℕ
monthly_link = record link { subscription_period = period_seconds }

abbrev send_api : SendInvoiceParams ℕ → Answer ℕ
send_api p = answer p.other

abbrev link_api : CreateInvoiceLinkParams ℕ → Answer ℕ
link_api p = answer p.other

invoice_calls_example :
    ((IsValidInvoice (invoice_fields_from_send params) invoice_one_time
        × SentFor send_api params (send_invoice send_api params))
      ⊎ ((¬ IsValidInvoice (invoice_fields_from_send params) invoice_one_time)
          × Refused (send_invoice send_api params)))
    × ((IsValidInvoice (invoice_fields_from_link link) invoice_one_time
          × SentFor link_api link (create_invoice_link link_api link))
        ⊎ ((¬ IsValidInvoice (invoice_fields_from_link link) invoice_one_time)
            × Refused (create_invoice_link link_api link)))
    × ((IsValidInvoice (invoice_fields_from_link monthly_link) invoice_subscription
          × SentFor link_api monthly_link (create_subscription_link link_api link))
        ⊎ ((¬ IsValidInvoice (invoice_fields_from_link monthly_link) invoice_subscription)
            × Refused (create_subscription_link link_api link)))
invoice_calls_example = invoice_calls send_api link_api params link

abbrev refund_api : RefundStarPaymentParams → Answer Bool
refund_api p = answer true

abbrev edit_api : EditUserStarSubscriptionParams → Answer Bool
edit_api p = answer p.is_canceled

abbrev checkout_api : AnswerPreCheckoutQueryParams → Answer Bool
checkout_api p = answer (ltb_ℤ (pos 0) (pos 1))

checked_calls_ok_iff_example :
    (((refund_stars refund_api (pos 6) (ascii "c1")).result ≡ ok tt)
      ↔ ((pos 6 ≢ pos 0) × (is_blank (ascii "c1") ≡ false) × (answer true ≡ answer true)))
    × (((set_subscription_canceled edit_api (pos 6) (ascii "c1") true).result ≡ ok tt)
        ↔ ((pos 6 ≢ pos 0) × (is_blank (ascii "c1") ≡ false) × (answer true ≡ answer true)))
    × (((reject_pre_checkout checkout_api (ascii "q7") (ascii "sold out")).result ≡ ok tt) ↔ (
        (is_blank (ascii "sold out") ≡ false)
        × (is_blank (ascii "q7") ≡ false)
        × (answer true ≡ answer true)))
checked_calls_ok_iff_example =
    checked_calls_ok_iff refund_api edit_api checkout_api (pos 6) (ascii "c1") (ascii "q7")
      (ascii "sold out") true

abbrev payment : SuccessfulPayment
payment = record {
  is_recurring = false;
  is_first_recurring = false;
  telegram_payment_charge_id = ascii "c1";
  subscription_expiration_date = pos 0;
}

abbrev paid_message : Message
paid_message = record {
  id = pos 3;
  chat_id = pos 40;
  sender = some (pos 6);
  successful_payment = some payment;
  refunded_payment = none;
}

abbrev paid_update : Update
paid_update = record { message = none; business_message = some paid_message; channel_post = none }

abbrev paid_event : PaymentEvent
paid_event = record {
  kind = payment_one_time;
  user_id = pos 6;
  chat_id = pos 40;
  message_id = pos 3;
  payment = some payment;
}

payment_from_update-IsEventOf_example :
    (m : Message) × MessageOf paid_update m
    × (p : SuccessfulPayment) × (m.successful_payment ≡ some p)
    × IsEventOf m p paid_event
unfolding payment_from_update payment_message
payment_from_update-IsEventOf_example = payment_from_update-IsEventOf paid_update paid_event refl

payment_from_update_finds_example :
    (e : PaymentEvent) × (payment_from_update (some paid_update) ≡ some e)
    × IsEventOf paid_message payment e
payment_from_update_finds_example =
    payment_from_update_finds paid_update paid_message payment (business refl refl) refl

abbrev invite : InviteLink
invite = record {
  name = ascii "spring";
  expire_at = none;
  member_limit = pos 20;
  creates_join_request = false;
}

abbrev paid_link : ChannelSubscription
paid_link = record { name = ascii "gold"; price_stars = pos 300 }

abbrev news : Channel
news = record { chat_id = username (ascii "@news") }

abbrev elsewhere : Request
elsewhere = record { chat_id = int64_id (pos 9); action = title_of (ascii "x") }

abbrev chat_api : Request → Answer ℕ
chat_api r = answer 1

channel_links_iff_example :
    (IsSent news (create_channel_link chat_api news invite) ↔ IsInvite invite)
    × (IsSent news (create_subscription_invite_link chat_api news paid_link) ↔ IsPaid paid_link)
    × (IsSent news (edit_subscription_invite_link chat_api news (ascii "t.me/x") (ascii "silver"))
        ↔ ((is_blank (ascii "t.me/x") ≡ false) × (rune_count (ascii "silver") ≤ 32)))
    × (IsSent news (revoke_invite_link chat_api news (ascii "t.me/x"))
        ↔ (is_blank (ascii "t.me/x") ≡ false))
    × ((channel (int_id (pos 0)) ≡ ok (record { chat_id = int_id (pos 0) }))
        ↔ IsChat (int_id (pos 0)))
channel_links_iff_example =
    channel_links_iff chat_api news (int_id (pos 0)) invite paid_link (ascii "t.me/x")
      (ascii "silver")

abbrev yes_api : Request → Answer Bool
yes_api r = answer true

abbrev telegram_new : List TelegramOption → Answer ℕ
telegram_new options = answer 77

abbrev webhook_options : List (Option BotOption)
webhook_options = some (with_webhook (ascii "s3cret")) ∷ some (with_workers (pos 2)) ∷ []

abbrev webhook_bot : Bot ℕ
webhook_bot = record { client = 77; mode = mode_webhook }

new-IsSafe_example :
    let given = (apply_all webhook_options default_config).telegram_options in
    (telegram_new given ≡ answer webhook_bot.client)
    × (((webhook_bot.mode ≡ mode_polling) × (serve webhook_bot ≡ start_polling))
        ⊎ ((webhook_bot.mode ≡ mode_webhook)
            × (serve webhook_bot ≡ start_webhook)
            × HasSecret given))
unfolding new check_config apply_all apply configure_webhook valid_webhook_secret_token
    default_config runes is_secret_character decode_rune
new-IsSafe_example = new-IsSafe telegram_new webhook_options webhook_bot refl

new_first_error_example :
    new telegram_new ((some (with_workers (pos 0)) ∷ []) ++ (some (with_mode 9) ∷ []))
    ≡ refused bad_workers
unfolding apply_all apply default_config
new_first_error_example =
    new_first_error telegram_new (some (with_workers (pos 0)) ∷ []) (some (with_mode 9) ∷ [])
      bad_workers refl
