-- ===== src/Tgkit/Api.antt =====
-- tgkit: what the helpers share. A call of the Telegram client is a parameter: a function from the
-- request to what the Bot API answers.
use servekit.Prelude.{ℕ, Bool, true, false, Option, none, some}

-- The checks that the helpers make before they call Telegram, one for each error message.
pub data Failure : Type 0 where
  -- ErrInvalidInvoice
  recurring_link : Failure
  bad_title : Failure
  bad_description : Failure
  bad_payload : Failure
  bad_currency : Failure
  stars_provider_token : Failure
  no_provider_token : Failure
  no_price : Failure
  stars_price_count : Failure
  empty_price_label : Failure
  total_not_positive : Failure
  stars_tips : Failure
  negative_max_tip : Failure
  too_many_tips : Failure
  bad_tips : Failure
  one_time_period : Failure
  empty_rejection : Failure
  bad_refund : Failure
  empty_query_id : Failure
  -- ErrInvalidSubscription
  subscription_currency : Failure
  subscription_period : Failure
  subscription_price : Failure
  subscription_update : Failure
  subscription_name : Failure
  -- ErrInvalidInviteLink
  invite_name : Failure
  invite_members : Failure
  invite_exclusive : Failure
  invite_empty : Failure
  -- ErrInvalidChatID
  chat_id_empty : Failure
  chat_id_zero : Failure
  chat_id_type : Failure
  -- `prices[0]` on an empty slice: a panic, not an error
  index_panic : Failure

-- The sentinel that each message wraps; `none` is the panic.
pub data Sentinel : Type 0 where
  invalid_invoice : Sentinel
  invalid_subscription : Sentinel
  invalid_invite_link : Sentinel
  invalid_chat_id : Sentinel

unfoldable pub sentinel_of : Failure → Option Sentinel
sentinel_of subscription_currency = some invalid_subscription
sentinel_of subscription_period = some invalid_subscription
sentinel_of subscription_price = some invalid_subscription
sentinel_of subscription_update = some invalid_subscription
sentinel_of subscription_name = some invalid_subscription
sentinel_of invite_name = some invalid_invite_link
sentinel_of invite_members = some invalid_invite_link
sentinel_of invite_exclusive = some invalid_invite_link
sentinel_of invite_empty = some invalid_invite_link
sentinel_of chat_id_empty = some invalid_chat_id
sentinel_of chat_id_zero = some invalid_chat_id
sentinel_of chat_id_type = some invalid_chat_id
sentinel_of index_panic = none
sentinel_of _ = some invalid_invoice

pub data TgError : Type 0 where
  failure : Failure → TgError
  -- the error of the client, wrapped by the operation
  api_error : ℕ → TgError
  -- ErrRequestRejected, wrapped by the operation
  request_rejected : TgError

pub data Result {ℓ} (A : Type ℓ) : Type ℓ where
  ok : A → Result A
  err : TgError → Result A

-- What Telegram answers to a request: a value, or an error.
pub data Answer {ℓ} (A : Type ℓ) : Type ℓ where
  answer : A → Answer A
  fault : ℕ → Answer A

-- What a helper sent, if it sent something, and what it returned.
pub record Called {ℓ κ} (Req : Type ℓ) (A : Type κ) : Type (ℓ ⊔ κ) where
  pub request : Option Req
  pub result : Result A

abbrev pub of_answer {ℓ} : {A : Type ℓ} → Answer A → Result A
of_answer (answer a) = ok a
of_answer (fault e) = err (api_error e)

module _ {ℓ κ} {Req : Type ℓ} {A : Type κ} where
  abbrev pub refuse : Failure → Called Req A
  refuse f = record { request = none; result = err (failure f) }

  abbrev pub send : (Req → Answer A) → Req → Called Req A
  send api r = record { request = some r; result = of_answer (api r) }

-- The first check that fails.
abbrev pub first_failure : Option Failure → Option Failure → Option Failure
first_failure none rest = rest
first_failure (some f) rest = some f

-- `checkTelegramResult` on an answer that is a Boolean: an error, a false result, or success.
unfoldable pub check_telegram_result : Answer Bool → Result (Unit {0})
check_telegram_result (fault e) = err (api_error e)
check_telegram_result (answer false) = err request_rejected
check_telegram_result (answer true) = ok tt

abbrev pub send_checked {ℓ} : {Req : Type ℓ} → (Req → Answer Bool) → Req → Called Req (Unit {0})
send_checked api r = record { request = some r; result = check_telegram_result (api r) }
