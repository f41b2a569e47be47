-- ===== src/Tgkit/Payments.antt =====
-- tgkit/payments.go: the operations of `Payments`, and the payments found in updates. The client of
-- the Bot API is a parameter of each operation.
pub mod Calls
use servekit.Prelude.{
  ℕ, Bool, true, false, not, ◌||◌, Option, none, some, List, [], if◌then◌else◌, ℤ, pos, is_zero_ℤ,
  Bytes,
}
use servekit.GoText.{is_blank}
use servekit.Tgkit.Api.{
  Failure, recurring_link, empty_rejection, bad_refund, empty_query_id, subscription_update, Result,
  Answer, Called, refuse, send, send_checked,
}
use servekit.Tgkit.Invoice.{
  LabeledPrice, InvoiceFields, InvoiceKind, invoice_one_time, invoice_subscription, period_seconds,
  validate_invoice,
}

-- The parameters of both kinds of invoice; `other` are the fields that this package only passes on.
pub record SendInvoiceParams (Other : Type 0) : Type 0 where
  pub title : Bytes
  pub description : Bytes
  pub payload : Bytes
  pub provider_token : Bytes
  pub currency : Bytes
  pub prices : List LabeledPrice
  pub max_tip_amount : ℤ
  pub suggested_tip_amounts : List ℤ
  pub other : Other

pub record CreateInvoiceLinkParams (Other : Type 0) : Type 0 where
  pub title : Bytes
  pub description : Bytes
  pub payload : Bytes
  pub provider_token : Bytes
  pub currency : Bytes
  pub prices : List LabeledPrice
  pub subscription_period : ℤ
  pub max_tip_amount : ℤ
  pub suggested_tip_amounts : List ℤ
  pub other : Other

-- The field `subscriptionPeriod` of the literal stays 0.
unfoldable pub invoice_fields_from_send : {Other : Type 0} → SendInvoiceParams Other → InvoiceFields
invoice_fields_from_send params = record {
  title = params.title;
  description = params.description;
  payload = params.payload;
  provider_token = params.provider_token;
  currency = params.currency;
  prices = params.prices;
  subscription_period_seconds = pos 0;
  max_tip_amount = params.max_tip_amount;
  suggested_tip_amounts = params.suggested_tip_amounts;
}

unfoldable pub invoice_fields_from_link :
    {Other : Type 0} → CreateInvoiceLinkParams Other → InvoiceFields
invoice_fields_from_link params = record {
  title = params.title;
  description = params.description;
  payload = params.payload;
  provider_token = params.provider_token;
  currency = params.currency;
  prices = params.prices;
  subscription_period_seconds = params.subscription_period;
  max_tip_amount = params.max_tip_amount;
  suggested_tip_amounts = params.suggested_tip_amounts;
}

-- Send a request unless a check failed.
unfoldable pub send_unless :
    {Req A : Type 0} → Option Failure → (Req → Answer A) → Req → Called Req A
send_unless none api r = send api r
send_unless (some f) api r = refuse f

module _ {Other A : Type 0} where
  unfoldable pub send_invoice :
      (SendInvoiceParams Other → Answer A)
      → SendInvoiceParams Other
      → Called (SendInvoiceParams Other) A
  unfolding send_unless
  send_invoice api params =
      send_unless (validate_invoice (invoice_fields_from_send params) invoice_one_time) api params

  unfoldable pub create_invoice_link :
      (CreateInvoiceLinkParams Other → Answer A)
      → CreateInvoiceLinkParams Other
      → Called (CreateInvoiceLinkParams Other) A
  unfolding send_unless
  create_invoice_link api params =
      if not (is_zero_ℤ params.subscription_period)
      then refuse recurring_link
      else send_unless (validate_invoice (invoice_fields_from_link params) invoice_one_time) api
          params

  unfoldable pub create_subscription_link :
      (CreateInvoiceLinkParams Other → Answer A)
      → CreateInvoiceLinkParams Other
      → Called (CreateInvoiceLinkParams Other) A
  unfolding send_unless
  create_subscription_link api params =
      let monthly = record params { subscription_period = period_seconds } in
      send_unless (validate_invoice (invoice_fields_from_link monthly) invoice_subscription) api
        monthly

pub record AnswerPreCheckoutQueryParams : Type 0 where
  pub pre_checkout_query_id : Bytes
  pub accepted : Bool
  pub error_message : Bytes

unfoldable pub answer_pre_checkout :
    (AnswerPreCheckoutQueryParams → Answer Bool)
    → Bytes
    → Bool
    → Bytes
    → Called AnswerPreCheckoutQueryParams (Unit {0})
answer_pre_checkout api query_id approved message =
    if is_blank query_id
    then refuse empty_query_id
    else send_checked api
        (record { pre_checkout_query_id = query_id; accepted = approved; error_message = message })

unfoldable pub approve_pre_checkout :
    (AnswerPreCheckoutQueryParams → Answer Bool)
    → Bytes
    → Called AnswerPreCheckoutQueryParams (Unit {0})
unfolding answer_pre_checkout
approve_pre_checkout api query_id = answer_pre_checkout api query_id true []

unfoldable pub reject_pre_checkout :
    (AnswerPreCheckoutQueryParams → Answer Bool)
    → Bytes
    → Bytes
    → Called AnswerPreCheckoutQueryParams (Unit {0})
unfolding answer_pre_checkout
reject_pre_checkout api query_id message =
    if is_blank message
    then refuse empty_rejection
    else answer_pre_checkout api query_id false message

pub record RefundStarPaymentParams : Type 0 where
  pub user_id : ℤ
  pub charge_id : Bytes

unfoldable pub refund_stars :
    (RefundStarPaymentParams → Answer Bool) → ℤ → Bytes → Called RefundStarPaymentParams (Unit {0})
refund_stars api user_id charge_id =
    if is_zero_ℤ user_id || is_blank charge_id
    then refuse bad_refund
    else send_checked api (record { user_id = user_id; charge_id = charge_id })

pub record EditUserStarSubscriptionParams : Type 0 where
  pub user_id : ℤ
  pub charge_id : Bytes
  pub is_canceled : Bool

unfoldable pub set_subscription_canceled :
    (EditUserStarSubscriptionParams → Answer Bool)
    → ℤ
    → Bytes
    → Bool
    → Called EditUserStarSubscriptionParams (Unit {0})
set_subscription_canceled api user_id charge_id canceled =
    if is_zero_ℤ user_id || is_blank charge_id
    then refuse subscription_update
    else send_checked api
        (record { user_id = user_id; charge_id = charge_id; is_canceled = canceled })

unfoldable pub cancel_subscription :
    (EditUserStarSubscriptionParams → Answer Bool)
    → ℤ
    → Bytes
    → Called EditUserStarSubscriptionParams (Unit {0})
unfolding set_subscription_canceled
cancel_subscription api user_id charge_id = set_subscription_canceled api user_id charge_id true

unfoldable pub resume_subscription :
    (EditUserStarSubscriptionParams → Answer Bool)
    → ℤ
    → Bytes
    → Called EditUserStarSubscriptionParams (Unit {0})
unfolding set_subscription_canceled
resume_subscription api user_id charge_id = set_subscription_canceled api user_id charge_id false
