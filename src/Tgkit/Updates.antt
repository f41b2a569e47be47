-- ===== src/Tgkit/Updates.antt =====
-- tgkit/payments.go: the payments and refunds in a Telegram update. A nil pointer is `none`.
pub mod Events
use servekit.Prelude.{
  Bool, true, false, not, Option, none, some, List, [], if◌then◌else◌, ℤ, pos, is_zero_ℤ, Bytes,
}

pub record SuccessfulPayment : Type 0 where
  pub is_recurring : Bool
  pub is_first_recurring : Bool
  pub telegram_payment_charge_id : Bytes
  pub subscription_expiration_date : ℤ

pub record RefundedPayment : Type 0 where
  pub refund_charge_id : Bytes

pub record Message : Type 0 where
  pub id : ℤ
  pub chat_id : ℤ
  -- message.From.ID, if there is a sender
  pub sender : Option ℤ
  pub successful_payment : Option SuccessfulPayment
  pub refunded_payment : Option RefundedPayment

pub record Update : Type 0 where
  pub message : Option Message
  pub business_message : Option Message
  pub channel_post : Option Message

pub data PaymentKind : Type 0 where
  payment_one_time : PaymentKind
  payment_subscription_started : PaymentKind
  payment_subscription_renewed : PaymentKind

pub record PaymentEvent : Type 0 where
  pub kind : PaymentKind
  pub user_id : ℤ
  pub chat_id : ℤ
  pub message_id : ℤ
  pub payment : Option SuccessfulPayment

pub record RefundEvent : Type 0 where
  pub user_id : ℤ
  pub chat_id : ℤ
  pub message_id : ℤ
  pub refund : Option RefundedPayment

unfoldable pub classify_payment : SuccessfulPayment → PaymentKind
classify_payment payment =
    if not payment.is_recurring
    then payment_one_time
    else if payment.is_first_recurring
    then payment_subscription_started
    else payment_subscription_renewed

-- The first that is not nil.
unfoldable pub or_message : Option Message → Option Message → Option Message
or_message none m = m
or_message (some m) n = some m

unfoldable pub payment_message : Option Update → Option Message
unfolding or_message
payment_message none = none
payment_message (some update) =
    or_message update.message (or_message update.business_message update.channel_post)

unfoldable pub id_or_zero : Option ℤ → ℤ
id_or_zero none = pos 0
id_or_zero (some id) = id

unfoldable pub payment_event : Message → Option SuccessfulPayment → Option PaymentEvent
unfolding classify_payment id_or_zero
payment_event m none = none
payment_event m (some payment) = some (record {
  kind = classify_payment payment;
  user_id = id_or_zero m.sender;
  chat_id = m.chat_id;
  message_id = m.id;
  payment = some payment;
})

unfoldable pub payment_of_message : Option Message → Option PaymentEvent
unfolding payment_event
payment_of_message none = none
payment_of_message (some m) = payment_event m m.successful_payment

unfoldable pub payment_from_update : Option Update → Option PaymentEvent
unfolding payment_of_message
payment_from_update update = payment_of_message (payment_message update)

unfoldable pub refund_event : Message → Option RefundedPayment → Option RefundEvent
unfolding id_or_zero
refund_event m none = none
refund_event m (some refund) = some (record {
  user_id = id_or_zero m.sender;
  chat_id = m.chat_id;
  message_id = m.id;
  refund = some refund;
})

unfoldable pub refund_of_message : Option Message → Option RefundEvent
unfolding refund_event
refund_of_message none = none
refund_of_message (some m) = refund_event m m.refunded_payment

unfoldable pub refund_from_update : Option Update → Option RefundEvent
unfolding refund_of_message
refund_from_update update = refund_of_message (payment_message update)

unfoldable pub key_of : Option SuccessfulPayment → Bytes
key_of none = []
key_of (some payment) = payment.telegram_payment_charge_id

unfoldable pub idempotency_key : PaymentEvent → Bytes
unfolding key_of
idempotency_key e = key_of e.payment

unfoldable pub expires_of : Option SuccessfulPayment → Option ℤ
expires_of none = none
expires_of (some payment) =
    if is_zero_ℤ payment.subscription_expiration_date
    then none
    else some payment.subscription_expiration_date

-- The seconds of the `time.Time` that `time.Unix` gives.
unfoldable pub subscription_expires_at : PaymentEvent → Option ℤ
unfolding expires_of
subscription_expires_at e = expires_of e.payment
