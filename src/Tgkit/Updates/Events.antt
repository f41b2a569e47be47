-- ===== src/Tgkit/Updates/Events.antt =====
-- Which payments and refunds tgkit/payments.go finds in an update.
use servekit.Prelude.{◌≡◌, ◌↔◌, refl, Bool, true, false, Option, none, some, arith, subst, ap, ◌∙◌}
use servekit.Tgkit.Updates.{
  SuccessfulPayment, Message, Update, PaymentKind, payment_one_time, payment_subscription_started,
  payment_subscription_renewed, PaymentEvent, classify_payment, payment_message, id_or_zero,
  payment_event, payment_of_message, payment_from_update, idempotency_key,
}

-- The message of an update: a plain one, then a business message, then a channel post.
pub data MessageOf (u : Update) : Message → Type 0 where
  plain : {m : Message} → u.message ≡ some m → MessageOf u m
  business : {m : Message} → u.message ≡ none → u.business_message ≡ some m → MessageOf u m
  channel :
      {m : Message}
      → u.message ≡ none
      → u.business_message ≡ none
      → u.channel_post ≡ some m
      → MessageOf u m

MessageOf-payment_message :
    {u : Update} {m : Message} → MessageOf u m → payment_message (some u) ≡ some m
unfolding payment_message
MessageOf-payment_message (plain e) = rw e
MessageOf-payment_message (business e f) = rw (e, f)
MessageOf-payment_message (channel e f g) = rw (e, f, g)

payment_message-MessageOf :
    (u : Update) (m : Message) (a b c : Option Message)
    → u.message ≡ a
    → u.business_message ≡ b
    → u.channel_post ≡ c
    → payment_message (some u) ≡ some m
    → MessageOf u m
unfolding payment_message
payment_message-MessageOf u m (some x) b c p q r h = plain (ground arith)
payment_message-MessageOf u m none (some x) c p q r h = business p (ground arith)
payment_message-MessageOf u m none none c p q r h = channel p q (ground arith)

pub message_of_iff :
    (u : Update) (m : Message) → (payment_message (some u) ≡ some m) ↔ MessageOf u m
message_of_iff u m = (
  payment_message-MessageOf u m u.message u.business_message u.channel_post refl refl refl,
  MessageOf-payment_message,
)

-- How a payment is classified.
pub data HasKind (p : SuccessfulPayment) : PaymentKind → Type 0 where
  once : p.is_recurring ≡ false → HasKind p payment_one_time
  first :
      p.is_recurring ≡ true → p.is_first_recurring ≡ true → HasKind p payment_subscription_started
  later :
      p.is_recurring ≡ true → p.is_first_recurring ≡ false → HasKind p payment_subscription_renewed

classify-HasKind :
    (p : SuccessfulPayment) (r f : Bool)
    → p.is_recurring ≡ r
    → p.is_first_recurring ≡ f
    → HasKind p (classify_payment p)
unfolding classify_payment
classify-HasKind p false f e g = subst (HasKind p) {x = payment_one_time} (ground arith) (once e)
classify-HasKind p true true e g =
    subst (HasKind p) {x = payment_subscription_started} (ground arith) (first e g)
classify-HasKind p true false e g =
    subst (HasKind p) {x = payment_subscription_renewed} (ground arith) (later e g)

-- The event is the one of this payment in this message.
pub record IsEventOf (m : Message) (p : SuccessfulPayment) (e : PaymentEvent) : Type 0 where
  pub kind : HasKind p e.kind
  pub user : e.user_id ≡ id_or_zero m.sender
  pub chat : e.chat_id ≡ m.chat_id
  pub message : e.message_id ≡ m.id
  pub payment : e.payment ≡ some p
  pub key : idempotency_key e ≡ p.telegram_payment_charge_id

event_of : Message → SuccessfulPayment → PaymentEvent
event_of m p = record {
  kind = classify_payment p;
  user_id = id_or_zero m.sender;
  chat_id = m.chat_id;
  message_id = m.id;
  payment = some p;
}

event_of-IsEventOf : (m : Message) (p : SuccessfulPayment) → IsEventOf m p (event_of m p)
unfolding event_of idempotency_key
event_of-IsEventOf m p = record {
  kind = classify-HasKind p p.is_recurring p.is_first_recurring refl refl;
  user = refl;
  chat = refl;
  message = refl;
  payment = refl;
  key = refl;
}

payment_of_message-event_of :
    (m : Message) (p : SuccessfulPayment)
    → m.successful_payment ≡ some p
    → payment_of_message (some m) ≡ some (event_of m p)
unfolding payment_of_message payment_event event_of
payment_of_message-event_of m p e = ap (payment_event m) e

payment_of_message-IsEventOf :
    (m : Message) (q : Option SuccessfulPayment) (e : PaymentEvent)
    → m.successful_payment ≡ q
    → payment_of_message (some m) ≡ some e
    → (p : SuccessfulPayment) × (m.successful_payment ≡ some p) × IsEventOf m p e
payment_of_message-IsEventOf m none e s h =
    absurd (unfold payment_of_message in cc (ap (payment_event m) s))
payment_of_message-IsEventOf m (some p) e s h =
    let same : event_of m p ≡ e = cc (payment_of_message-event_of m p s) in
    (p, s, subst (IsEventOf m p) same (event_of-IsEventOf m p))

from_message :
    (u : Update) (o : Option Message) (e : PaymentEvent)
    → payment_message (some u) ≡ o
    → payment_of_message o ≡ some e
    → (m : Message) × MessageOf u m
      × (p : SuccessfulPayment) × (m.successful_payment ≡ some p)
      × IsEventOf m p e
from_message u none e h k = absurd (unfold payment_of_message in cc)
from_message u (some m) e h k =
    let (p, s, event) = payment_of_message-IsEventOf m m.successful_payment e refl k in
    (m, (message_of_iff u m).0 h, p, s, event)

-- A payment event comes from the message of the update, the first of the plain, the business and the
-- channel message that is there; it is the event of that message's payment, classified as one-time,
-- started or renewed, with the charge identifier as its key.
pub payment_from_update-IsEventOf :
    (u : Update) (e : PaymentEvent)
    → payment_from_update (some u) ≡ some e
    → (m : Message) × MessageOf u m
      × (p : SuccessfulPayment) × (m.successful_payment ≡ some p)
      × IsEventOf m p e
unfolding payment_from_update
payment_from_update-IsEventOf u e h = from_message u (payment_message (some u)) e refl h

-- A payment in the message of the update, the first of the plain, the business and the channel
-- message that is there, is found.
pub payment_from_update_finds :
    (u : Update) (m : Message) (p : SuccessfulPayment)
    → MessageOf u m
    → m.successful_payment ≡ some p
    → (e : PaymentEvent) × (payment_from_update (some u) ≡ some e) × IsEventOf m p e
unfolding payment_from_update
payment_from_update_finds u m p v s = (
  event_of m p,
  ap payment_of_message ((message_of_iff u m).1 v) ∙ payment_of_message-event_of m p s,
  event_of-IsEventOf m p,
)
