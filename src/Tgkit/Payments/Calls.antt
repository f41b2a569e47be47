-- ===== src/Tgkit/Payments/Calls.antt =====
-- What the operations of tgkit/payments.go send to Telegram, and what they return.
use servekit.Prelude.{
  ◌≡◌, ◌↔◌, ◌≢◌, refl, Bool, true, false, none, some, arith, ℤ, pos, Bytes, Option-cases,
  Bool-cases, is_zero_ℤ, inl, inr, ◌⊎◌,
}
use servekit.GoText.{is_blank}
use servekit.Tgkit.Api.{
  Failure, failure, ok, err, Answer, answer, Called, of_answer, check_telegram_result,
}
use servekit.Tgkit.Invoice.{
  InvoiceFields, InvoiceKind, invoice_one_time, invoice_subscription, period_seconds,
  validate_invoice,
}
use servekit.Tgkit.Invoice.Accepts.{IsValidInvoice, validate_invoice_iff}
use servekit.Tgkit.Payments.{
  SendInvoiceParams, CreateInvoiceLinkParams, invoice_fields_from_send, invoice_fields_from_link,
  send_unless, send_invoice, create_invoice_link, create_subscription_link,
  AnswerPreCheckoutQueryParams, reject_pre_checkout, RefundStarPaymentParams, refund_stars,
  EditUserStarSubscriptionParams, set_subscription_canceled,
}

-- The call sent this request and returned what Telegram answered.
abbrev pub SentFor {ℓ κ} :
    {Req : Type ℓ} {A : Type κ} → (Req → Answer A) → Req → Called Req A → Type (ℓ ⊔ κ)
SentFor api r c = (c.request ≡ some r) × (c.result ≡ of_answer (api r))

-- The call sent nothing and returned the error of a check.
abbrev pub Refused {ℓ κ} : {Req : Type ℓ} {A : Type κ} → Called Req A → Type (ℓ ⊔ κ)
Refused c = (f : Failure) × (c.request ≡ none) × (c.result ≡ err (failure f))

send_unless_cases :
    {Req A : Type 0} (invoice : InvoiceFields) (kind : InvoiceKind) (api : Req → Answer A) (r : Req)
    → let c = send_unless (validate_invoice invoice kind) api r in
      (IsValidInvoice invoice kind × SentFor api r c)
      ⊎ ((¬ IsValidInvoice invoice kind) × Refused c)
unfolding send_unless
send_unless_cases invoice kind api r = elim (Option-cases (validate_invoice invoice kind)) [
  | inl e ↦ inl ((validate_invoice_iff invoice kind).0 e, (rw e, rw e))
  | inr (f, e) ↦ inr (λ v. cc (e, (validate_invoice_iff invoice kind).1 v), (f, rw e, rw e))
]

zero_ℤ_iff : (a : ℤ) → (is_zero_ℤ a ≡ true) ↔ (a ≡ pos 0)
zero_ℤ_iff a = (λ h. ground arith, λ h. ground arith)

module _ {Other A : Type 0} where
  create_invoice_link_cases :
      (api : CreateInvoiceLinkParams Other → Answer A) (params : CreateInvoiceLinkParams Other)
      → let c = create_invoice_link api params in
        let v = IsValidInvoice (invoice_fields_from_link params) invoice_one_time in
        (v × SentFor api params c) ⊎ ((¬ v) × Refused c)
  unfolding create_invoice_link
  create_invoice_link_cases api params = elim (Bool-cases (is_zero_ℤ params.subscription_period)) [
    | inl e ↦ rw e (send_unless_cases (invoice_fields_from_link params) invoice_one_time api params)
    | inr e ↦
        rw e
          (inr (λ v. cc (e, (zero_ℤ_iff params.subscription_period).1 (period v)), (_, refl, refl)))
  ]
    where
      period :
          IsValidInvoice (invoice_fields_from_link params) invoice_one_time
          → params.subscription_period ≡ pos 0
      period v = unfold invoice_fields_from_link in v.subscription

  -- Each of the three operations on invoices either sends its request and returns what Telegram
  -- answers, and then the invoice is valid for its kind, or it sends nothing and returns the error of
  -- a check, and then the invoice is not valid. A subscription is sent with a period of thirty days,
  -- whatever the caller's period was, and with the other fields as they were given.
  pub invoice_calls :
      (send_api : SendInvoiceParams Other → Answer A)
      (link_api : CreateInvoiceLinkParams Other → Answer A) (params : SendInvoiceParams Other)
      (link : CreateInvoiceLinkParams Other)
      → let c = send_invoice send_api params in
        let d = create_invoice_link link_api link in
        let e = create_subscription_link link_api link in
        let monthly = record link { subscription_period = period_seconds } in
        let v = IsValidInvoice (invoice_fields_from_send params) invoice_one_time in
        let w = IsValidInvoice (invoice_fields_from_link link) invoice_one_time in
        let x = IsValidInvoice (invoice_fields_from_link monthly) invoice_subscription in
        ((v × SentFor send_api params c) ⊎ ((¬ v) × Refused c))
        × ((w × SentFor link_api link d) ⊎ ((¬ w) × Refused d))
        × ((x × SentFor link_api monthly e) ⊎ ((¬ x) × Refused e))
  unfolding send_invoice create_subscription_link
  invoice_calls send_api link_api params link =
      let monthly = record link { subscription_period = period_seconds } in
      (
        send_unless_cases (invoice_fields_from_send params) invoice_one_time send_api params,
        create_invoice_link_cases link_api link,
        send_unless_cases (invoice_fields_from_link monthly) invoice_subscription link_api monthly,
      )

-- Refunds, changes of a subscription and rejections of a checkout succeed exactly if their
-- arguments are given, a user other than 0 and texts that are not blank, and Telegram answers true
-- to the request made of these arguments.
pub checked_calls_ok_iff :
    (refund_api : RefundStarPaymentParams → Answer Bool)
    (edit_api : EditUserStarSubscriptionParams → Answer Bool)
    (checkout_api : AnswerPreCheckoutQueryParams → Answer Bool) (user : ℤ)
    (charge query message : Bytes) (canceled : Bool)
    → (((refund_stars refund_api user charge).result ≡ ok tt) ↔ (
        (user ≢ pos 0)
        × (is_blank charge ≡ false)
        × (refund_api (record { user_id = user; charge_id = charge }) ≡ answer true)))
      × (((set_subscription_canceled edit_api user charge canceled).result ≡ ok tt) ↔ (
          (user ≢ pos 0)
          × (is_blank charge ≡ false)
          × (edit_api (record { user_id = user; charge_id = charge; is_canceled = canceled })
              ≡ answer true)))
      × (((reject_pre_checkout checkout_api query message).result ≡ ok tt) ↔ (
          (is_blank message ≡ false)
          × (is_blank query ≡ false)
          × (checkout_api (record {
            pre_checkout_query_id = query;
            accepted = false;
            error_message = message;
          })
              ≡ answer true)))
unfolding refund_stars set_subscription_canceled reject_pre_checkout check_telegram_result
checked_calls_ok_iff refund_api edit_api checkout_api user charge query message canceled =
    let refund = refund_api (record { user_id = user; charge_id = charge }) in
    let edit = edit_api (record { user_id = user; charge_id = charge; is_canceled = canceled }) in
    let checkout =
      checkout_api
        (record { pre_checkout_query_id = query; accepted = false; error_message = message }) in
    (
      (λ h. (λ z. ground arith, ground arith, ground arith), λ v. ground (arith, v.0)),
      (λ h. (λ z. ground arith, ground arith, ground arith), λ v. ground (arith, v.0)),
      (λ h. (ground arith, ground arith, ground arith), λ v. ground arith),
    )
