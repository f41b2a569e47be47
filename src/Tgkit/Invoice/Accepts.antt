-- ===== src/Tgkit/Invoice/Accepts.antt =====
-- What `validateInvoice` of tgkit/payments.go accepts, and what it never does.
use servekit.Prelude.{
  ◌≡◌, ◌≢◌, ◌↔◌, ◌≤◌, Option, none, some, List, [], ◌∷◌, arith, inl, inr, ℤ, pos, length,
  Option-cases,
}
use servekit.Tgkit.Api.{Failure, index_panic, first_failure}
use servekit.Tgkit.Invoice.{
  LabeledPrice, InvoiceFields, InvoiceKind, invoice_one_time, invoice_subscription, add_prices,
  validate_invoice, validate_invoice_text, validate_invoice_currency, validate_invoice_prices,
  validate_invoice_tips, validate_invoice_subscription, check_total, check_first_price,
}
use servekit.Tgkit.Invoice.Valid.{
  IsValidText, IsValidCurrency, IsValidPrices, IsValidTips, IsValidSubscription, text_iff,
  currency_iff, prices_iff, tips_iff, subscription_iff,
}

pub record IsValidInvoice (invoice : InvoiceFields) (kind : InvoiceKind) : Type 0 where
  pub text : IsValidText invoice
  pub currency : IsValidCurrency invoice
  pub prices : IsValidPrices invoice
  pub tips : IsValidTips invoice
  pub subscription : IsValidSubscription invoice kind

first_failure_iff : (a b : Option Failure) → (first_failure a b ≡ none) ↔ ((a ≡ none) × (b ≡ none))
first_failure_iff a b = (λ h. ground arith, λ h. ground arith)

-- `validateInvoice` accepts an invoice exactly if it is valid: texts, currency and provider token,
-- prices, tips and period, each as the records of Tgkit/Invoice/Valid say.
pub validate_invoice_iff :
    (invoice : InvoiceFields) (kind : InvoiceKind)
    → (validate_invoice invoice kind ≡ none) ↔ IsValidInvoice invoice kind
unfolding validate_invoice
validate_invoice_iff invoice kind = (
  λ h. record {
    text = (text_iff invoice).0 (ground arith);
    currency = (currency_iff invoice).0 (ground arith);
    prices = (prices_iff invoice).0 (ground arith);
    tips = (tips_iff invoice).0 (ground arith);
    subscription = (subscription_iff invoice kind).0 (ground arith);
  },
  λ v. ground (
    arith,
    (text_iff invoice).1 v.text,
    (currency_iff invoice).1 v.currency,
    (prices_iff invoice).1 v.prices,
    (tips_iff invoice).1 v.tips,
    (subscription_iff invoice kind).1 v.subscription,
  ),
)

early_checks_safe :
    (invoice : InvoiceFields)
    → (validate_invoice_text invoice ≢ some index_panic)
      × (validate_invoice_currency invoice ≢ some index_panic)
      × (validate_invoice_tips invoice ≢ some index_panic)
unfolding validate_invoice_text validate_invoice_currency validate_invoice_tips
early_checks_safe invoice = (λ h. ground arith, λ h. ground arith, λ h. ground arith)

check_total_safe : (o : Option ℤ) → check_total o ≢ some index_panic
unfolding check_total
check_total_safe none h = cc
check_total_safe (some total) h = ground arith

prices_safe : (invoice : InvoiceFields) → validate_invoice_prices invoice ≢ some index_panic
unfolding validate_invoice_prices
prices_safe invoice h = ground (arith, check_total_safe (add_prices (pos 0) invoice.prices))

first_price_safe :
    (prices : List LabeledPrice) → 1 ≤ length prices → check_first_price prices ≢ some index_panic
unfolding check_first_price
first_price_safe [] some_price h = omega arith
first_price_safe (price ∷ prices) some_price h = ground arith

subscription_safe :
    (invoice : InvoiceFields) (kind : InvoiceKind)
    → IsValidPrices invoice
    → validate_invoice_subscription invoice kind ≢ some index_panic
unfolding validate_invoice_subscription
subscription_safe invoice invoice_one_time v h = ground arith
subscription_safe invoice invoice_subscription v h =
    ground (arith, first_price_safe invoice.prices v.some_price)

-- Whatever the invoice, `validateInvoice` never reads `prices[0]` of an empty list of prices.
validate_invoice_safe :
    (invoice : InvoiceFields) (kind : InvoiceKind)
    → validate_invoice invoice kind ≢ some index_panic
unfolding validate_invoice
validate_invoice_safe invoice kind h = elim (Option-cases (validate_invoice_prices invoice)) [
  | inl e ↦ ground (
    arith,
    (early_checks_safe invoice).0,
    (early_checks_safe invoice).1,
    (early_checks_safe invoice).2,
    subscription_safe invoice kind ((prices_iff invoice).0 e),
  )
  | inr (f, e) ↦
      ground
        (arith, (early_checks_safe invoice).0, (early_checks_safe invoice).1, prices_safe invoice)
]
