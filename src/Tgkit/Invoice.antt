-- ===== src/Tgkit/Invoice.antt =====
-- tgkit/payments.go: `validateInvoice` and what it calls.
pub mod Valid
pub mod Accepts
use servekit.Prelude.{
  ℕ, ◌+◌, ◌≡◌, Bool, true, false, not, ◌&&◌, ◌||◌, Option, none, some, List, [], ◌∷◌, ltb, leb,
  ◌==◌, if◌then◌else◌, ℤ, pos, ◌+ℤ◌, leb_ℤ, ltb_ℤ, is_zero_ℤ, wrap64, length, is_empty, all, Bytes,
  bytes_eq,
}
use servekit.GoText.{ascii, runes, rune_count, is_blank, in_range}
use servekit.Tgkit.Api.{
  Failure, bad_title, bad_description, bad_payload, bad_currency, stars_provider_token,
  no_provider_token, no_price, stars_price_count, empty_price_label, total_not_positive, stars_tips,
  negative_max_tip, too_many_tips, bad_tips, one_time_period, subscription_currency,
  subscription_period, subscription_price, index_panic, first_failure,
}

abbrev pub max_invoice_title_length : ℕ
max_invoice_title_length = 32

abbrev pub max_invoice_description_length : ℕ
max_invoice_description_length = 255

abbrev pub max_invoice_payload_bytes : ℕ
max_invoice_payload_bytes = 128

abbrev pub max_suggested_tips : ℕ
max_suggested_tips = 4

-- StarsCurrency
abbrev pub stars_currency : Bytes
stars_currency = ascii "XTR"

-- int(MonthlySubscriptionPeriod / time.Second)
abbrev pub period_seconds : ℤ
period_seconds = pos 2592000

abbrev pub max_stars_subscription_price : ℤ
max_stars_subscription_price = pos 10000

pub record LabeledPrice : Type 0 where
  pub label : Bytes
  pub amount : ℤ

pub record InvoiceFields : Type 0 where
  pub title : Bytes
  pub description : Bytes
  pub payload : Bytes
  pub provider_token : Bytes
  pub currency : Bytes
  pub prices : List LabeledPrice
  pub subscription_period_seconds : ℤ
  pub max_tip_amount : ℤ
  pub suggested_tip_amounts : List ℤ

pub data InvoiceKind : Type 0 where
  invoice_one_time : InvoiceKind
  invoice_subscription : InvoiceKind

unfoldable pub is_uppercase_currency_code : Bytes → Bool
unfolding in_range
is_uppercase_currency_code currency =
    (length currency == 3) && all (λ c. in_range b'A' b'Z' c) (runes currency)

unfoldable pub is_stars : InvoiceFields → Bool
is_stars invoice = bytes_eq invoice.currency stars_currency

unfoldable pub validate_invoice_text : InvoiceFields → Option Failure
validate_invoice_text invoice =
    if ltb max_invoice_title_length (rune_count invoice.title) || is_blank invoice.title
    then some bad_title
    else if ltb max_invoice_description_length (rune_count invoice.description)
        || is_blank invoice.description
    then some bad_description
    else if ltb (length invoice.payload) 1 || ltb max_invoice_payload_bytes (length invoice.payload)
    then some bad_payload
    else none

unfoldable pub validate_invoice_currency : InvoiceFields → Option Failure
unfolding is_stars
validate_invoice_currency invoice =
    if not (is_uppercase_currency_code invoice.currency)
    then some bad_currency
    else if is_stars invoice
    then (if not (is_empty invoice.provider_token) then some stars_provider_token else none)
    else if is_blank invoice.provider_token
    then some no_provider_token
    else none

-- `total += int64(price.Amount)` over the prices, or the first blank label.
unfoldable pub add_prices : ℤ → List LabeledPrice → Option ℤ
add_prices total [] = some total
add_prices total (price ∷ prices) =
    let rest = add_prices (wrap64 (total +ℤ price.amount)) prices in
    if is_blank price.label then none else rest

unfoldable pub check_total : Option ℤ → Option Failure
check_total none = some empty_price_label
check_total (some total) = if leb_ℤ total (pos 0) then some total_not_positive else none

unfoldable pub validate_invoice_prices : InvoiceFields → Option Failure
unfolding is_stars check_total
validate_invoice_prices invoice =
    if length invoice.prices == 0
    then some no_price
    else if is_stars invoice && not (length invoice.prices == 1)
    then some stars_price_count
    else check_total (add_prices (pos 0) invoice.prices)

-- The loop over the suggested tips.
unfoldable pub tips_increase : ℤ → ℤ → List ℤ → Bool
tips_increase max_tip previous [] = true
tips_increase max_tip previous (tip ∷ tips) =
    let rest = tips_increase max_tip tip tips in
    if leb_ℤ tip previous || ltb_ℤ max_tip tip then false else rest

unfoldable pub validate_invoice_tips : InvoiceFields → Option Failure
unfolding is_stars
validate_invoice_tips invoice =
    if is_stars invoice
      && (not (is_zero_ℤ invoice.max_tip_amount) || not (length invoice.suggested_tip_amounts == 0))
    then some stars_tips
    else if ltb_ℤ invoice.max_tip_amount (pos 0)
    then some negative_max_tip
    else if ltb max_suggested_tips (length invoice.suggested_tip_amounts)
    then some too_many_tips
    else if tips_increase invoice.max_tip_amount (pos 0) invoice.suggested_tip_amounts
    then none
    else some bad_tips

-- `invoice.prices[0].Amount > MaxStarsSubscriptionPrice`
unfoldable pub check_first_price : List LabeledPrice → Option Failure
check_first_price [] = some index_panic
check_first_price (price ∷ prices) =
    if ltb_ℤ max_stars_subscription_price price.amount then some subscription_price else none

unfoldable pub eq_ℤ : ℤ → ℤ → Bool
eq_ℤ a b = leb_ℤ a b && leb_ℤ b a

unfoldable pub validate_invoice_subscription : InvoiceFields → InvoiceKind → Option Failure
unfolding is_stars check_first_price eq_ℤ
validate_invoice_subscription invoice invoice_one_time =
    if not (is_zero_ℤ invoice.subscription_period_seconds) then some one_time_period else none
validate_invoice_subscription invoice invoice_subscription =
    if not (is_stars invoice)
    then some subscription_currency
    else if not (eq_ℤ invoice.subscription_period_seconds period_seconds)
    then some subscription_period
    else check_first_price invoice.prices

unfoldable pub validate_invoice : InvoiceFields → InvoiceKind → Option Failure
validate_invoice invoice kind = first_failure (validate_invoice_text invoice) (
    first_failure (validate_invoice_currency invoice) (
      first_failure (validate_invoice_prices invoice) (
        first_failure (validate_invoice_tips invoice)
          (validate_invoice_subscription invoice kind))))
